-- ===== src/JsonClass.antt =====
-- JsonValue, JsonParser and JsonSerializer of liblxcd/json.cpp. A string is the list of its bytes, an
-- object is the list of the entries of its map. The text that the parser has before it ends with the
-- terminator; reading behind it is a fault (`none`).
pub mod Tokens
pub mod Sequences
pub mod Numbers
pub mod RoundTrip
pub mod Access
pub mod Edits
use ymir_project.Base.{
  ℕ, zero, suc, ◌+◌, ◌-◌, ◌*◌, Bool, true, false, not, Option, none, some, List, [], ◌∷◌, ◌++◌,
  ◌==◌, ltb, leb, ◌&&◌, ◌||◌, if◌then◌else◌, length, drop,
}
use ymir_project.Buffer.{◌>>=◌}
use ymir_project.Host.{ℤ, pos, negsuc, Text, text}
use ymir_project.StringClass.{text_eq, text_lt}
use ymir_project.Amx.{stoi}

-- JsonValue, by its type_. A number is kept as its text.
mutual
  pub data JsonValue : Type 0 where
    null_value : JsonValue
    object : Members → JsonValue
    array : Values → JsonValue
    string : Text → JsonValue
    number : Text → JsonValue
    boolean : Bool → JsonValue

  pub data Values : Type 0 where
    nil : Values
    cons : JsonValue → Values → Values

  pub data Members : Type 0 where
    end : Members
    member : Text → JsonValue → Members → Members

-- obj_[key] = value, on a map of another key type than before.
unfoldable pub set_member : Text → JsonValue → Members → Members
set_member k v end = member k v end
set_member k v (member l w ms) =
    let rest = set_member k v ms in
    if text_lt l k
    then member l w rest
    else if text_eq l k
    then member l v ms
    else member k v (member l w ms)

unfoldable pub push_value : Values → JsonValue → Values
push_value nil v = cons v nil
push_value (cons w vs) v = cons w (push_value vs v)

unfoldable pub find_member : Text → Members → Option JsonValue
find_member k end = none
find_member k (member l w ms) = let rest = find_member k ms in if text_eq l k then some w else rest

unfoldable pub find_value : ℕ → Values → Option JsonValue
find_value i nil = none
find_value zero (cons v vs) = some v
find_value (suc i) (cons v vs) = find_value i vs

-- append, set, and the two const operator[]; what has another type is left alone, or is null.
unfoldable pub append : JsonValue → JsonValue → JsonValue
append (array vs) v = array (push_value vs v)
append o v = o

unfoldable pub set_key : Text → JsonValue → JsonValue → JsonValue
set_key k v (object ms) = object (set_member k v ms)
set_key k v o = o

unfoldable pub get_key : Text → JsonValue → JsonValue
get_key k (object ms) = elim (find_member k ms) [ none ↦ null_value | some v ↦ v ]
get_key k o = null_value

unfoldable pub get_index : ℕ → JsonValue → JsonValue
get_index i (array vs) = elim (find_value i vs) [ none ↦ null_value | some v ↦ v ]
get_index i o = null_value

-- asString, asInt and asBool
unfoldable pub as_string : JsonValue → Text
as_string (string s) = s
as_string o = []

unfoldable pub as_int : JsonValue → ℤ
as_int (number t) = stoi t
as_int o = pos 0

unfoldable pub as_bool : JsonValue → Bool
as_bool (boolean b) = b
as_bool o = false

-- The switch of parseValue.
pub data Start : Type 0 where
  opens_object opens_array opens_string truth nothing other : Start

unfoldable pub start_of : ℕ → Start
start_of c =
    if c == 123
    then opens_object
    else if c == 91
    then opens_array
    else if c == 34
    then opens_string
    else if c == 116 || c == 102
    then truth
    else if c == 110
    then nothing
    else other

-- The characters of a number: digits, '-', '.', 'e' and 'E'.
unfoldable pub number_char : ℕ → Bool
number_char c = (leb 48 c && leb c 57) || (c == 45 || (c == 46 || (c == 101 || c == 69)))

-- parseString behind the opening quote: the token, without the backslashes before quotes.
unfoldable pub parse_string : Text → Option (Text × Text)
parse_string [] = none
parse_string (c ∷ []) = if c == 34 then some ([], []) else none
parse_string (c ∷ d ∷ r) =
    let quoted = (do (t, r') ← parse_string r; some (34 ∷ t, r')) in
    let plain = (do (t, r') ← parse_string (d ∷ r); some (c ∷ t, r')) in
    if c == 34 then some ([], d ∷ r) else if c == 92 && d == 34 then quoted else plain

-- The loop of parseNumber.
unfoldable pub number_token : Text → Option (Text × Text)
number_token [] = none
number_token (c ∷ r) =
    let more = (do (t, r') ← number_token r; some (c ∷ t, r')) in
    if number_char c then more else some ([], c ∷ r)

-- parseBoolean
unfoldable pub parse_boolean : Text → JsonValue × Text
parse_boolean [] = (boolean false, [])
parse_boolean (c ∷ r) =
    if c == 116 then (boolean true, drop 4 (c ∷ r)) else (boolean false, drop 5 (c ∷ r))

-- if(json_[pos_] == ',') pos_++
unfoldable pub skip_comma : Text → Option Text
skip_comma [] = none
skip_comma (c ∷ r) = some (if c == 44 then r else c ∷ r)

unfoldable pub escape : Text → Text
escape [] = []
escape (c ∷ s) = let rest = escape s in if c == 34 || c == 92 then 92 ∷ c ∷ rest else c ∷ rest

-- serializeString
unfoldable pub print_string : Text → Text
print_string s = 34 ∷ (escape s ++ 34 ∷ [])

-- The doubles of the machine, with sprintf's "%.8g" and "%.17g" of a double.
pub record Doubles : Type 1 where
  pub Double : Type 0
  pub of_int : ℤ → Double
  pub plus : Double → Double → Double
  pub times : Double → Double → Double
  pub over : Double → Double → Double
  pub print_8g : Double → Text
  pub print_17g : Double → Text

unfoldable pub is_digit : ℕ → Bool
is_digit c = leb 48 c && leb c 57

module _ (o : Doubles) where
  -- The variables of string::stod.
  pub record StodState : Type 0 where
    pub result : o.Double
    pub factor : o.Double
    pub negative : Bool
    pub decimal : Bool

  unfoldable pub stod_digit : StodState → ℕ → StodState
  stod_digit s digit = record s {
    factor = if s.decimal then o.over s.factor (o.of_int (pos 10)) else s.factor;
    result = o.plus (o.times s.result (o.of_int (pos 10))) (o.of_int (pos digit));
  }

  unfoldable pub stod_char : StodState → ℕ → StodState
  stod_char s c =
      if c == 45
      then record s { negative = true }
      else if c == 46
      then record s { decimal = true }
      else stod_digit s (c - 48)

  -- The loop of stod: what is no sign, no point and no digit ends it.
  unfoldable pub stod_loop : StodState → Text → StodState
  stod_loop s [] = s
  stod_loop s (c ∷ t) =
      let rest = stod_loop (stod_char s c) t in
      if c == 45 || (c == 46 || is_digit c) then rest else s

  unfoldable pub stod_result : StodState → o.Double
  stod_result s =
      o.times (if s.negative then o.times s.result (o.of_int (negsuc 0)) else s.result) s.factor

  -- string::stod
  unfoldable pub stod : Text → o.Double
  stod t = stod_result (
      stod_loop
        (record {
          result = o.of_int (pos 0);
          factor = o.of_int (pos 1);
          negative = false;
          decimal = false;
        })
        t)

  -- parseNumber; the value keeps to_string of the double, which prints it by "%.8g".
  unfoldable pub parse_number : Text → Option (JsonValue × Text)
  parse_number r = do (t, r') ← number_token r; some (number (o.print_8g (stod t)), r')

  -- parseValue, and the loops of parseObject and of parseArray. The fuel counts the values and the
  -- members.
  unfoldable mutual
    pub parse_value : ℕ → Text → Option (JsonValue × Text)
    parse_value zero r = none
    parse_value (suc n) [] = none
    parse_value (suc n) (c ∷ r) = elim (start_of c) [
      | opens_object ↦ parse_members n r end
      | opens_array ↦ parse_values n r nil
      | opens_string ↦ (do (t, r') ← parse_string r; some (string t, r'))
      | truth ↦ some (parse_boolean (c ∷ r))
      | nothing ↦ some (null_value, drop 4 (c ∷ r))
      | other ↦ parse_number (c ∷ r)
    ]

    pub parse_members : ℕ → Text → Members → Option (JsonValue × Text)
    parse_members zero r ms = none
    parse_members (suc n) [] ms = none
    parse_members (suc n) (c ∷ r) ms = elim (c == 125) [
      | true ↦ some (object ms, r)
      | false ↦ (do
        (k, r1) ← parse_string r
        (v, r2) ← parse_value n (drop 1 r1)
        r3 ← skip_comma r2
        parse_members n r3 (set_member k v ms))
    ]

    pub parse_values : ℕ → Text → Values → Option (JsonValue × Text)
    parse_values zero r vs = none
    parse_values (suc n) [] vs = none
    parse_values (suc n) (c ∷ r) vs = elim (c == 93) [
      | true ↦ some (array vs, r)
      | false ↦ (do
        (v, r2) ← parse_value n (c ∷ r)
        r3 ← skip_comma r2
        parse_values n r3 (push_value vs v))
    ]

  -- parse
  unfoldable pub parse : Text → Option JsonValue
  parse json = do (v, _) ← parse_value (2 * length json) (json ++ 0 ∷ []); some v

module _ (o : Doubles) where
  -- serializeNumber of asInt
  unfoldable pub print_number : Text → Text
  print_number t = o.print_17g (o.of_int (stoi t))

  -- serializeValue, and the loops of serializeObject and of serializeArray with their flag `first`.
  unfoldable mutual
    pub print_value : JsonValue → Text
    print_value null_value = text "null"
    print_value (object ms) = 123 ∷ print_members true ms
    print_value (array vs) = 91 ∷ print_values true vs
    print_value (string s) = print_string s
    print_value (number t) = print_number t
    print_value (boolean b) = if b then text "true" else text "false"

    pub print_members : Bool → Members → Text
    print_members first end = 125 ∷ []
    print_members first (member k v ms) =
        (if first then [] else 44 ∷ [])
        ++ (print_string k ++ 58 ∷ (print_value v ++ print_members false ms))

    pub print_values : Bool → Values → Text
    print_values first nil = 93 ∷ []
    print_values first (cons v vs) =
        (if first then [] else 44 ∷ []) ++ (print_value v ++ print_values false vs)
