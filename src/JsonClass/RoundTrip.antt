-- ===== src/JsonClass/RoundTrip.antt =====
-- What JsonSerializer writes, JsonParser reads back.
use ymir_project.Base.{
  ℕ, zero, suc, ◌*◌, ◌≤◌, ◌≡◌, ◌≢◌, refl, sym, ap, ◌∙◌, Bool, true, false, none, some, [], ◌∷◌,
  ◌++◌, arith, ◌==◌, if◌then◌else◌, length, length-append, append_assoc,
}
use ymir_project.Host.{Text, text}
use ymir_project.JsonClass.{
  JsonValue, null_value, object, array, string, number, boolean, Values, nil, cons, Members, end,
  member, set_member, push_value, start_of, number_char, parse_string, parse_boolean, skip_comma,
  parse_number, parse_value, parse_members, parse_values, parse, escape, print_string, print_value,
  print_members, print_values, Doubles, stod, print_number,
}
use ymir_project.JsonClass.Numbers.{
  Leading, Whole, not_negative, below_zero, Exact, PrintsWhole, Whole-NumberText, stod-Whole,
  print_number-Whole,
}
use ymir_project.JsonClass.Tokens.{
  NoBackslash, NumberText, escape-append, parse_string-escape, number_token-all, number_char-start,
  escaped-unterminated,
}
use ymir_project.JsonClass.Sequences.{
  Behind, join, append_values, join_end, join_assoc, append_values_nil, append_values_assoc,
  push_value_lem, Ahead, set_member-last, Ahead-join, Ahead-end, size, size_members, size_values,
}

-- Values whose strings have no backslash, whose keys are in order, and whose numbers are whole and of
-- at most eight digits.
abbrev mutual
  pub Printable : JsonValue → Type 0
  Printable null_value = Unit {0}
  Printable (object ms) = PrintableMembers ms
  Printable (array vs) = PrintableValues vs
  Printable (string s) = NoBackslash s
  Printable (number t) = Whole t
  Printable (boolean b) = Unit {0}

  pub PrintableMembers : Members → Type 0
  PrintableMembers end = Unit {0}
  PrintableMembers (member k v ms) = NoBackslash k × Printable v × Behind k ms × PrintableMembers ms

  pub PrintableValues : Values → Type 0
  PrintableValues nil = Unit {0}
  PrintableValues (cons v vs) = Printable v × PrintableValues vs

Leading-nonempty : (t : Text) → Leading t → t ≢ []
Leading-nonempty [] l = absurd l
Leading-nonempty (c ∷ t) l = λ z. cc

Whole-nonempty : (t : Text) → Whole t → t ≢ []
Whole-nonempty t (not_negative _ d l b) = Leading-nonempty t l
Whole-nonempty _ (below_zero n t d l e b) = λ z. cc

module _ (doubles : Doubles) where
  reads_numeral :
      (n : ℕ) (p t : Text) (d : ℕ) (r : Text)
      → NumberText p
      → p ≢ []
      → doubles.print_8g (stod doubles p) ≡ t
      → number_char d ≡ false
      → parse_value doubles (suc n) (p ++ d ∷ r) ≡ some (number t, d ∷ r)
  unfolding parse_value parse_number
  reads_numeral n [] t d r all ne e c = absurd (ne refl)
  reads_numeral n (x ∷ p) t d r all ne e c =
      rw (parse_value, number_char-start x all.0, number_token-all (x ∷ p) (d ∷ r) all c, e) refl

module _ (doubles : Doubles) (exact : Exact doubles)
    (prints_8g : PrintsWhole doubles doubles.print_8g)
    (prints_17g : PrintsWhole doubles doubles.print_17g) where
  -- A number's text is what the serializer writes, and it is read back.
  reads_number :
      (n : ℕ) (t : Text) (d : ℕ) (r : Text)
      → Whole t
      → number_char d ≡ false
      → parse_value doubles (suc n) (print_number doubles t ++ d ∷ r) ≡ some (number t, d ∷ r)
  reads_number n t d r whole c = rw (print_number-Whole doubles prints_17g t whole) (
      reads_numeral doubles n t (doubles.print_8g (stod doubles t)) d r (Whole-NumberText t whole)
        (Whole-nonempty t whole) refl c
      ∙ ap (λ z. some (number z, d ∷ r)) (stod-Whole doubles exact prints_8g t whole))

  -- What follows a member: a comma or the brace, neither of which goes on with a number.
  record Follows (first_text rest : Text) : Type 0 where
    head : ℕ
    tail : Text
    is : rest ≡ head ∷ tail
    closed : number_char head ≡ false
    skips : skip_comma (head ∷ tail) ≡ some first_text

  members-Follows :
      (ms : Members) (r : Text)
      → Follows (print_members doubles true ms ++ r) (print_members doubles false ms ++ r)
  unfolding print_members skip_comma number_char
  members-Follows end r = record { head = 125; tail = r; is = refl; closed = refl; skips = refl }
  members-Follows (member k v ms) r = record {
    head = 44;
    tail = print_members doubles true (member k v ms) ++ r;
    is = refl;
    closed = refl;
    skips = refl;
  }

  values-Follows :
      (vs : Values) (r : Text)
      → Follows (print_values doubles true vs ++ r) (print_values doubles false vs ++ r)
  unfolding print_values skip_comma number_char
  values-Follows nil r = record { head = 93; tail = r; is = refl; closed = refl; skips = refl }
  values-Follows (cons v vs) r = record {
    head = 44;
    tail = print_values doubles true (cons v vs) ++ r;
    is = refl;
    closed = refl;
    skips = refl;
  }

  number-first :
      (p : Text) → NumberText p → p ≢ [] → (c : ℕ) × (t : Text) × (p ≡ c ∷ t) × ((c == 93) ≡ false)
  unfolding number_char
  number-first [] all ne = absurd (ne refl)
  number-first (x ∷ p) all ne = (x, p, refl, ground (arith, all.0))

  print_value-first :
      (v : JsonValue)
      → Printable v
      → (c : ℕ) × (t : Text) × (print_value doubles v ≡ c ∷ t) × ((c == 93) ≡ false)
  unfolding print_value print_string text
  print_value-first null_value p = (_, _, refl, refl)
  print_value-first (object ms) p = (_, _, refl, refl)
  print_value-first (array vs) p = (_, _, refl, refl)
  print_value-first (string s) p = (_, _, refl, refl)
  print_value-first (number t) p =
      rw (print_number-Whole doubles prints_17g t p)
        (number-first t (Whole-NumberText t p) (Whole-nonempty t p))
  print_value-first (boolean true) p = (_, _, refl, refl)
  print_value-first (boolean false) p = (_, _, refl, refl)

  parse_members-step :
      (n : ℕ) (k : Text) (v : JsonValue) (acc : Members) (d : ℕ) (body tail next : Text)
      → NoBackslash k
      → parse_value doubles n (body ++ d ∷ tail) ≡ some (v, d ∷ tail)
      → skip_comma (d ∷ tail) ≡ some next
      → parse_members doubles (suc n) (print_string k ++ 58 ∷ (body ++ d ∷ tail)) acc
        ≡ parse_members doubles n next (set_member k v acc)
  unfolding parse_members print_string
  parse_members-step n k v acc d body tail next nb e s =
      rw
        (
          append_assoc (escape k) (34 ∷ []) (58 ∷ (body ++ d ∷ tail)),
          parse_string-escape k 58 (body ++ d ∷ tail) nb,
          e,
          s,
        )
        refl

  parse_values-step :
      (n : ℕ) (v : JsonValue) (acc : Values) (c : ℕ) (r : Text) (d : ℕ) (tail next : Text)
      → (c == 93) ≡ false
      → parse_value doubles n (c ∷ r) ≡ some (v, d ∷ tail)
      → skip_comma (d ∷ tail) ≡ some next
      → parse_values doubles (suc n) (c ∷ r) acc ≡ parse_values doubles n next (push_value acc v)
  unfolding parse_values
  parse_values-step n v acc c r d tail next ne e s = rw (parse_values, ne, e, s) refl

  size-positive : (v : JsonValue) → 1 ≤ size v
  size-positive null_value = omega arith
  size-positive (object ms) = omega arith
  size-positive (array vs) = omega arith
  size-positive (string s) = omega arith
  size-positive (number t) = omega arith
  size-positive (boolean b) = omega arith

  -- The text of a member, without the comma before it.
  member-text :
      (k : Text) (v : JsonValue) (ms : Members) (r : Text)
      → print_members doubles true (member k v ms) ++ r
        ≡ print_string k ++ 58 ∷ (print_value doubles v ++ (print_members doubles false ms ++ r))
  unfolding print_members
  member-text k v ms r = simp append_assoc

  values-text :
      (v : JsonValue) (vs : Values) (r : Text)
      → print_values doubles true (cons v vs) ++ r
        ≡ print_value doubles v ++ (print_values doubles false vs ++ r)
  unfolding print_values
  values-text v vs r = simp append_assoc

  -- A value is read back when enough fuel is given and no number follows it.
  mutual
    unfolding parse_value parse_members parse_values print_value print_members print_values
        print_string start_of text parse_boolean

    reads :
        (n : ℕ) (v : JsonValue) (d : ℕ) (r : Text)
        → Printable v
        → number_char d ≡ false
        → size v ≤ n
        → parse_value doubles n (print_value doubles v ++ d ∷ r) ≡ some (v, d ∷ r)
    reads zero v d r p c le = absurd (omega (arith, le, size-positive v))
    reads (suc n) null_value d r p c le = refl
    reads (suc n) (object ms) d r p c le =
        reads_members n ms end (d ∷ r) p (Ahead-end ms) (omega arith)
    reads (suc n) (array vs) d r p c le = reads_values n vs nil (d ∷ r) p (omega arith)
    reads (suc n) (string s) d r p c le =
        rw (append_assoc (escape s) (34 ∷ []) (d ∷ r), parse_string-escape s d r p) refl
    reads (suc n) (number t) d r p c le = reads_number n t d r p c
    reads (suc n) (boolean true) d r p c le = refl
    reads (suc n) (boolean false) d r p c le = refl

    reads_members :
        (n : ℕ) (ms acc : Members) (r : Text)
        → PrintableMembers ms
        → Ahead acc ms
        → size_members ms ≤ n
        → parse_members doubles n (print_members doubles true ms ++ r) acc
          ≡ some (object (join acc ms), r)
    reads_members zero end acc r p a le = absurd (omega arith)
    reads_members zero (member k v ms) acc r p a le = absurd (omega arith)
    reads_members (suc n) end acc r p a le = ap (λ z. some (object z, r)) (sym (join_end acc))
    reads_members (suc n) (member k v ms) acc r p a le =
        let f = members-Follows ms r in
        ap (λ z. parse_members doubles (suc n) z acc)
          (member-text k v ms r
            ∙ ap (λ z. print_string k ++ 58 ∷ (print_value doubles v ++ z)) f.is)
        ∙ parse_members-step n k v acc f.head (print_value doubles v) f.tail
            (print_members doubles true ms ++ r) p.0
            (reads n v f.head f.tail p.1 f.closed (omega arith)) f.skips
        ∙ ap (parse_members doubles n (print_members doubles true ms ++ r))
            (set_member-last k v acc a.0)
        ∙ reads_members n ms (join acc (member k v end)) r p.3 (Ahead-join acc k v ms a.1 p.2)
            (omega arith)
        ∙ ap (λ z. some (object z, r)) (join_assoc acc (member k v end) ms)

    reads_values :
        (n : ℕ) (vs acc : Values) (r : Text)
        → PrintableValues vs
        → size_values vs ≤ n
        → parse_values doubles n (print_values doubles true vs ++ r) acc
          ≡ some (array (append_values acc vs), r)
    reads_values zero nil acc r p le = absurd (omega arith)
    reads_values zero (cons v vs) acc r p le = absurd (omega arith)
    reads_values (suc n) nil acc r p le = ap (λ z. some (array z, r)) (sym (append_values_nil acc))
    reads_values (suc n) (cons v vs) acc r p le =
        let f = values-Follows vs r in
        let (c, t, is, ne) = print_value-first v p.0 in
        let whole : print_values doubles true (cons v vs) ++ r ≡ c ∷ (t ++ f.head ∷ f.tail) =
          values-text v vs r
          ∙ ap (λ z. print_value doubles v ++ z) f.is
          ∙ ap (λ z. z ++ f.head ∷ f.tail) is in
        ap (λ z. parse_values doubles (suc n) z acc) whole
        ∙ parse_values-step n v acc c (t ++ f.head ∷ f.tail) f.head f.tail
            (print_values doubles true vs ++ r) ne
            (ap (λ z. parse_value doubles n (z ++ f.head ∷ f.tail)) (sym is)
              ∙ reads n v f.head f.tail p.0 f.closed (omega arith))
            f.skips
        ∙ ap (parse_values doubles n (print_values doubles true vs ++ r)) (push_value_lem acc v)
        ∙ reads_values n vs (append_values acc (cons v nil)) r p.1 (omega arith)
        ∙ ap (λ z. some (array z, r)) (append_values_assoc acc (cons v nil) vs)

  size_number : (s : Text) → s ≢ [] → 2 ≤ 2 * length s
  size_number [] ne = absurd (ne refl)
  size_number (c ∷ s) ne = omega arith

  -- The text of a value is long enough to give the fuel.
  mutual
    unfolding print_value print_members print_values print_string text

    size-le : (v : JsonValue) → Printable v → suc (size v) ≤ 2 * length (print_value doubles v)
    size-le null_value p = omega arith
    size-le (object ms) p = omega (arith, size_members-le true ms p)
    size-le (array vs) p = omega (arith, size_values-le true vs p)
    size-le (string s) p = omega (arith, length-append {0} (escape s) (34 ∷ []))
    size-le (number t) p =
        rw (print_number-Whole doubles prints_17g t p) (size_number t (Whole-nonempty t p))
    size-le (boolean true) p = omega arith
    size-le (boolean false) p = omega arith

    size_members-le :
        (first : Bool) (ms : Members)
        → PrintableMembers ms
        → suc (size_members ms) ≤ 2 * length (print_members doubles first ms)
    size_members-le first end p = omega arith
    size_members-le first (member k v ms) p =
        let tail = print_value doubles v ++ print_members doubles false ms in
        let body = print_string k ++ 58 ∷ tail in
        omega (
          arith,
          size-le v p.1,
          size_members-le false ms p.3,
          length-append {0} (print_value doubles v) (print_members doubles false ms),
          length-append {0} (print_string k) (58 ∷ tail),
          length-append {0} (if first then [] else 44 ∷ []) body,
        )

    size_values-le :
        (first : Bool) (vs : Values)
        → PrintableValues vs
        → suc (size_values vs) ≤ 2 * length (print_values doubles first vs)
    size_values-le first nil p = omega arith
    size_values-le first (cons v vs) p =
        let body = print_value doubles v ++ print_values doubles false vs in
        omega (
          arith,
          size-le v p.0,
          size_values-le false vs p.1,
          length-append {0} (print_value doubles v) (print_values doubles false vs),
          length-append {0} (if first then [] else 44 ∷ []) body,
        )

  -- A value whose strings and keys have no backslash, whose keys are in the order of the map, and
  -- whose numbers are whole and have at most eight digits, is what the parser answers for the text
  -- that the serializer writes of it; where doubles compute whole numbers below 2^53 exactly, and
  -- "%.8g" and "%.17g" print a whole number of at most eight digits by its decimal text.
  pub parse-print_value :
      (v : JsonValue) → Printable v → parse doubles (print_value doubles v) ≡ some v
  unfolding parse number_char
  parse-print_value v p =
      let whole = print_value doubles v in
      rw (reads (2 * length whole) v 0 [] p refl (omega (arith, size-le v p))) refl

module _ (doubles : Doubles) where
  string-unterminated :
      (n : ℕ) (r : Text) → parse_string r ≡ none → parse_value doubles n (34 ∷ r) ≡ none
  unfolding parse_value start_of
  string-unterminated zero r e = refl
  string-unterminated (suc n) r e = rw e refl

  trailing-text :
      (s : Text) → (escape (s ++ 92 ∷ []) ++ 34 ∷ []) ++ 0 ∷ [] ≡ escape s ++ 92 ∷ 92 ∷ 34 ∷ 0 ∷ []
  unfolding escape
  trailing-text s = rw (escape-append s (92 ∷ [])) (
      ap (λ z. z ++ 0 ∷ []) (append_assoc (escape s) (92 ∷ 92 ∷ []) (34 ∷ []))
      ∙ append_assoc (escape s) (92 ∷ 92 ∷ 34 ∷ []) (0 ∷ []))

  -- A string that ends in a backslash, its only one, is not read back: the parser takes the closing
  -- quote for an escaped one and runs out of the text.
  pub parse-trailing_backslash :
      (s : Text)
      → NoBackslash s
      → parse doubles (print_value doubles (string (s ++ 92 ∷ []))) ≡ none
  unfolding parse print_value print_string
  parse-trailing_backslash s n =
      let whole = print_value doubles (string (s ++ 92 ∷ [])) in
      rw
        (string-unterminated (2 * length whole) ((escape (s ++ 92 ∷ []) ++ 34 ∷ []) ++ 0 ∷ [])
          (rw (trailing-text s) (escaped-unterminated s n)))
        refl
