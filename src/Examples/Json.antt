-- ===== src/Examples/Json.antt =====
-- The theorems on the JSON classes at {"a":[true,"b\"c"],"n":-12}, over doubles that hold whole numbers
-- and print them by their digits.
use ymir_project.Base.{
  ℕ, zero, suc, ◌+◌, ◌-◌, ◌*◌, ◌/◌, ◌%◌, ◌≤◌, ◌≡◌, refl, sym, ap, ◌∙◌, true, false, none, some, [],
  ◌∷◌, ◌++◌, length, ltb, if◌then◌else◌, append-nil, arith,
}
use ymir_project.JsonClass.Numbers.{
  AllDigits, Leading, value, Whole, below_zero, Exact, PrintsWhole,
}
use ymir_project.StringClass.{text_lt, text_eq}
use ymir_project.Host.{ℤ, pos, negsuc, Text}
use ymir_project.JsonClass.{
  JsonValue, object, array, string, number, boolean, nil, cons, end, member, parse, print_value,
  Doubles, Members, null_value, find_member, get_key,
}
use ymir_project.JsonClass.Edits.{remove_key}
use ymir_project.JsonClass.Edits.Lookups.{Ordered, get_key-remove_key}
use ymir_project.JsonClass.Tokens.{NoBackslash}
use ymir_project.JsonClass.RoundTrip.{Printable, parse-print_value, parse-trailing_backslash}

abbrev seven : Text
seven = 55 ∷ []

-- The digits of a number, before others.
unfoldable decimal_before : (fuel n : ℕ) → Text → Text
decimal_before zero n t = t
decimal_before (suc fuel) n t =
    let more = decimal_before fuel (n / 10) ((48 + n % 10) ∷ t) in
    if ltb n 10 then (48 + n) ∷ t else more

decimal : ℕ → Text
decimal n = decimal_before (suc n) n []

digit_step :
    (fuel n c : ℕ) (t : Text)
    → 1 ≤ n
    → 48 ≤ c
    → c ≤ 57
    → decimal_before (suc fuel) (n * 10 + (c - 48)) t ≡ decimal_before fuel n (c ∷ t)
unfolding decimal_before
digit_step fuel n c t one le ge =
    let many : ltb (n * 10 + (c - 48)) 10 ≡ false = ground arith in
    let front : (n * 10 + (c - 48)) / 10 ≡ n = omega arith in
    let last : 48 + (n * 10 + (c - 48)) % 10 ≡ c = omega arith in rw (many, front, last) refl

zero_add : (n : ℕ) → 0 + n ≡ n
zero_add n = omega arith

digits_step :
    (fuel n : ℕ) (t u : Text)
    → 1 ≤ n
    → AllDigits t
    → decimal_before (length t + fuel) (value n t) u ≡ decimal_before fuel n (t ++ u)
digits_step fuel n [] u one d = ap (λ f. decimal_before f n u) (zero_add fuel)
digits_step fuel n (c ∷ t) u one d =
    let m = n * 10 + (c - 48) in
    let more : length (c ∷ t) + fuel ≡ length t + suc fuel = omega arith in
    ap (λ f. decimal_before f (value m t) u) more
    ∙ digits_step (suc fuel) m t u (omega arith) d.2
    ∙ digit_step fuel n c (t ++ u) one d.0 d.1

value-length : (n : ℕ) (t : Text) → 1 ≤ n → n + length t ≤ value n t
value-length n [] one = omega arith
value-length n (c ∷ t) one = omega (arith, value-length (n * 10 + (c - 48)) t (omega arith))

decimal_from :
    (c : ℕ) (t : Text) → AllDigits (c ∷ t) → Leading (c ∷ t) → decimal (value (c - 48) t) ≡ c ∷ t
unfolding decimal decimal_before
decimal_from c [] d l =
    let one : ltb (c - 48) 10 ≡ true = ground (arith, d.0, d.1) in
    let same : 48 + (c - 48) ≡ c = omega (arith, d.0) in rw (one, same) refl
decimal_from c (b ∷ r) d l =
    let t : Text = b ∷ r in
    let n = c - 48 in
    let v = value n t in
    let first : 1 ≤ n = omega (arith, d.0, l) in
    let fuel : suc v ≡ length t + suc (v - length t) = omega (arith, value-length n t first) in
    let one : ltb n 10 ≡ true = ground (arith, d.0, d.1) in
    let same : 48 + n ≡ c = omega (arith, d.0) in
    ap (λ f. decimal_before f v []) fuel
    ∙ digits_step (suc (v - length t)) n t [] first d.2
    ∙ rw (one, same) (ap (λ z. c ∷ z) (append-nil t))

zero_start : (n : ℕ) → 0 * 10 + n ≡ n
zero_start n = omega arith

decimal_lem : (t : Text) → AllDigits t → Leading t → decimal (value 0 t) ≡ t
decimal_lem [] d l = absurd l
decimal_lem (c ∷ t) d l = ap (λ k. decimal (value k t)) (zero_start (c - 48)) ∙ decimal_from c t d l

print_decimal : ℤ → Text
print_decimal (pos n) = decimal n
print_decimal (negsuc n) = 45 ∷ decimal (suc n)

negated : ℤ → ℤ
negated (pos zero) = pos 0
negated (pos (suc n)) = negsuc n
negated (negsuc n) = pos (suc n)

add : ℤ → ℤ → ℤ
add (pos m) (pos n) = pos (m + n)
add (pos m) (negsuc n) = if ltb n m then pos (m - suc n) else negsuc (n - m)
add (negsuc m) (pos n) = if ltb m n then pos (n - suc m) else negsuc (m - n)
add (negsuc m) (negsuc n) = negsuc (suc (m + n))

multiply : ℤ → ℤ → ℤ
multiply (pos m) (pos n) = pos (m * n)
multiply (pos m) (negsuc n) = negated (pos (m * suc n))
multiply (negsuc m) (pos n) = negated (pos (suc m * n))
multiply (negsuc m) (negsuc n) = pos (suc m * suc n)

-- The quotient of a number that is not negative and a positive one, the only ones that stod divides.
divide : ℤ → ℤ → ℤ
divide (pos m) (pos (suc n)) = pos (m / suc n)
divide m n = pos 0

-- Doubles that hold whole numbers alone.
abbrev whole_doubles : Doubles
whole_doubles = record {
  Double = ℤ;
  of_int = λ n. n;
  plus = add;
  times = multiply;
  over = divide;
  print_8g = print_decimal;
  print_17g = print_decimal;
}

times_one_lem : (n : ℕ) → n * 1 ≡ n
times_one_lem n = omega arith

whole_doubles-Exact : Exact whole_doubles
unfolding add multiply negated
whole_doubles-Exact = record {
  plus_exact = λ m n lt. refl;
  times_exact = λ m n lt. refl;
  negate_exact = λ n lt. ap (λ k. negated (pos k)) (times_one_lem (suc n));
  times_one = λ n lt. ap (λ k. negated (pos k)) (times_one_lem (suc n));
}

print_decimal-PrintsWhole : PrintsWhole whole_doubles print_decimal
unfolding print_decimal
print_decimal-PrintsWhole = record {
  prints = λ t d l b. decimal_lem t d l;
  prints_negative =
      λ n t d l e b. ap (λ k. 45 ∷ decimal k) (sym e) ∙ ap (◌∷◌ 45) (decimal_lem t d l);
}

-- -12
abbrev minus_twelve : Text
minus_twelve = 45 ∷ 49 ∷ 50 ∷ []

minus_twelve-Whole : Whole minus_twelve
minus_twelve-Whole =
    below_zero 11 (49 ∷ 50 ∷ []) (omega arith, omega arith, (omega arith, omega arith, tt))
      (λ e. absurd (omega arith)) refl (omega arith)

abbrev document : JsonValue
document = object (
    member (97 ∷ []) (array (cons (boolean true) (cons (string (98 ∷ 34 ∷ 99 ∷ [])) nil)))
      (member (110 ∷ []) (number minus_twelve) end))

quoted-NoBackslash : NoBackslash (98 ∷ 34 ∷ 99 ∷ [])
quoted-NoBackslash = (
  λ e. absurd (omega (arith, e)),
  (λ e. absurd (omega (arith, e)), (λ e. absurd (omega (arith, e)), tt)),
)

document-Printable : Printable document
unfolding text_lt
document-Printable = (
  (λ e. absurd (omega (arith, e)), tt),
  (tt, (quoted-NoBackslash, tt)),
  (refl, tt),
  ((λ e. absurd (omega (arith, e)), tt), minus_twelve-Whole, tt, tt),
)

parse-print_value_example : parse whole_doubles (print_value whole_doubles document) ≡ some document
parse-print_value_example =
    parse-print_value whole_doubles whole_doubles-Exact print_decimal-PrintsWhole
      print_decimal-PrintsWhole document document-Printable

parse-trailing_backslash_example :
    parse whole_doubles (print_value whole_doubles (string (97 ∷ 92 ∷ []))) ≡ none
parse-trailing_backslash_example =
    parse-trailing_backslash whole_doubles (97 ∷ []) (λ e. absurd (omega (arith, e)), tt)

abbrev two_members : Members
two_members = member (97 ∷ []) (boolean true) (member (110 ∷ []) (number seven) end)

two_members-Ordered : Ordered two_members
unfolding text_lt
two_members-Ordered = ((refl, tt), (tt, tt))

n_found : find_member (110 ∷ []) two_members ≡ some (number seven)
unfolding find_member text_eq
n_found = refl

get_key-remove_key_example :
    (o : JsonValue) × (remove_key (110 ∷ []) (object two_members) ≡ some o)
    × (get_key (110 ∷ []) o ≡ null_value)
    × ((l : Text) → text_eq (110 ∷ []) l ≡ false → get_key l o ≡ get_key l (object two_members))
get_key-remove_key_example =
    get_key-remove_key (110 ∷ []) two_members (number seven) two_members-Ordered n_found
