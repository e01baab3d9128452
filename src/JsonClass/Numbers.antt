-- ===== src/JsonClass/Numbers.antt =====
-- The whole numbers that JsonSerializer writes, and that stoi and stod read.
use ymir_project.Base.{
  ℕ, suc, ◌+◌, ◌-◌, ◌*◌, ◌%◌, ◌^◌, ◌≤◌, ◌<◌, ◌≡◌, ◌≢◌, refl, ap, ◌∙◌, Bool, true, false, [], ◌∷◌,
  arith, ◌==◌, ==_ne, ltb, leb, ◌&&◌,
}
use ymir_project.Host.{pos, negsuc, Text}
use ymir_project.Container.{to_int32}
use ymir_project.Amx.{digits_loop, stoi}
use ymir_project.JsonClass.{
  Doubles, StodState, stod_digit, stod_char, stod_loop, stod_result, stod, is_digit, number_char,
  print_number,
}
use ymir_project.JsonClass.Tokens.{NumberText}

abbrev pub AllDigits : Text → Type 0
AllDigits [] = Unit {0}
AllDigits (c ∷ t) = (48 ≤ c) × (c ≤ 57) × AllDigits t

-- A digit at least, and no zero before another digit.
abbrev pub Leading : Text → Type 0
Leading [] = ⊥
Leading (c ∷ []) = Unit {0}
Leading (c ∷ d ∷ t) = c ≢ 48

-- The number that digits behind the number n make.
abbrev pub value : ℕ → Text → ℕ
value n [] = n
value n (c ∷ t) = value (n * 10 + (c - 48)) t

-- The decimal text of a whole number of at most eight digits.
pub data Whole : Text → Type 0 where
  not_negative : (t : Text) → AllDigits t → Leading t → value 0 t < 100000000 → Whole t
  below_zero :
      (n : ℕ) (t : Text)
      → AllDigits t
      → Leading t
      → value 0 t ≡ suc n
      → suc n < 100000000
      → Whole (45 ∷ t)

-- What C and IEEE 754 say of the doubles: sums and products of whole numbers below 2^53 are exact.
pub record Exact (o : Doubles) : Type 0 where
  pub plus_exact :
      (m n : ℕ)
      → m + n < 2 ^ 53
      → o.plus (o.of_int (pos m)) (o.of_int (pos n)) ≡ o.of_int (pos (m + n))
  pub times_exact :
      (m n : ℕ)
      → m * n < 2 ^ 53
      → o.times (o.of_int (pos m)) (o.of_int (pos n)) ≡ o.of_int (pos (m * n))
  pub negate_exact :
      (n : ℕ)
      → suc n < 2 ^ 53
      → o.times (o.of_int (pos (suc n))) (o.of_int (negsuc 0)) ≡ o.of_int (negsuc n)
  pub times_one :
      (n : ℕ)
      → suc n < 2 ^ 53
      → o.times (o.of_int (negsuc n)) (o.of_int (pos 1)) ≡ o.of_int (negsuc n)

-- A printing writes a whole number of at most eight digits by its decimal text.
pub record PrintsWhole (o : Doubles) (print : o.Double → Text) : Type 0 where
  pub prints :
      (t : Text)
      → AllDigits t
      → Leading t
      → value 0 t < 100000000
      → print (o.of_int (pos (value 0 t))) ≡ t
  pub prints_negative :
      (n : ℕ) (t : Text)
      → AllDigits t
      → Leading t
      → value 0 t ≡ suc n
      → suc n < 100000000
      → print (o.of_int (negsuc n)) ≡ 45 ∷ t

value-ge : (n : ℕ) (t : Text) → n ≤ value n t
value-ge n [] = omega arith
value-ge n (c ∷ t) = omega (arith, value-ge (n * 10 + (c - 48)) t)

is_digit-true : (c : ℕ) → 48 ≤ c → c ≤ 57 → is_digit c ≡ true
unfolding is_digit
is_digit-true c le ge = ground arith

digit-not : (c x : ℕ) → 48 ≤ c → x < 48 → (c == x) ≡ false
digit-not c x le lt = ==_ne c x (λ e. omega arith)

Digits-NumberText : (t : Text) → AllDigits t → NumberText t
unfolding number_char
Digits-NumberText [] d = tt
Digits-NumberText (c ∷ t) d = (ground (arith, d.0, d.1), Digits-NumberText t d.2)

pub Whole-NumberText : (t : Text) → Whole t → NumberText t
unfolding number_char
Whole-NumberText t (not_negative _ d l b) = Digits-NumberText t d
Whole-NumberText _ (below_zero n t d l e b) = (refl, Digits-NumberText t d)

-- stoi of the digits does not wrap around.
digits_loop_lem :
    (n : ℕ) (t : Text) → AllDigits t → value n t < 2 ^ 32 → digits_loop n t ≡ value n t
unfolding digits_loop
digits_loop_lem n [] d lt = refl
digits_loop_lem n (c ∷ t) d lt =
    let small : (n * 10 + (c - 48)) % 2 ^ 32 ≡ n * 10 + (c - 48) =
      omega (arith, value-ge (n * 10 + (c - 48)) t) in
    let digit : (leb 48 c && leb c 57) ≡ true = ground (arith, d.0, d.1) in
    rw (digit, small) (digits_loop_lem (n * 10 + (c - 48)) t d.2 lt)

to_int32-small : (n : ℕ) → n < 2 ^ 31 → to_int32 n ≡ pos n
unfolding to_int32
to_int32-small n lt =
    let m : n % 2 ^ 32 ≡ n = omega arith in
    let b : ltb n (2 ^ 31) ≡ true = ground arith in rw (m, b) refl

to_int32-negative : (n : ℕ) → suc n < 2 ^ 31 → to_int32 (2 ^ 32 - suc n) ≡ negsuc n
unfolding to_int32
to_int32-negative n lt =
    let m : (2 ^ 32 - suc n) % 2 ^ 32 ≡ 2 ^ 32 - suc n = omega arith in
    let b : ltb (2 ^ 32 - suc n) (2 ^ 31) ≡ false = ground arith in
    let r : 2 ^ 32 - 1 - (2 ^ 32 - suc n) ≡ n = omega arith in rw (m, b, r) refl

stoi-digits :
    (t : Text) → AllDigits t → Leading t → value 0 t < 100000000 → stoi t ≡ pos (value 0 t)
unfolding stoi
stoi-digits [] d l b = absurd l
stoi-digits (c ∷ t) d l b =
    rw
      (
        digit-not c 45 d.0 (omega arith),
        digit-not c 43 d.0 (omega arith),
        digits_loop_lem 0 (c ∷ t) d (omega arith),
      )
      (to_int32-small (value 0 (c ∷ t)) (omega arith))

stoi-negative :
    (n : ℕ) (t : Text)
    → AllDigits t
    → value 0 t ≡ suc n
    → suc n < 100000000
    → stoi (45 ∷ t) ≡ negsuc n
unfolding stoi
stoi-negative n t d e b =
    rw (digits_loop_lem 0 t d (omega arith), e) (to_int32-negative n (omega arith))

module _ (o : Doubles) (exact : Exact o) where
  -- The state of stod behind digits that make n.
  abbrev behind : Bool → ℕ → StodState o
  behind b n = record {
    result = o.of_int (pos n);
    factor = o.of_int (pos 1);
    negative = b;
    decimal = false;
  }

  stod_char-digit :
      (b : Bool) (n c : ℕ)
      → 48 ≤ c
      → n * 10 + (c - 48) < 100000000
      → stod_char o (behind b n) c ≡ behind b (n * 10 + (c - 48))
  unfolding stod_char stod_digit
  stod_char-digit b n c le lt =
      let sum : o.plus (o.times (o.of_int (pos n)) (o.of_int (pos 10))) (o.of_int (pos (c - 48)))
          ≡ o.of_int (pos (n * 10 + (c - 48))) =
        ap (λ x. o.plus x (o.of_int (pos (c - 48)))) (exact.times_exact n 10 (omega arith))
        ∙ exact.plus_exact (n * 10) (c - 48) (omega arith) in
      rw (==_ne c 45 (λ e. omega arith), ==_ne c 46 (λ e. omega arith))
        (ap (λ x. record (behind b n) { result = x }) sum)

  stod_loop-digits :
      (b : Bool) (n : ℕ) (t : Text)
      → AllDigits t
      → value n t < 100000000
      → stod_loop o (behind b n) t ≡ behind b (value n t)
  unfolding stod_loop
  stod_loop-digits b n [] d lt = refl
  stod_loop-digits b n (c ∷ t) d lt =
      let m = n * 10 + (c - 48) in
      let step = stod_char-digit b n c d.0 (omega (arith, value-ge m t)) in
      rw
        (
          ==_ne c 45 (λ e. omega (arith, d.0)),
          ==_ne c 46 (λ e. omega (arith, d.0)),
          is_digit-true c d.0 d.1,
        )
        (ap (λ s. stod_loop o s t) step ∙ stod_loop-digits b m t d.2 lt)

  stod-digits :
      (t : Text) → AllDigits t → value 0 t < 100000000 → stod o t ≡ o.of_int (pos (value 0 t))
  unfolding stod stod_result
  stod-digits t d lt =
      ap (stod_result o) (stod_loop-digits false 0 t d lt)
      ∙ exact.times_exact (value 0 t) 1 (omega arith)
      ∙ ap (λ n. o.of_int (pos n)) (omega arith)

  stod-negative :
      (n : ℕ) (t : Text)
      → AllDigits t
      → value 0 t ≡ suc n
      → suc n < 100000000
      → stod o (45 ∷ t) ≡ o.of_int (negsuc n)
  unfolding stod stod_result stod_loop stod_char
  stod-negative n t d e lt =
      ap (stod_result o) (stod_loop-digits true 0 t d (omega arith) ∙ ap (behind true) e)
      ∙ ap (λ x. o.times x (o.of_int (pos 1))) (exact.negate_exact n (omega arith))
      ∙ exact.times_one n (omega arith)

  -- stod reads a whole number, and a printing gives its text back.
  pub stod-Whole : PrintsWhole o o.print_8g → (t : Text) → Whole t → o.print_8g (stod o t) ≡ t
  stod-Whole p t (not_negative _ d l b) = ap o.print_8g (stod-digits t d b) ∙ p.prints t d l b
  stod-Whole p _ (below_zero n t d l e b) =
      ap o.print_8g (stod-negative n t d e b) ∙ p.prints_negative n t d l e b

pub print_number-Whole :
    (o : Doubles) → PrintsWhole o o.print_17g → (t : Text) → Whole t → print_number o t ≡ t
unfolding print_number
print_number-Whole o p t (not_negative _ d l b) =
    ap (λ z. o.print_17g (o.of_int z)) (stoi-digits t d l b) ∙ p.prints t d l b
print_number-Whole o p _ (below_zero n t d l e b) =
    ap (λ z. o.print_17g (o.of_int z)) (stoi-negative n t d e b) ∙ p.prints_negative n t d l e b
