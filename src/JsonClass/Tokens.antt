-- ===== src/JsonClass/Tokens.antt =====
-- The strings and the numbers that JsonSerializer writes, and JsonParser reads.
use ymir_project.Base.{
  ℕ, ◌≡◌, ◌≢◌, refl, sym, subst, inl, inr, true, false, none, some, [], ◌∷◌, ◌++◌, arith, ◌==◌,
  ==_ne, ◌||◌, Bool-cases,
}
use ymir_project.Host.{Text}
use ymir_project.JsonClass.{other, start_of, number_char, parse_string, number_token, escape}

-- A string without a backslash.
abbrev pub NoBackslash : Text → Type 0
NoBackslash [] = Unit {0}
NoBackslash (c ∷ s) = (c ≢ 92) × NoBackslash s

abbrev pub NumberText : Text → Type 0
NumberText [] = Unit {0}
NumberText (c ∷ s) = (number_char c ≡ true) × NumberText s

-- The rest of the text does not go on with a number.
abbrev pub Closed : Text → Type 0
Closed [] = ⊥
Closed (c ∷ r) = number_char c ≡ false

pub escape-quote : (s : Text) → escape (34 ∷ s) ≡ 92 ∷ 34 ∷ escape s
unfolding escape
escape-quote s = refl

pub escape-plain : (c : ℕ) (s : Text) → c ≢ 34 → c ≢ 92 → escape (c ∷ s) ≡ c ∷ escape s
unfolding escape
escape-plain c s q b = rw (==_ne c 34 q, ==_ne c 92 b) refl

pub escape-append : (s t : Text) → escape (s ++ t) ≡ escape s ++ escape t
unfolding escape
escape-append [] t = refl
escape-append (c ∷ s) t = elim (Bool-cases (c == 34 || c == 92)) [
  | inl y ↦ rw (y, escape-append s t) refl
  | inr n ↦ rw (n, escape-append s t) refl
]

pub parse_string-plain :
    (c : ℕ) (r t r' : Text)
    → c ≢ 34
    → c ≢ 92
    → parse_string r ≡ some (t, r')
    → parse_string (c ∷ r) ≡ some (c ∷ t, r')
unfolding parse_string
parse_string-plain c [] t r' q b e = cc
parse_string-plain c (d ∷ r) t r' q b e = rw (==_ne c 34 q, ==_ne c 92 b, e) refl

pub parse_string-quote :
    (r t r' : Text) → parse_string r ≡ some (t, r') → parse_string (92 ∷ 34 ∷ r) ≡ some (34 ∷ t, r')
unfolding parse_string
parse_string-quote r t r' e = rw e refl

pub parse_string-end : (d : ℕ) (r : Text) → parse_string (34 ∷ d ∷ r) ≡ some ([], d ∷ r)
unfolding parse_string
parse_string-end d r = refl

-- A string without a backslash is read back, whatever follows.
pub parse_string-escape :
    (s : Text) (d : ℕ) (r : Text)
    → NoBackslash s
    → parse_string (escape s ++ 34 ∷ d ∷ r) ≡ some (s, d ∷ r)
unfolding escape
parse_string-escape [] d r n = parse_string-end d r
parse_string-escape (c ∷ s) d r n = elim (Bool-cases (c == 34)) [
  | inl y ↦
      let e : c ≡ 34 = ground (arith, y) in
      subst (λ x. parse_string (escape (x ∷ s) ++ 34 ∷ d ∷ r) ≡ some (x ∷ s, d ∷ r)) (sym e)
        (parse_string-quote (escape s ++ 34 ∷ d ∷ r) s (d ∷ r) (parse_string-escape s d r n.1))
  | inr q ↦ rw (escape-plain c s (λ e. ground (arith, q, e)) n.0) (
      parse_string-plain c (escape s ++ 34 ∷ d ∷ r) s (d ∷ r) (λ e. ground (arith, q, e)) n.0
        (parse_string-escape s d r n.1))
]

pub number_token-all : (t r : Text) → NumberText t → Closed r → number_token (t ++ r) ≡ some (t, r)
unfolding number_token
number_token-all [] [] n c = absurd c
number_token-all [] (d ∷ r) n c = rw c refl
number_token-all (x ∷ t) r n c = rw (n.0, number_token-all t r n.1 c) refl

pub number_char-start : (c : ℕ) → number_char c ≡ true → start_of c ≡ other
unfolding number_char start_of
number_char-start c h = ground arith

pub escaped-unterminated :
    (s : Text) → NoBackslash s → parse_string (escape s ++ 92 ∷ 92 ∷ 34 ∷ 0 ∷ []) ≡ none
unfolding parse_string escape
escaped-unterminated [] n = refl
escaped-unterminated (c ∷ s) n = elim (Bool-cases (c == 34)) [
  | inl y ↦
      let e : c ≡ 34 = ground (arith, y) in
      subst (λ x. parse_string (escape (x ∷ s) ++ 92 ∷ 92 ∷ 34 ∷ 0 ∷ []) ≡ none) (sym e)
        (rw (escaped-unterminated s n.1) refl)
  | inr q ↦ rw (escape-plain c s (λ e. ground (arith, q, e)) n.0) (
      plain_none c (escape s ++ 92 ∷ 92 ∷ 34 ∷ 0 ∷ []) (λ e. ground (arith, q, e)) n.0
        (escaped-unterminated s n.1))
]
  where
    plain_none :
        (c : ℕ) (r : Text) → c ≢ 34 → c ≢ 92 → parse_string r ≡ none → parse_string (c ∷ r) ≡ none
    plain_none c [] q b e = rw (==_ne c 34 q) refl
    plain_none c (d ∷ r) q b e = rw (==_ne c 34 q, ==_ne c 92 b, e) refl
