-- ===== src/Uuid/Layout.antt =====
-- The layout of what generate gives, and its descriptors.
use ymir_project.Base.{
  arith, ℕ, zero, suc, ◌+◌, ◌%◌, ◌≤◌, ◌<◌, ◌≡◌, ◌≢◌, ◌⊎◌, refl, sym, ap, subst, ◌∙◌, inl, inr, Bool,
  true, ◌||◌, ◌&&◌, Option, none, some, [], ◌∷◌, ◌++◌, ◌==◌, leb, if◌then◌else◌, length,
  length-replicate, replicate, length-set, eq_of, ne_of, ==_ne, get_elem?, set, get_elem?-set,
  get_elem?-set_ne, Bool-cases,
}
use ymir_project.Host.{
  M, pure, ℤ, pos, negsuc, is_negative, Text, text, World, Trace, open_path, close_fd, read_int,
  value_read, fault,
}
use ymir_project.Host.Laws.{Post, Post-bind, Post-map, Returns, opened, closed}
use ymir_project.Uuid.{
  hex_digits, rem_16, hex_digit, random_digit, is_dash, char_at, set_dashes, fill, generate,
}

abbrev pub is_hex : ℕ → Bool
is_hex c = leb 48 c && leb c 57 || leb 97 c && leb c 102

-- What may stand at position i: a dash, the version, or a digit.
abbrev pub allowed : ℕ → ℕ → Bool
allowed i c = if is_dash i then c == 45 else if i == 14 then c == 52 else is_hex c

-- 36 positions, of which those before `n` are filled.
abbrev pub Filled : ℕ → Text → Type 0
Filled n t =
    (length t ≡ 36)
    × ((j : ℕ) → j < n → j < 36 → (c : ℕ) × (get_elem? t j ≡ some c) × (allowed j c ≡ true))

-- One more position is filled, and the others stay so.
Filled-set :
    (n i c : ℕ) (t : Text)
    → Filled n t
    → i < 36
    → allowed i c ≡ true
    → (m : ℕ) → m ≤ n ⊎ (m ≡ suc n) × (i ≡ n)
    → Filled m (set t i c)
Filled-set n i c t f lt ok m which = (
  length-set t i c ∙ f.0,
  λ j jm j36. elim (Bool-cases (j == i)) [
    | inl y ↦
        let e : i ≡ j = sym (eq_of j i y) in
        (
          c,
          subst (λ k. get_elem? (set t i c) k ≡ some c) e
              (get_elem?-set t i c (omega (arith, f.0))),
          subst (λ k. allowed k c ≡ true) e ok,
        )
    | inr z ↦
        let old = f.1 j (before j jm (ne_of j i z) which) j36 in
        (old.0, get_elem?-set_ne t i j c (ne_of j i z) ∙ old.1, old.2)
  ],
)
  where
    before : (j : ℕ) → j < m → j ≢ i → m ≤ n ⊎ (m ≡ suc n) × (i ≡ n) → j < n
    before j jm ne (inl le) = omega arith
    before j jm ne (inr e) = elim (Bool-cases (j == n)) [
      | inl y ↦ absurd (ne (eq_of j n y ∙ sym e.1))
      | inr z ↦ ground (arith, e.0, ne_of j n z)
    ]

AllHex : Text → Type 0
AllHex [] = Unit {0}
AllHex (x ∷ xs) = (is_hex x ≡ true) × AllHex xs

hex_at :
    (xs ys : Text) (k : ℕ)
    → AllHex xs
    → k < length xs
    → (c : ℕ) × (get_elem? (xs ++ ys) k ≡ some c) × (is_hex c ≡ true)
unfolding AllHex
hex_at [] ys k h lt = absurd (omega arith)
hex_at (x ∷ xs) ys zero h lt = (x, refl, h.0)
hex_at (x ∷ xs) ys (suc k) h lt = hex_at xs ys k h.1 (omega arith)

digit_of : (n : ℕ) → (c : ℕ) × (get_elem? hex_digits (n % 16) ≡ some c) × (is_hex c ≡ true)
unfolding hex_digits text AllHex
digit_of n =
    hex_at (text "0123456789abcdef") (0 ∷ []) (n % 16)
      (
        refl,
        (
          refl,
          (
            refl,
            (
              refl,
              (
                refl,
                (
                  refl,
                  (
                    refl,
                    (refl, (refl, (refl, (refl, (refl, (refl, (refl, (refl, (refl, tt))))))))),
                  ),
                ),
              ),
            ),
          ),
        ),
      )
      (omega arith)

-- The digit of a random number that is not negative is one of the digits; for a negative number that
-- is no multiple of 16 the digits are read before their start.
pub hex_digit-rem_16 :
    (n : ℕ) (w : World) (tr : Trace)
    → Returns (λ c u. (is_hex c ≡ true) × (u ≡ tr)) (hex_digit (rem_16 (pos n)) w tr)
      × ((suc n % 16 ≢ 0) → hex_digit (rem_16 (negsuc n)) w tr ≡ fault tr)
unfolding hex_digit rem_16
hex_digit-rem_16 n w tr =
    let c = digit_of n in (rw (hex_digit, c.1) (c.2, refl), λ ne. rw (==_ne (suc n % 16) 0 ne) refl)

hex_digit-Post :
    (z : ℤ) (w : World) (tr : Trace)
    → Post (λ c u. (is_hex c ≡ true) × (u ≡ tr)) (hex_digit (rem_16 z) w tr)
unfolding hex_digit rem_16
hex_digit-Post (pos n) w tr = let c = digit_of n in rw (hex_digit, c.1) (c.2, refl)
hex_digit-Post (negsuc n) w tr = elim (Bool-cases (suc n % 16 == 0)) [
  | inl y ↦ rw (rem_16, y) (let c = digit_of 0 in rw (hex_digit, c.1) (c.2, refl))
  | inr z ↦ rw (rem_16, z) tt
]

-- As many descriptors were closed as opened, the same and in this order.
abbrev pub Even : Trace → Type 0
Even tr = opened tr ≡ closed tr

abbrev Fits : (ℕ → Bool) → Option ℕ → Type 0
Fits p none = Unit {0}
Fits p (some c) = p c ≡ true

Fits-ext : (p q : ℕ → Bool) (o : Option ℕ) → ((c : ℕ) → p c ≡ q c) → Fits p o → Fits q o
Fits-ext p q none e f = tt
Fits-ext p q (some c) e f = sym (e c) ∙ f

random_digit-Post :
    (w : World) (tr : Trace) → Even tr → Post (λ o u. Fits is_hex o × Even u) (random_digit w tr)
unfolding random_digit
random_digit-Post w tr even =
    let o = open_path (text "/dev/random") (text "r") in
    let fd = w tr o in
    let t : Trace = (o, fd) ∷ tr in
    let r = w t (read_int fd.number) in
    let u : Trace = (read_int fd.number, r) ∷ t in
    let n = w u (value_read fd.number) in
    let v : Trace = (value_read fd.number, n) ∷ u in
    let c = close_fd fd.number in
    let x : Trace = (c, w v c) ∷ v in
    elim (Bool-cases (is_negative fd.number)) [
      | inl y ↦
          let none_opened : opened t ≡ opened tr = rw y refl in
          rw (random_digit, y) (tt, none_opened ∙ even)
      | inr opens ↦
          let both : (fd.number ∷ opened tr) ≡ (fd.number ∷ closed tr) = ap (◌∷◌ fd.number) even in
          let after_open : opened t ≡ fd.number ∷ opened tr = rw opens refl in
          elim (Bool-cases (is_negative r.number)) [
            | inl y ↦ rw (random_digit, opens, y) (tt, after_open ∙ both)
            | inr reads ↦
                rw (random_digit, opens, reads)
                  (Post-bind _ _ w (hex_digit (rem_16 n.number) w x) _ (hex_digit-Post n.number w x)
                    (λ d tr' k. (k.0, subst Even (sym k.1) (after_open ∙ both))))
          ]
    ]

char_at-Post :
    (i : ℕ) (w : World) (tr : Trace)
    → Even tr
    → Post (λ o u. Fits (allowed i) o × Even u) (char_at i w tr)
unfolding char_at
char_at-Post i w tr even = elim (Bool-cases (is_dash i)) [
  | inl y ↦ let ok : allowed i 45 ≡ true = rw y refl in rw (char_at, y) (ok, even)
  | inr n ↦ elim (Bool-cases (i == 14)) [
    | inl y ↦ let ok : allowed i 52 ≡ true = rw (n, y) refl in rw (char_at, n, y) (ok, even)
    | inr z ↦
        let same : (c : ℕ) → allowed i c ≡ is_hex c = λ c. rw (n, z) refl in
        rw (char_at, n, z)
          (Post-map _ _ (random_digit w tr) (random_digit-Post w tr even)
            (λ o u k. (Fits-ext is_hex (allowed i) o (λ c. sym (same c)) k.0, k.1)))
  ]
]

set_dashes-Filled : (t : Text) → Filled 36 t → Filled 36 (set_dashes t)
unfolding set_dashes is_dash
set_dashes-Filled t f =
    let at : (i : ℕ)
        → (u : Text) → Filled 36 u
        → i < 36
        → allowed i 45 ≡ true
        → Filled 36 (set u i 45) =
      λ i u g lt ok. Filled-set 36 i 45 u g lt ok 36 (inl (omega arith)) in
    let a = at 23 t f (omega arith) refl in
    let b = at 18 (set t 23 45) a (omega arith) refl in
    let c = at 13 (set (set t 23 45) 18 45) b (omega arith) refl in
    at 8 (set (set (set t 23 45) 18 45) 13 45) c (omega arith) refl

-- The loop ends with no text, or goes on with the character.
when_read :
    (p : ℕ → Bool) (P : Text → Trace → Type 0) (o : Option ℕ) (k : ℕ → M Text) (w : World)
    (u : Trace)
    → Fits p o
    → P [] u
    → ((c : ℕ) → p c ≡ true → Post P (k c w u))
    → Post P ((elim o as (λ _. M Text) [ none ↦ pure [] | some c ↦ k c ]) w u)
when_read p P none k w u f stop next = stop
when_read p P (some c) k w u f stop next = next c f

fill-Post :
    (left i : ℕ) (t : Text) (w : World) (tr : Trace)
    → left + i ≡ 36
    → Filled i t
    → Even tr
    → Post (λ r u. ((r ≡ []) ⊎ Filled 36 r) × Even u) (fill left i t w tr)
unfolding fill
fill-Post zero i t w tr e f even =
    (inr (set_dashes-Filled t (subst (λ k. Filled k t) (omega arith) f)), even)
fill-Post (suc left) i t w tr e f even =
    Post-bind _ _ w (char_at i w tr) _ (char_at-Post i w tr even) (λ o u k.
      when_read (allowed i) (λ r v. ((r ≡ []) ⊎ Filled 36 r) × Even v) o
        (λ c. fill left (suc i) (set t i c)) w u k.0 (inl refl, k.1)
        (λ c ok.
          fill-Post left (suc i) (set t i c) w u (omega arith)
            (Filled-set i i c t f (omega arith) ok (suc i) (inr (refl, refl))) k.1))

-- What generate returns is empty, or has 36 positions with a dash at 8, 13, 18 and 23, a 4 at 14, and a
-- digit in lower case everywhere else; and every descriptor that it opened has been closed.
pub generate-Filled :
    (w : World) (tr : Trace)
    → opened tr ≡ closed tr
    → Post (λ r u. ((r ≡ []) ⊎ Filled 36 r) × (opened u ≡ closed u)) (generate w tr)
unfolding generate
generate-Filled w tr even =
    fill-Post 36 0 (replicate 36 0) w tr (omega arith)
      (length-replicate {0} {A = ℕ} 36 0, λ j lt j36. absurd (omega arith)) even
