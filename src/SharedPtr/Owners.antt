-- ===== src/SharedPtr/Owners.antt =====
-- How many variables own a counter.
use ymir_project.Base.{
  arith, ℕ, zero, suc, ◌+◌, ◌≤◌, ◌≡◌, ap, inl, inr, Option, none, some, List, [], ◌∷◌, ◌==◌,
  if◌then◌else◌, length, get_elem?, set, Bool-cases,
}
use mathlib.Core.Option.{some-injective}
use ymir_project.SharedPtr.{SharedPtr}

abbrev pub points : ℕ → Option ℕ → ℕ
points c none = 0
points c (some d) = if d == c then 1 else 0

-- How often the pointer counts for the counter `c`: once or never.
abbrev pub own : ℕ → SharedPtr → ℕ
own c p = points c p.count

abbrev pub owners : ℕ → List SharedPtr → ℕ
owners c [] = 0
owners c (p ∷ ps) = own c p + owners c ps

pub points_below : (c : ℕ) (o : Option ℕ) → points c o ≤ 1
points_below c none = omega arith
points_below c (some d) = elim (Bool-cases (d == c)) [
  | inl y ↦ rw y (omega arith)
  | inr n ↦ rw n (omega arith)
]

pub owners-below : (c : ℕ) (ps : List SharedPtr) → owners c ps ≤ length ps
owners-below c [] = omega arith
owners-below c (p ∷ ps) = omega (arith, points_below c p.count, owners-below c ps)

-- Replacing a variable moves its share.
pub owners-set :
    (c : ℕ) (ps : List SharedPtr) (i : ℕ) (p q : SharedPtr)
    → get_elem? ps i ≡ some p
    → owners c (set ps i q) + own c p ≡ owners c ps + own c q
owners-set c [] i p q e = cc
owners-set c (r ∷ ps) zero p q e =
    let same : own c r ≡ own c p = ap (own c) (some-injective r p e) in omega arith
owners-set c (r ∷ ps) (suc i) p q e = omega (arith, owners-set c ps i p q e)

-- The variable is among the owners.
pub own-owners :
    (c : ℕ) (ps : List SharedPtr) (i : ℕ) (p : SharedPtr)
    → get_elem? ps i ≡ some p
    → own c p ≤ owners c ps
own-owners c [] i p e = cc
own-owners c (r ∷ ps) zero p e =
    let same : own c r ≡ own c p = ap (own c) (some-injective r p e) in omega arith
own-owners c (r ∷ ps) (suc i) p e = omega (arith, own-owners c ps i p e)
