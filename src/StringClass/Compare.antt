-- ===== src/StringClass/Compare.antt =====
-- The comparisons of liblxcd/string.cpp, and operator=(const char*).
use ymir_project.Base.{
  ℕ, ◌+◌, ◌≡◌, ◌≢◌, refl, ap, subst, true, false, some, List, [], ◌∷◌, arith, ◌↔◌, inl, inr,
  Bool-cases, ◌==◌, ==_self, if◌then◌else◌, ltb, length,
}
use ymir_project.Buffer.{Block, fresh, cstr}
use ymir_project.Buffer.Laws.{NoNul, length-fresh, cstr-terminated, strcpy_room}
use ymir_project.StringClass.{CxxString, text_eq, eq, eq_cstr, assign_cstr}
use ymir_project.StringClass.Represents.{Represents, Yields, cstr-data_}
use ymir_project.StringClass.Slices.{length-data_}

pub text_eq-eq : (t u : List ℕ) → text_eq t u ≡ true → t ≡ u
unfolding text_eq
text_eq-eq [] [] h = refl
text_eq-eq [] (d ∷ u) h = cc
text_eq-eq (c ∷ t) [] h = cc
text_eq-eq (c ∷ t) (d ∷ u) h = ground (arith, text_eq-eq t u)

pub text_eq_self : (t : List ℕ) → text_eq t t ≡ true
unfolding text_eq
text_eq_self [] = refl
text_eq_self (c ∷ t) = rw (==_self c) (text_eq_self t)

pub text_eq-length : (t u : List ℕ) → length t ≢ length u → text_eq t u ≡ false
text_eq-length t u ne = elim (Bool-cases (text_eq t u)) [
  | inl same ↦ absurd (ne (ap length (text_eq-eq t u same)))
  | inr other ↦ other
]

-- operator== does not fault on objects that stand for texts, and answers whether the texts are
-- equal.
pub eq_iff :
    (a b : CxxString) (t u : List ℕ)
    → Represents a t
    → Represents b u
    → (eq a b ≡ some (text_eq t u)) × ((text_eq t u ≡ true) ↔ (t ≡ u))
unfolding eq eq_cstr
eq_iff a b t u r q =
    (answer, (text_eq-eq t u, λ e. subst (λ v. text_eq t v ≡ true) e (text_eq_self t)))
  where
    answer : eq a b ≡ some (text_eq t u)
    answer = elim (Bool-cases (a.size_ == b.size_)) [
      | inl same ↦ rw (same, cstr-data_ r, cstr-data_ q) refl
      | inr other ↦ rw (other, text_eq-length t u (ground (arith, r.sized, q.sized))) refl
    ]

-- operator=(const char*) copies the text, but records the longer of the two lengths: an
-- assignment of a shorter text leaves the old length.
pub assign_cstr_lem :
    (s : CxxString) (t u : List ℕ) (str : Block)
    → Represents s t
    → NoNul u
    → cstr str ≡ some u
    → Yields
        (λ r.
          (cstr r.data_ ≡ some u)
          × (r.size_ ≡ (if ltb (length t) (length u) then length u else length t)))
        (assign_cstr s str)
unfolding assign_cstr
assign_cstr_lem s t u str r clean e =
    rw (e, r.sized)
      (elim (Bool-cases (ltb (length t) (length u))) [
        | inl grows ↦
            rw
              (
                grows,
                strcpy_room u (fresh (length u + 1)) str e
                    (omega (arith, length-fresh (length u + 1))),
              )
              (cstr-terminated u _ clean, refl)
        | inr fits ↦
            rw (fits, strcpy_room u s.data_ str e (ground (arith, length-data_ r)))
              (cstr-terminated u _ clean, refl)
      ])
