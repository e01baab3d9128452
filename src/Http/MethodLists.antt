-- ===== src/Http/MethodLists.antt =====
-- The handlers of one path, by their methods.
use ymir_project.Base.{
  ◌≡◌, ◌≢◌, refl, sym, ap, subst, ◌∙◌, inl, inr, true, false, Option, none, some, [], ◌∷◌,
  if◌then◌else◌, Bool-cases,
}
use ymir_project.Host.{Text}
use ymir_project.StringClass.{text_eq, text_lt}
use ymir_project.StringClass.Compare.{text_eq_self, text_eq-eq}
use ymir_project.MapClass.AssocList.{with_entry, lookup}
use ymir_project.MapClass.Texts.{text_order, text_lt_irrefl, text_lt_trans, text_lt_total}
use ymir_project.Http.{Handler, Methods}

-- The first handler stays.
abbrev pub or_else : Option Handler → Handler → Handler
or_else none h = h
or_else (some g) h = g

abbrev pub Above : Text → Methods → Type 0
Above k [] = Unit {0}
Above k (x ∷ xs) = (text_lt k x.key ≡ true) × Above k xs

-- The methods of a path, in the order of the map.
abbrev pub Ascending : Methods → Type 0
Ascending [] = Unit {0}
Ascending (x ∷ xs) = Above x.key xs × Ascending xs

pub text_ne : (a b : Text) → a ≢ b → text_eq a b ≡ false
text_ne a b ne = elim (Bool-cases (text_eq a b)) [
  | inl y ↦ absurd (ne (text_eq-eq a b y))
  | inr n ↦ n
]

pub text_lt-ne : (a b : Text) → text_lt a b ≡ true → a ≢ b
text_lt-ne a b lt e = cc (lt, text_lt_irrefl b, ap (λ z. text_lt z b) e)

pub lookup-Above : (k : Text) (ms : Methods) → Above k ms → lookup text_order k ms ≡ none
unfolding lookup
lookup-Above k [] a = refl
lookup-Above k (x ∷ xs) a =
    rw (text_ne x.key k (λ e. text_lt-ne k x.key a.0 (sym e))) (lookup-Above k xs a.1)

pub Above-lower : (a b : Text) (ms : Methods) → text_lt a b ≡ true → Above b ms → Above a ms
Above-lower a b [] lt ab = tt
Above-lower a b (x ∷ xs) lt ab = (text_lt_trans a b x.key lt ab.0, Above-lower a b xs lt ab.1)

pub lookup-with_entry :
    (k m : Text) (h : Handler) (ms : Methods)
    → Ascending ms
    → lookup text_order k (with_entry text_order (record { key = m; value = h }) ms)
      ≡ (if text_eq m k then some (or_else (lookup text_order k ms) h) else lookup text_order k ms)
unfolding lookup with_entry
lookup-with_entry k m h [] s = refl
lookup-with_entry k m h (x ∷ xs) s = elim (Bool-cases (text_lt x.key m)) [
  | inl lt ↦ rw lt (elim (Bool-cases (text_eq x.key k)) [
    | inl y ↦
        let ne : text_eq m k ≡ false =
          text_ne m k (λ e. text_lt-ne x.key m lt (text_eq-eq x.key k y ∙ sym e)) in
        rw (y, ne) refl
    | inr n ↦ rw n (lookup-with_entry k m h xs s.1)
  ])
  | inr ge ↦ rw ge (elim (Bool-cases (text_eq x.key m)) [
    | inl y ↦ rw y (elim (Bool-cases (text_eq m k)) [
      | inr n ↦ rw n refl
      | inl e ↦
          let z : text_eq x.key k ≡ true =
            subst (λ w. text_eq x.key w ≡ true) (text_eq-eq x.key m y ∙ text_eq-eq m k e)
              (text_eq_self x.key) in
          rw (e, z) refl
    ])
    | inr n ↦ rw n (elim (Bool-cases (text_eq m k)) [
      | inr o ↦ rw o refl
      | inl e ↦
          let less : text_lt k x.key ≡ true =
            subst (λ w. text_lt w x.key ≡ true) (text_eq-eq m k e) (text_lt_total x.key m ge n) in
          rw
            (
              e,
              text_ne x.key k (λ z. text_lt-ne k x.key less (sym z)),
              lookup-Above k xs (Above-lower k x.key xs less s.0),
            )
            refl
    ])
  ])
]
