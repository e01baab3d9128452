-- ===== src/JsonClass/Edits/Lookups.antt =====
-- What a lookup finds after a removal, and after the accessor that inserts.
use ymir_project.Base.{
  ◌≡◌, refl, sym, ap, subst, inl, inr, true, false, none, some, Bool-cases, Option-cases,
}
use mathlib.Core.Option.{some-injective}
use ymir_project.Buffer.{◌>>=◌}
use ymir_project.Host.{Text}
use ymir_project.StringClass.{text_eq, text_lt}
use ymir_project.StringClass.Compare.{text_eq-eq}
use ymir_project.MapClass.Texts.{text_lt_irrefl, text_lt_trans, text_lt_total}
use ymir_project.JsonClass.{
  JsonValue, null_value, object, Members, end, member, set_member, find_member, get_key,
}
use ymir_project.JsonClass.Access.{find_member-set_member}
use ymir_project.JsonClass.Edits.{erase_member, remove_key, key_reference}

-- The keys are in the order of the map.
abbrev pub After : Text → Members → Type 0
After k end = Unit {0}
After k (member l w ms) = (text_lt k l ≡ true) × After k ms

abbrev pub Ordered : Members → Type 0
Ordered end = Unit {0}
Ordered (member l w ms) = After l ms × Ordered ms

differs : (k l : Text) → text_lt k l ≡ true → text_eq l k ≡ false
differs k l lt = elim (Bool-cases (text_eq l k)) [
  | inr n ↦ n
  | inl y ↦ absurd (cc (lt, text_lt_irrefl k, ap (λ x. text_lt k x) (text_eq-eq l k y)))
]

less_differs : (l k : Text) → text_lt l k ≡ true → text_eq l k ≡ false
less_differs l k lt = elim (Bool-cases (text_eq l k)) [
  | inr n ↦ n
  | inl y ↦ absurd (cc (lt, text_lt_irrefl k, ap (λ x. text_lt x k) (text_eq-eq l k y)))
]

After-lower : (k l : Text) (ms : Members) → text_lt k l ≡ true → After l ms → After k ms
After-lower k l end lt a = tt
After-lower k l (member m w ms) lt a = (text_lt_trans k l m lt a.0, After-lower k l ms lt a.1)

find_member-After : (k : Text) (ms : Members) → After k ms → find_member k ms ≡ none
unfolding find_member
find_member-After k end a = refl
find_member-After k (member l w ms) a = rw (differs k l a.0) (find_member-After k ms a.1)

-- A member that is erased is not found, and the others are found as before.
abbrev Erased : Text → Members → Members → Type 0
Erased k ms r =
    (find_member k r ≡ none)
    × ((l : Text) → text_eq k l ≡ false → find_member l r ≡ find_member l ms)

erase_member-Erased :
    (k : Text) (ms r : Members) → Ordered ms → erase_member k ms ≡ some r → Erased k ms r
unfolding erase_member find_member
erase_member-Erased k end r o e = cc
erase_member-Erased k (member l w ms) r o e = elim (Bool-cases (text_lt l k)) [
  | inl lt ↦ elim (Option-cases (erase_member k ms)) [
    | inl n ↦ cc (rw (lt, n) at e)
    | inr there ↦
        let ih = erase_member-Erased k ms there.0 o.1 there.1 in
        let f : member l w there.0 ≡ r = some-injective _ r (rw (lt, there.1) at e) in
        let apart : text_eq l k ≡ false = less_differs l k lt in
        subst (Erased k (member l w ms)) f (
          rw apart ih.0,
          λ m ne. elim (Bool-cases (text_eq l m)) [ inl y ↦ rw y refl | inr z ↦ rw z (ih.1 m ne) ],
        )
  ]
  | inr ge ↦ elim (Bool-cases (text_eq l k)) [
    | inl y ↦
        let f : ms ≡ r = some-injective ms r (rw (ge, y) at e) in
        let same : l ≡ k = text_eq-eq l k y in
        subst (Erased k (member l w ms)) f (
          find_member-After k ms (subst (λ z. After z ms) same o.0),
          λ m ne.
              let other : text_eq l m ≡ false = subst (λ z. text_eq z m ≡ false) (sym same) ne in
              rw other refl,
        )
    | inr n ↦
        let f : member l w ms ≡ r = some-injective _ r (rw (ge, n) at e) in
        let less : text_lt k l ≡ true = text_lt_total l k ge n in
        subst (Erased k (member l w ms)) f
          (find_member-After k (member l w ms) (less, After-lower k l ms less o.0), λ m ne. refl)
  ]
]

-- A member that is there is erased without a fault.
erase_member-found :
    (k : Text) (ms : Members) (v : JsonValue)
    → find_member k ms ≡ some v
    → (r : Members) × (erase_member k ms ≡ some r)
unfolding erase_member find_member
erase_member-found k end v e = cc
erase_member-found k (member l w ms) v e = elim (Bool-cases (text_lt l k)) [
  | inl lt ↦
      let rest = erase_member-found k ms v (rw (less_differs l k lt) at e) in
      (member l w rest.0, rw (erase_member, lt, rest.1) refl)
  | inr ge ↦ elim (Bool-cases (text_eq l k)) [
    | inl y ↦ (ms, rw (erase_member, ge, y) refl)
    | inr n ↦ (member l w ms, rw (erase_member, ge, n) refl)
  ]
]

-- remove of a key that an object has, in the order of its map, is no fault; the key is null
-- afterwards, and every other key has what it had.
pub get_key-remove_key :
    (k : Text) (ms : Members) (v : JsonValue)
    → Ordered ms
    → find_member k ms ≡ some v
    → (o : JsonValue) × (remove_key k (object ms) ≡ some o)
      × (get_key k o ≡ null_value)
      × ((l : Text) → text_eq k l ≡ false → get_key l o ≡ get_key l (object ms))
unfolding remove_key get_key
get_key-remove_key k ms v ordered e =
    let r = erase_member-found k ms v e in
    let kept = erase_member-Erased k ms r.0 ordered r.1 in
    (
      object r.0,
      ap (λ o. o >>= (λ r. some (object r))) r.1,
      rw (get_key, kept.0) refl,
      λ l ne. rw (get_key, kept.1 l ne) refl,
    )

-- Reading a key that an object does not have through the accessor that can be assigned through gives
-- the null value that all callers share, and adds the key to the object.
pub key_reference-missing :
    (k : Text) (ms : Members)
    → find_member k ms ≡ none
    → (key_reference k (object ms) ≡ (object (set_member k null_value ms), none))
      × (find_member k (set_member k null_value ms) ≡ some null_value)
unfolding key_reference
key_reference-missing k ms e = (rw (key_reference, e) refl, find_member-set_member k null_value ms)
