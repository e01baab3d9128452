-- ===== src/JsonClass/Access.antt =====
-- What set stores in a JsonValue, operator[] finds.
use ymir_project.Base.{◌≡◌, refl, ap, inl, inr, some, Bool-cases}
use ymir_project.Host.{Text}
use ymir_project.StringClass.{text_eq, text_lt}
use ymir_project.StringClass.Compare.{text_eq-eq, text_eq_self}
use ymir_project.MapClass.Texts.{text_lt_irrefl}
use ymir_project.JsonClass.{
  JsonValue, object, Members, end, member, set_member, find_member, set_key, get_key,
}

pub find_member-set_member :
    (k : Text) (v : JsonValue) (ms : Members) → find_member k (set_member k v ms) ≡ some v
unfolding find_member set_member
find_member-set_member k v end = rw (text_eq_self k) refl
find_member-set_member k v (member l w ms) = elim (Bool-cases (text_eq l k)) [
  | inl y ↦ elim (Bool-cases (text_lt l k)) [
    | inl lt ↦ absurd (cc (lt, text_lt_irrefl k, ap (λ x. text_lt x k) (text_eq-eq l k y)))
    | inr n ↦ rw (n, y, y) refl
  ]
  | inr d ↦ elim (Bool-cases (text_lt l k)) [
    | inl lt ↦ rw (lt, d) (find_member-set_member k v ms)
    | inr n ↦ rw (n, d, text_eq_self k) refl
  ]
]

-- Behind set on an object, operator[] with the same key answers the value, whatever the object held.
pub get_key-set_key :
    (k : Text) (v : JsonValue) (ms : Members) → get_key k (set_key k v (object ms)) ≡ v
unfolding get_key set_key
get_key-set_key k v ms = rw (get_key, find_member-set_member k v ms) refl
