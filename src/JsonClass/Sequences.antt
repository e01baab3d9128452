-- ===== src/JsonClass/Sequences.antt =====
-- The members and the values that JsonParser has collected.
use ymir_project.Base.{ℕ, suc, ◌+◌, ◌≡◌, refl, ap, true}
use ymir_project.Host.{Text}
use ymir_project.StringClass.{text_lt}
use ymir_project.JsonClass.{
  JsonValue, null_value, object, array, string, number, boolean, Values, nil, cons, Members, end,
  member, set_member, push_value,
}

-- Keys in the order of the map: each is behind `k`.
abbrev pub Behind : Text → Members → Type 0
Behind k end = Unit {0}
Behind k (member l w ms) = (text_lt k l ≡ true) × Behind k ms

abbrev pub join : Members → Members → Members
join end ns = ns
join (member k v ms) ns = member k v (join ms ns)

abbrev pub append_values : Values → Values → Values
append_values nil ws = ws
append_values (cons v vs) ws = cons v (append_values vs ws)

pub join_end : (ms : Members) → join ms end ≡ ms
join_end end = refl
join_end (member k v ms) = ap (member k v) (join_end ms)

pub join_assoc : (ls ms ns : Members) → join (join ls ms) ns ≡ join ls (join ms ns)
join_assoc end ms ns = refl
join_assoc (member k v ls) ms ns = ap (member k v) (join_assoc ls ms ns)

pub append_values_nil : (vs : Values) → append_values vs nil ≡ vs
append_values_nil nil = refl
append_values_nil (cons v vs) = ap (cons v) (append_values_nil vs)

pub append_values_assoc :
    (us vs ws : Values)
    → append_values (append_values us vs) ws ≡ append_values us (append_values vs ws)
append_values_assoc nil vs ws = refl
append_values_assoc (cons u us) vs ws = ap (cons u) (append_values_assoc us vs ws)

pub push_value_lem : (vs : Values) (v : JsonValue) → push_value vs v ≡ append_values vs (cons v nil)
unfolding push_value
push_value_lem nil v = refl
push_value_lem (cons w vs) v = ap (cons w) (push_value_lem vs v)

-- All keys so far are smaller than `k`.
abbrev pub Before : Members → Text → Type 0
Before end k = Unit {0}
Before (member l w ms) k = (text_lt l k ≡ true) × Before ms k

abbrev pub Ahead : Members → Members → Type 0
Ahead acc end = Unit {0}
Ahead acc (member k v ms) = Before acc k × Ahead acc ms

pub set_member-last :
    (k : Text) (v : JsonValue) (acc : Members)
    → Before acc k
    → set_member k v acc ≡ join acc (member k v end)
unfolding set_member
set_member-last k v end b = refl
set_member-last k v (member l w acc) b = rw b.0 (ap (member l w) (set_member-last k v acc b.1))

pub Before-join :
    (acc : Members) (k l : Text) (v : JsonValue)
    → Before acc l
    → text_lt k l ≡ true
    → Before (join acc (member k v end)) l
Before-join end k l v b lt = (lt, tt)
Before-join (member m w acc) k l v b lt = (b.0, Before-join acc k l v b.1 lt)

pub Ahead-join :
    (acc : Members) (k : Text) (v : JsonValue) (ms : Members)
    → Ahead acc ms
    → Behind k ms
    → Ahead (join acc (member k v end)) ms
Ahead-join acc k v end a b = tt
Ahead-join acc k v (member l w ms) a b =
    (Before-join acc k l v a.0 b.0, Ahead-join acc k v ms a.1 b.1)

pub Ahead-end : (ms : Members) → Ahead end ms
Ahead-end end = tt
Ahead-end (member k v ms) = (tt, Ahead-end ms)

-- The fuel that a value needs.
abbrev mutual
  pub size : JsonValue → ℕ
  size null_value = 1
  size (object ms) = suc (size_members ms)
  size (array vs) = suc (size_values vs)
  size (string s) = 1
  size (number t) = 1
  size (boolean b) = 1

  pub size_members : Members → ℕ
  size_members end = 1
  size_members (member k v ms) = suc (size v + size_members ms)

  pub size_values : Values → ℕ
  size_values nil = 1
  size_values (cons v vs) = suc (size v + size_values vs)
