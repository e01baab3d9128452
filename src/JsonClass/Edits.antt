-- ===== src/JsonClass/Edits.antt =====
-- The parts of JsonValue in liblxcd/json.cpp that take away, that look at the type, and the accessors
-- that may change the value.
pub mod Lookups
use ymir_project.Base.{ℕ, zero, suc, Bool, true, false, Option, none, some, if◌then◌else◌}
use ymir_project.Buffer.{◌>>=◌}
use ymir_project.Host.{Text, text}
use ymir_project.StringClass.{text_eq, text_lt}
use ymir_project.JsonClass.{
  JsonValue, null_value, object, array, string, number, boolean, Values, nil, cons, Members, end,
  member, set_member, find_member, find_value,
}

unfoldable pub is_null : JsonValue → Bool
is_null null_value = true
is_null _ = false

unfoldable pub is_object : JsonValue → Bool
is_object (object ms) = true
is_object _ = false

unfoldable pub is_array : JsonValue → Bool
is_array (array vs) = true
is_array _ = false

unfoldable pub is_string : JsonValue → Bool
is_string (string s) = true
is_string _ = false

unfoldable pub is_number : JsonValue → Bool
is_number (number t) = true
is_number _ = false

unfoldable pub is_boolean : JsonValue → Bool
is_boolean (boolean b) = true
is_boolean _ = false

-- asObject and asArray; what has another type gives the empty ones.
unfoldable pub as_object : JsonValue → Members
as_object (object ms) = ms
as_object _ = end

unfoldable pub as_array : JsonValue → Values
as_array (array vs) = vs
as_array _ = nil

-- arr_.erase(arr_.begin() + index), which remove(size_t) calls for an index that is there.
unfoldable pub erase_value : ℕ → Values → Values
erase_value i nil = nil
erase_value zero (cons v vs) = vs
erase_value (suc i) (cons v vs) = cons v (erase_value i vs)

unfoldable pub remove_index : ℕ → JsonValue → JsonValue
remove_index i (array vs) = array (erase_value i vs)
remove_index i o = o

-- obj_.erase(key): behind the last entry the map reads a null value, which is a fault.
unfoldable pub erase_member : Text → Members → Option Members
erase_member k end = none
erase_member k (member l w ms) =
    let rest = erase_member k ms >>= (λ r. some (member l w r)) in
    if text_lt l k then rest else if text_eq l k then some ms else some (member l w ms)

-- remove(const string&)
unfoldable pub remove_key : Text → JsonValue → Option JsonValue
remove_key k (object ms) = erase_member k ms >>= λ r. some (object r)
remove_key k o = some o

-- The operator[] that can be assigned through: the value afterwards, and the member that the
-- reference is to. None is the null value that all callers share.
unfoldable pub key_reference : Text → JsonValue → JsonValue × Option JsonValue
key_reference k (object ms) = elim (find_member k ms) [
  | none ↦ (object (set_member k null_value ms), none)
  | some v ↦ (object ms, if is_null v then none else some v)
]
key_reference k o = (o, none)

unfoldable pub index_reference : ℕ → JsonValue → Option JsonValue
index_reference i (array vs) = find_value i vs
index_reference i o = none

-- serializeBoolean and serializeNull
unfoldable pub serialize_boolean : Bool → Text
serialize_boolean value = if value then text "true" else text "false"

unfoldable pub serialize_null : Text
serialize_null = text "null"
