-- ===== src/Http.antt =====
-- RestApiListener of src/backend/uhttpd/httphandler.cpp: the routes of the HTTP front end, and how a
-- request finds its handler. A text is the list of its bytes; libmicrohttpd is the caller.
pub mod Matching
pub mod MethodLists
pub mod Routes
pub mod Body
pub mod Replies
use ymir_project.Base.{
  ℕ, zero, suc, ◌+◌, Bool, true, false, ◌&&◌, ◌||◌, Option, none, some, List, [], ◌∷◌, ◌++◌, map,
  ◌==◌, if◌then◌else◌, length, replicate,
}
use ymir_project.Buffer.{Block, cstr, strncpy, fresh}
use ymir_project.Host.{ℤ, Text, text, M, ◌>>=◌, pure}
use ymir_project.StringClass.{text_eq, text_lt}
use ymir_project.StringClass.Split.{tokens}
use ymir_project.Units.{is_nil}
use ymir_project.MapClass.{Pair}
use ymir_project.MapClass.AssocList.{with_entry, lookup}
use ymir_project.MapClass.Texts.{text_order}

-- replace_double_slashes, with prev_is_slash.
unfoldable pub squeeze : Bool → Text → Text
squeeze prev [] = []
squeeze prev (c ∷ t) =
    let dropped = squeeze prev t in
    let slash = c ∷ squeeze true t in
    let other = c ∷ squeeze false t in if c == 47 then (if prev then dropped else slash) else other

unfoldable pub replace_double_slashes : Text → Text
replace_double_slashes t = squeeze false t

unfoldable pub are_paths_equal : Text → Text → Bool
are_paths_equal path1 path2 = text_eq (replace_double_slashes path1) (replace_double_slashes path2)

-- The loop of is_match_match_regex. What stands behind its continue and its return is never reached,
-- so no parameter is ever stored.
unfoldable pub match_parts : List Text → List Text → Bool
match_parts [] [] = true
match_parts [] (r ∷ rs) = false
match_parts (p ∷ ps) [] = false
match_parts (p ∷ ps) (r ∷ rs) =
    let rest = match_parts ps rs in if is_nil p && is_nil r then rest else false

-- is_match_match_regex
unfoldable pub is_match : Text → Text → Bool
is_match path request =
    let path_parts = tokens 47 path in
    let request_parts = tokens 47 request in
    if are_paths_equal path request
    then true
    else if length path_parts == length request_parts
    then match_parts path_parts request_parts
    else false

-- handler_t: the status and the reply for a request body. The parameters are always empty.
abbrev pub Handler : Type 0
Handler = Text → M (ℤ × Text)

abbrev pub Methods : Type 0
Methods = List (Pair Text Handler)

-- handlers_, a map of maps.
abbrev pub Routes : Type 0
Routes = List (Pair Text Methods)

-- The loop of register_handler: the methods of the path get the handler, if the path is there.
unfoldable pub add_to_path : Text → Text → Handler → Routes → Option Routes
add_to_path path method h [] = none
add_to_path path method h (r ∷ rs) =
    let rest = add_to_path path method h rs in
    if text_eq r.key path
    then some (
        record {
          key = r.key;
          value = with_entry text_order (record { key = method; value = h }) r.value;
        }
        ∷ rs)
    else elim rest [ none ↦ none | some rs' ↦ some (r ∷ rs') ]

-- register_handler
unfoldable pub register_handler : Text → Text → Handler → Routes → Routes
register_handler path method h rs = elim (add_to_path path method h rs) [
  | some rs' ↦ rs'
  | none ↦
      with_entry text_order
        (record {
          key = path;
          value = with_entry text_order (record { key = method; value = h }) [];
        })
        rs
]

-- The loop of dispatch_handler over the paths, in the order of the map.
unfoldable pub find_path : Text → Routes → Option Methods
find_path path [] = none
find_path path (r ∷ rs) =
    let rest = find_path path rs in if is_match r.key path then some r.value else rest

-- The handler that a request reaches.
unfoldable pub route_of : Routes → Text → Text → Option Handler
route_of rs path method = elim (find_path path rs) [
  | none ↦ none
  | some ms ↦ lookup text_order method ms
]

-- dispatch_handler on a connection, when the body has come: no answer is MHD_NO.
unfoldable pub dispatch : Routes → Text → Text → Text → M (Option (ℤ × Text))
dispatch rs path method body = elim (route_of rs path method) [
  | none ↦ pure none
  | some h ↦ h body >>= λ r. pure (some r)
]

-- The static buffer of dispatch_handler, as `new char[500]` makes it.
unfoldable pub new_buffer : Block
new_buffer = fresh 500

-- strncpy(buffer, upload_data, *upload_data_size), where the upload has as many bytes.
unfoldable pub store_upload : Text → Block → Option Block
store_upload upload buffer = strncpy buffer (map some upload) (length upload)

-- lxcd::string request_body = buffer
unfoldable pub request_body : Block → Option Text
request_body buffer = cstr buffer
