-- ===== src/Http/Replies.antt =====
-- The handlers of src/backend/uhttpd/main.cpp, and the routes that it registers. `print` is
-- json_object_to_json_string_ext, and a request's json-c value is object 0.
pub mod Answers
pub mod Server
use ymir_project.Base.{
  ℕ, zero, suc, ◌+◌, Bool, true, false, not, Option, none, some, List, [], ◌∷◌, ◌++◌, if◌then◌else◌,
}
use ymir_project.Host.{
  ℤ, pos, negsuc, is_minus_one, Text, text, M, ◌>>=◌, ◌>>◌, pure, ask, number, holds, perform,
  string_of, exit_failure, null_read, text_or_null, cstring_of, json_parse, json_string,
  uname_query, get_pid, list_containers, container_state, container_pid, lxc_put,
}
use ymir_project.Container.{
  LxcContainer, enable, destroy, idle, new_container, set_action, set_template, run, release,
}
use ymir_project.Units.Cache.{
  Json, j_null, j_string, j_number, j_bool, j_array, j_object, Elements, elements, members, Fields,
  no_field, field,
}
use ymir_project.Http.{Handler, Routes, register_handler}

-- json_object_new_string on a literal, and an object and an array built from their parts.
abbrev pub j_text : Text → Json
j_text t = j_string t

abbrev pub fields : List (Text × Json) → Fields
fields [] = no_field
fields ((k, j) ∷ fs) = field k j (fields fs)

abbrev pub object : List (Text × Json) → Json
object fs = j_object (fields fs)

abbrev pub array : List Json → Json
array js = j_array (elements js)

-- json_object_array_add asserts that it adds to an array.
unfoldable pub array_add : Json → Json → M Json
array_add (j_array es) j = pure (j_array (elements (members es ++ j ∷ [])))
array_add _ j = exit_failure

unfoldable pub ok : ℤ
ok = pos 200

-- What supported_api_versions and the handlers of execution environments put in front.
unfoldable pub api_versions : Json
api_versions = array (j_text (text "/1.0") ∷ [])

-- The reply of an execution environment that was created or removed, and of a body that is no JSON.
unfoldable pub sync_reply : (status : Text) → (code : ℤ) → Json
sync_reply status code = object (
    (text "metadata", api_versions)
    ∷ (text "type", j_text (text "sync"))
    ∷ (text "status", j_text status)
    ∷ (text "status_code", j_number code)
    ∷ [])

-- The object of the container that execenv_ls lists as the i-th.
unfoldable pub container_entry : ℕ → Text → Text → ℤ → Json
container_entry i name state pid = object (
    (text "id", j_number (pos i))
    ∷ (text "name", j_text name)
    ∷ (text "type", j_text (text "busybox"))
    ∷ (text "status", j_text state)
    ∷ (text "pid", j_number pid)
    ∷ [])

-- Its loop, from the i-th container on, when `left` are left and `names` are their names.
unfoldable pub list_from : (left i : ℕ) → (names : List Text) → M (List Json)
list_from zero i names = pure []
list_from (suc left) i [] = null_read
list_from (suc left) i (name ∷ names) = do
  state ← string_of (container_state name)
  pid ← number (container_pid name)
  perform (lxc_put name)
  rest ← list_from left (suc i) names
  pure (container_entry i name state pid ∷ rest)

-- A negative count runs the loop no time.
abbrev pub times : ℤ → ℕ
times (pos n) = n
times (negsuc n) = 0

module _ (print : Json → Text) where
  unfoldable pub supported_api_versions : Handler
  supported_api_versions body = pure (
    ok,
    print (
        object (
          (text "metadata", api_versions)
          ∷ (text "status", j_text (text "Success"))
          ∷ (text "status_code", j_number (pos 200))
          ∷ (text "type", j_text (text "sync"))
          ∷ [])),
  )

  module _ (device : ℤ → Text) (refresh : Text → M Bool) where
    -- The run of a container and the reply: what the run answers is not looked at.
    unfoldable pub carry_out : LxcContainer → M (ℤ × Text)
    carry_out s = do
      run device refresh s
      release s
      pure (ok, print (sync_reply (text "Success") (pos 200)))

    -- execenv_create: json-c gives null for what is not a string, and a name is read from it.
    unfoldable pub execenv_create : Handler
    execenv_create body = do
      parsed ← holds (json_parse body)
      if not parsed
          then pure (pos 204, print (sync_reply (text "Failed to parse JSON file.") (pos 500)))
          else (do
            n ← ask (json_string 0 (text "name"))
            t ← ask (json_string 0 (text "type"))
            name ← text_or_null n.string
            s ← new_container name (text "busyboxv2") idle
            type ← text_or_null t.string
            carry_out (set_template type (set_action enable s)))

    -- execenv_rm
    unfoldable pub execenv_rm : Handler
    execenv_rm body = do
      holds (json_parse body)
      name ← cstring_of (json_string 0 (text "name"))
      s ← new_container name (text "busyboxv2") idle
      carry_out (set_action destroy s)

  -- execenv_ls, for what list_all_containers answers.
  unfoldable pub list_reply : ℤ → List Text → M (ℤ × Text)
  list_reply rc names = if is_minus_one rc then pure (ok, print (object [])) else (do
    cs ← list_from (times rc) 0 names
    pure (
      ok,
      print
          (object ((text "containers", array cs) ∷ (text "numberOfContainers", j_number rc) ∷ [])),
    ))

  unfoldable pub execenv_ls : Handler
  execenv_ls body = ask list_containers >>= λ a. list_reply a.number a.texts

  -- execenv_update, deployementunit_delete and the handlers of execution units: the names are added
  -- to an object.
  unfoldable pub execenv_update : Handler
  execenv_update body = do
    m ← array_add (object []) (j_text (text "etag"))
    metadata ← array_add m (j_text (text "patch"))
    pure (ok, print (object ((text "metadata", metadata) ∷ [])))
