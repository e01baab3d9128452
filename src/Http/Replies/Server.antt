-- ===== src/Http/Replies/Server.antt =====
-- get_server_environment of src/backend/uhttpd/main.cpp, and main's table of routes.
use ymir_project.Base.{Bool, true, false, Option, none, some, List, [], ◌∷◌, if◌then◌else◌}
use ymir_project.Host.{
  ℤ, pos, is_minus_one, Text, text, M, ◌>>=◌, pure, ask, number, uname_query, get_pid,
}
use ymir_project.Units.Cache.{Json, j_string, j_number, j_bool}
use ymir_project.Http.{Handler, Routes, register_handler}
use ymir_project.Http.Replies.{
  object, array, ok, supported_api_versions, execenv_create, execenv_ls, execenv_rm, execenv_update,
}

-- struct utsname
pub record SystemInfo : Type 0 where
  pub sysname : Text
  pub nodename : Text
  pub release : Text
  pub machine : Text

abbrev pub system_info : List Text → SystemInfo
system_info (s ∷ n ∷ r ∷ m ∷ _) = record { sysname = s; nodename = n; release = r; machine = m }
system_info _ = record { sysname = []; nodename = []; release = []; machine = [] }

-- The objects that get_server_environment builds.
pub record ServerObjects : Type 0 where
  pub root : Json
  pub metadata : Json
  pub config : Json
  pub environment : Json

unfoldable pub server_metadata : Json
server_metadata = object (
    (
      text "api_extensions",
      array (
          j_string (text "etag")
          ∷ j_string (text "patch")
          ∷ j_string (text "network")
          ∷ j_string (text "storage")
          ∷ []),
    )
    ∷ (text "api_status", j_string (text "stable"))
    ∷ (text "api_version", j_string (text "1.0"))
    ∷ (text "auth", j_string (text "untrusted"))
    ∷ [])

unfoldable pub server_config : Json
server_config = object (
    (text "core.https_address", j_string (text ":8443"))
    ∷ (text "core.trust_password", j_bool true)
    ∷ [])

-- What is added to lxc_features, before and after it is added to the environment.
unfoldable pub lxc_features : SystemInfo → ℤ → Json
lxc_features sys pid = object (
    (text "cgroup2", j_string (text "true"))
    ∷ (text "devpts_fd", j_string (text "true"))
    ∷ (text "pidfd", j_string (text "true"))
    ∷ (text "os_name", j_string (text "Ubuntu"))
    ∷ (text "os_version", j_string (text "22.04"))
    ∷ (text "project", j_string (text "default"))
    ∷ (text "server", j_string (text "lxcd"))
    ∷ (text "server_clustered", j_bool false)
    ∷ (text "server_name", j_string sys.nodename)
    ∷ (text "server_pid", j_number pid)
    ∷ (text "server_version", j_string (text "1.0"))
    ∷ [])

unfoldable pub server_environment : SystemInfo → ℤ → Json
server_environment sys pid = object (
    (text "addresses", array (j_string (text ":8443") ∷ []))
    ∷ (text "architectures", array (j_string sys.machine ∷ []))
    ∷ (text "certificate", j_string (text "X509 PEM certificate"))
    ∷ (
      text "certificate_fingerprint",
      j_string (text "fd200419b271f1dc2a5591b693cc5774b7f234e1ff8c6b78ad703b6888fe2b69"),
    )
    ∷ (text "driver", j_string (text "lxc"))
    ∷ (text "driver_version", j_string (text "4.0.7 | 5.2.0"))
    ∷ (text "firewall", j_string (text "nftables"))
    ∷ (text "kernel", j_string sys.sysname)
    ∷ (text "kernel_architecture", j_string sys.machine)
    ∷ (
      text "kernel_features",
      object (
          (text "netnsid_getifaddrs", j_string (text "true"))
          ∷ (text "seccomp_listener", j_string (text "true"))
          ∷ []),
    )
    ∷ (text "kernel_version", j_string sys.release)
    ∷ (text "lxc_features", lxc_features sys pid)
    ∷ (text "storage", j_string (text "dir | overlay"))
    ∷ [])

-- None when uname fails.
unfoldable pub server_objects : M (Option ServerObjects)
server_objects = do
  a ← ask uname_query
  if is_minus_one a.number then pure none else (do
    pid ← number get_pid
    pure (
        some (record {
          root = object [];
          metadata = server_metadata;
          config = server_config;
          environment = server_environment (system_info a.texts) pid;
        })))

-- get_server_environment: the reply is the root, to which nothing is added; without an answer of
-- uname there is none, and 1 is the status.
unfoldable pub get_server_environment : (print : Json → Text) → Handler
get_server_environment print body =
    server_objects >>= λ o. elim o [ none ↦ pure (pos 1, []) | some s ↦ pure (ok, print s.root) ]

-- The calls of register_handler in main, on the map of a new listener. The handlers that create and
-- list deployment units call functions that the repository does not have.
unfoldable pub registered :
    (print : Json → Text) (device : ℤ → Text) (refresh : Text → M Bool)
    (deployementunit_create deployementunit_ls : Handler)
    → Routes
registered print device refresh deployementunit_create deployementunit_ls =
    let root = register_handler (text "/") (text "GET") (supported_api_versions print) [] in
    let server = register_handler (text "/2.0/") (text "GET") (get_server_environment print) root in
    let env = text "/2.0/execenv" in
    let env_post =
      register_handler env (text "POST") (execenv_create print device refresh) server in
    let env_get = register_handler env (text "GET") (execenv_ls print) env_post in
    let env_delete =
      register_handler env (text "DELETE") (execenv_rm print device refresh) env_get in
    let env_update = register_handler env (text "UPDATE") (execenv_update print) env_delete in
    let unit = text "/2.0/deployementunit" in
    let unit_post = register_handler unit (text "POST") deployementunit_create env_update in
    let unit_get = register_handler unit (text "GET") deployementunit_ls unit_post in
    register_handler unit (text "DELETE") (execenv_update print) unit_get
