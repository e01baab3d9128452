-- ===== src/Amx/Entry.antt =====
-- main of src/backend/amx/main.cpp over the calls of the Ambiorix runtime.
pub mod Starts
use ymir_project.Base.{ℕ, Bool, true, false, not, List, [], ◌∷◌, ◌++◌, if◌then◌else◌}
use ymir_project.Host.{
  ℤ, pos, is_zero, Text, text, M, ◌>>=◌, ◌>>◌, pure, number, holds, perform, when_, runtime,
  register_function, event_loop, delete_object,
}
use ymir_project.Container.{◌then_if_ok◌}

-- The names of actions_list, events_list and functions_list.
unfoldable pub actions_list : List Text
actions_list =
    text "action_read_ee_status"
    ∷ text "action_read_ee_Reset"
    ∷ text "action_read_ee_CurrentRunLevel"
    ∷ text "action_read_ee_AvailableDiskSpace"
    ∷ text "action_read_ee_AvailableMemory"
    ∷ text "action_read_ee_ActiveExecutionUnits"
    ∷ []

unfoldable pub events_list : List Text
events_list =
    text "execution_unit_manage"
    ∷ text "deployment_unit_manage"
    ∷ text "app_start"
    ∷ text "print_event"
    ∷ text "exec_env_changed"
    ∷ text "exec_env_uninstalled"
    ∷ text "deployment_unit_changed"
    ∷ text "deployment_unit_uninstalled"
    ∷ text "exec_unit_changed"
    ∷ []

unfoldable pub functions_list : List Text
functions_list = text "odl_function_exec_env_add" ∷ text "odl_function_deployment_unit_add" ∷ []

-- add_callbacks: the first name that is refused ends a list. What stands in retval afterwards is
-- written over by main before it is read.
unfoldable pub add_callbacks : List Text → M (Unit {0})
add_callbacks [] = pure tt
add_callbacks (name ∷ names) = do
  retval ← number (register_function name)
  if is_zero retval then add_callbacks names else pure tt

-- A step of main that returns when it is refused.
abbrev pub call : Text → M ℤ
call function = number (runtime function)

-- The last part: the event loop, until it is stopped.
unfoldable pub serve : M ℤ
serve = perform event_loop >> pure (pos 0)

unfoldable pub connected : M ℤ
connected = do
  signals ← holds (runtime (text "GET_ARG system-signals"))
  when_ signals (perform (runtime (text "amxrt_enable_syssigs")))
  call (text "amxrt_el_create") then_if_ok (call (text "amxrt_register_or_wait") then_if_ok serve)

unfoldable pub loaded : M ℤ
loaded = do
  perform (runtime (text "amxo_parser_add_entry_point"))
  call (text "amxrt_connect") then_if_ok connected

unfoldable pub configured : M ℤ
configured = do
  add_callbacks actions_list
  add_callbacks events_list
  add_callbacks functions_list
  call (text "amxrt_load_odl_files") then_if_ok loaded

-- main. Its return ends the shared pointers to the runtime's objects, which delete them, and then
-- the runtime.
unfoldable pub main : M ℤ
main = do
  perform (runtime (text "amxrt_new"))
  perform (runtime (text "amxrt_get_config"))
  perform (runtime (text "amxrt_get_dm"))
  perform (runtime (text "amxrt_get_parser"))
  retval ← call (text "amxrt_config_init") then_if_ok configured
  perform (delete_object (text "parser"))
  perform (delete_object (text "dm"))
  perform (delete_object (text "config"))
  perform (runtime (text "amxrt_stop"))
  perform (runtime (text "amxrt_delete"))
  pure retval
