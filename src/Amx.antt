-- ===== src/Amx.antt =====
-- The handlers of src/backend/amx/amxhandler.cpp: what the daemon does on the signals and calls of
-- its data model, over LxcContainer and DeploymentUnitHelper. Objects are numbers; a null object is
-- `none`.
pub mod Handlers
pub mod Status
pub mod Entry
pub mod Arguments
use ymir_project.Base.{
  ℕ, zero, suc, ◌+◌, ◌-◌, ◌*◌, ◌%◌, ◌^◌, Bool, true, false, not, ◌&&◌, ◌||◌, Option, none, some,
  List, [], ◌∷◌, ◌++◌, ◌==◌, ltb, leb, if◌then◌else◌,
}
use ymir_project.StringClass.{text_eq}
use ymir_project.Container.{
  LxcContainer, enable, disable, idle, destroy, new_container, release, set_template,
  set_storage_space, set_action, run, is_running, to_int32,
}
use ymir_project.Units.{is_nil}
use ymir_project.Host.{
  ℤ, pos, negsuc, is_zero, Text, text, M, ◌>>=◌, ◌>>◌, pure, ask, number, holds, perform,
  cstring_of, null_read, when_, get_param, get_flag, set_param, get_arg, start_thread, stop_process,
  process_running,
}

-- enum class EventType; a number that is none of its values is `other`.
pub data EventType : Type 0 where
  unknown app_start container_stop container_start other : EventType

unfoldable pub event_of : ℤ → EventType
event_of (pos n) =
    if n == 0
    then unknown
    else if n == 1
    then app_start
    else if n == 2
    then container_stop
    else if n == 3
    then container_start
    else other
event_of (negsuc n) = other

-- string::stoi on the bytes behind the sign; the sum wraps around at 32 bits.
unfoldable pub digits_loop : ℕ → Text → ℕ
digits_loop res [] = res
digits_loop res (c ∷ t) =
    let more = digits_loop ((res * 10 + (c - 48)) % 2 ^ 32) t in
    if leb 48 c && leb c 57 then more else res

unfoldable pub stoi : Text → ℤ
stoi [] = pos 0
stoi (c ∷ t) =
    if c == b'-'
    then to_int32 (2 ^ 32 - digits_loop 0 t)
    else if c == b'+'
    then to_int32 (digits_loop 0 t)
    else to_int32 (digits_loop 0 (c ∷ t))

-- processMap: the services, each with the container that it was first seen in.
abbrev pub Processes : Type 0
Processes = List (Text × Text)

-- retrieveOrInitializeProcess
unfoldable pub retrieve_or_initialize : Text → Text → Processes → Processes
retrieve_or_initialize service env [] = (service, env) ∷ []
retrieve_or_initialize service env ((s, e) ∷ ps) =
    let rest = retrieve_or_initialize service env ps in
    if text_eq s service then (s, e) ∷ ps else (s, e) ∷ rest

-- The branches of processExecutionUnitObject on the requested state.
unfoldable pub drive : Text → Text → Text → M (Unit {0})
drive service state command =
    if text_eq state (text "Active")
    then (do
      running ← holds (process_running service)
      when_ (not running) (perform (start_thread service command)))
    else if text_eq state (text "Idle")
    then (do
      running ← holds (process_running service)
      when_ running (perform (stop_process service)))
    else pure tt

abbrev pub state_text : Bool → Text
state_text true = text "Active"
state_text false = text "Idle"

-- The end of processExecutionUnitObject.
unfoldable pub report_state : ℕ → Text → M (Unit {0})
report_state unit service = do
  running ← holds (process_running service)
  perform (set_param unit (text "Status") (state_text running))

-- processExecutionUnitObject
unfoldable pub process_execution_unit : Option ℕ → Processes → M Processes
process_execution_unit none ps = pure ps
process_execution_unit (some unit) ps = do
  service ← cstring_of (get_param unit (text "Name"))
  env ← cstring_of (get_param unit (text "ExecEnvLabel"))
  state ← cstring_of (get_param unit (text "RequestedState"))
  command ← cstring_of (get_param unit (text "X_LXCD-COM_exec"))
  if is_nil service || is_nil env then pure ps else (do
    drive service state command
    report_state unit service
    pure (retrieve_or_initialize service env ps))

-- The cases ContainerStop and ContainerStart, by the state that they request.
unfoldable pub request_if_named : ℕ → Text → M Bool
request_if_named unit state = do
  container ← cstring_of (get_arg (text "Name"))
  env ← cstring_of (get_param unit (text "ExecEnvLabel"))
  if text_eq container env
      then (do perform (set_param unit (text "RequestedState") state); pure true)
      else pure false

-- The switch of helperEuLoopEnable: whether the unit is to be processed.
unfoldable pub request_state : ℕ → EventType → M Bool
request_state unit app_start = do
  auto ← holds (get_flag unit (text "AutoStart"))
  when_ auto (perform (set_param unit (text "RequestedState") (text "Active")))
  pure true
request_state unit container_stop = request_if_named unit (text "Idle")
request_state unit container_start = request_if_named unit (text "Active")
request_state unit unknown = pure true
request_state unit other = pure true

-- helperEuLoopEnable; the arguments are null or carry an event.
unfoldable pub eu_loop_enable : Option ℕ → Option EventType → Processes → M Processes
eu_loop_enable none event ps = pure ps
eu_loop_enable (some unit) none ps = pure ps
eu_loop_enable (some unit) (some event) ps = do
  go ← request_state unit event
  if go then process_execution_unit (some unit) ps else pure ps

-- The walk of ExecutionUnitManage over the units that the data model lists.
unfoldable pub execution_unit_manage : List ℕ → Option EventType → Processes → M Processes
execution_unit_manage [] event ps = pure ps
execution_unit_manage (unit ∷ units) event ps = do
  ps ← eu_loop_enable (some unit) event ps
  execution_unit_manage units event ps

abbrev pub status_text : Bool → Bool → Text
status_text false enabled = text "Error"
status_text true true = text "Up"
status_text true false = text "Disabled"

-- The container of processExecEnvObject, as it is configured before it runs.
unfoldable pub configured : Text → Text → Bool → LxcContainer → LxcContainer
configured template storage enabled c =
    set_action (if enabled then enable else disable)
      (set_storage_space (stoi storage) (set_template template c))

module _ (device : ℤ → Text) (refresh : Text → M Bool) where
  -- The end of processExecEnvObject: the container is run and the outcome becomes the status.
  unfoldable pub run_and_report : ℕ → Bool → LxcContainer → M (Unit {0})
  run_and_report object enabled c = run device refresh c >>= λ r.
      perform (set_param object (text "Status") (status_text (is_zero r) enabled))

  unfoldable pub run_configured : ℕ → Bool → Text → Text → LxcContainer → M (Unit {0})
  run_configured object enabled template storage c =
      run_and_report object enabled (configured template storage enabled c) >> release c

  -- processExecEnvObject, which the signal handlers odlExecEnvChanged and ExecEnvManage call too.
  unfoldable pub process_exec_env : Option ℕ → M (Unit {0})
  process_exec_env none = pure tt
  process_exec_env (some object) = do
    name ← cstring_of (get_param object (text "Name"))
    enabled ← holds (get_flag object (text "Enable"))
    template ← cstring_of (get_param object (text "Type"))
    storage ← cstring_of (get_param object (text "AllocatedDiskSpace"))
    if is_nil name || is_nil template then pure tt else (do
      perform (set_param object (text "Status") (text "Working"))
      new_container name (text "busyboxv2") idle >>= run_configured object enabled template storage)

  -- The walk of ExecEnvManage.
  unfoldable pub exec_env_manage : List ℕ → M (Unit {0})
  exec_env_manage [] = pure tt
  exec_env_manage (object ∷ objects) = process_exec_env (some object) >> exec_env_manage objects

  -- odlExecEnvUninstalled
  unfoldable pub exec_env_uninstalled : M (Unit {0})
  exec_env_uninstalled = ask (get_arg (text "parameters.Name")) >>= λ a. elim a.string [
    | none ↦ pure tt
    | some name ↦ (do
      c ← new_container name (text "busyboxv2") idle
      run device refresh (set_action destroy c)
      release c
      pure tt)
  ]
