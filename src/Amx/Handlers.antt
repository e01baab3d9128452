-- ===== src/Amx/Handlers.antt =====
-- The calls and read actions of src/backend/amx/amxhandler.cpp, and its handlers of deployment units.
use ymir_project.Base.{
  ℕ, Bool, true, not, ◌||◌, Option, none, some, List, [], ◌∷◌, ◌++◌, if◌then◌else◌, leb,
}
use ymir_project.Container.{new_container, release, is_running, idle}
use ymir_project.Units.{is_nil, Service, DeploymentUnit}
use ymir_project.Units.Cache.{Json, Conversions}
use ymir_project.Units.Helper.{load_cache, add_deployment_unit, remove_deployment_unit}
use ymir_project.Amx.{process_exec_env, state_text}
use ymir_project.Host.{
  ℤ, pos, negsuc, is_zero, Text, text, M, ◌>>=◌, ◌>>◌, pure, ask, number, perform, cstring_of,
  get_param, set_param, set_flag, set_number, get_child, add_instance, emit_add, get_arg,
  read_param, new_uuid,
}

-- amxd_status_t, as far as the handlers name it; `read_failed` is what a failing read answers.
pub data Status : Type 0 where
  ok parameter_not_found object_not_found unknown_error function_not_implemented read_failed :
      Status

-- An object pointer in an answer: null, or the object of that number.
abbrev pub object_of : ℤ → Option ℕ
object_of (pos n) = if leb n 0 then none else some n
object_of (negsuc n) = none

-- allocatedStorage <= 10
abbrev pub too_small : ℤ → Bool
too_small (pos n) = leb n 10
too_small (negsuc n) = true

-- Finds a child and adds an instance to it; the answer says which of the two failed.
unfoldable pub new_instance : ℕ → Text → M (Status × ℕ)
new_instance object key = do
  child ← number (get_child object key)
  elim (object_of child) [
    | none ↦ pure (object_not_found, 0)
    | some p ↦ (do
      instance_ ← number (add_instance p)
      elim (object_of instance_) [ none ↦ pure (unknown_error, 0) | some o ↦ pure (ok, o) ])
  ]

module _ (device : ℤ → Text) (refresh : Text → M Bool) where
  -- The end of odlFunctionExecEnvAdd, on the new instance.
  unfoldable pub set_up_exec_env : Text → Text → ℤ → Status × ℕ → M Status
  set_up_exec_env name type_ storage (ok, o) = do
    perform (set_param o (text "Name") name)
    perform (set_param o (text "Type") type_)
    perform (set_number o (text "AllocatedDiskSpace") storage)
    perform (set_flag o (text "Enable") true)
    perform (emit_add o)
    process_exec_env device refresh (some o)
    pure ok
  set_up_exec_env name type_ storage (e, o) = pure e

  -- odlFunctionExecEnvAdd
  unfoldable pub exec_env_add : ℕ → M Status
  exec_env_add object = do
    name ← cstring_of (get_arg (text "name"))
    type_ ← cstring_of (get_arg (text "type"))
    storage ← number (get_arg (text "storage"))
    if is_nil name || is_nil type_ || too_small storage
        then pure parameter_not_found
        else (new_instance object (text "ExecEnv") >>= set_up_exec_env name type_ storage)

-- odlActionReadEeStatus, behind the checks of its arguments: the status and the value.
unfoldable pub read_ee_status : Bool → Bool → Option Text → M (Status × Option Text)
read_ee_status reads param name =
    if not reads
    then pure (function_not_implemented, none)
    else if not param
    then pure (parameter_not_found, none)
    else (do
      done ← number read_param
      if not (is_zero done) then pure (read_failed, none) else elim name [
        | none ↦ pure (parameter_not_found, none)
        | some n ↦ (do
          c ← new_container n (text "busyboxv2") idle
          up ← is_running c
          release c
          pure (ok, some (if up then text "UP" else text "Disabled")))
      ])

-- odlActionReadEeAvailablediskspace
unfoldable pub read_ee_disk_space : Bool → Bool → M Status
read_ee_disk_space reads present =
    if not reads
    then pure function_not_implemented
    else if not present
    then pure parameter_not_found
    else (do
      done ← number read_param
      if not (is_zero done)
          then pure read_failed
          else (ask (get_arg (text "parameters.Name")) >>= λ a. elim a.string [
            | none ↦ pure parameter_not_found
            | some n ↦ pure ok
          ]))

module _ (print : List Json → Text) (parse : Text → Option (List Json))
    (conversions : Conversions) where
  -- odlDeploymentUnitUninstalled
  unfoldable pub deployment_unit_uninstalled : M (Unit {0})
  deployment_unit_uninstalled = do
    uuid ← cstring_of (get_arg (text "parameters.UUID"))
    if is_nil uuid then pure tt else (do
      us ← load_cache print parse conversions
      remove_deployment_unit print parse uuid us
      pure tt)

  -- The fields that both handlers write for an added unit, behind the name.
  unfoldable pub write_unit : ℕ → Text → Text → DeploymentUnit → M (Unit {0})
  write_unit o url env du = do
    perform (set_flag o (text "Resolved") true)
    perform (set_param o (text "URL") url)
    perform (set_param o (text "Description") du.description)
    perform (set_param o (text "Vendor") du.vendor)
    perform (set_number o (text "Version") du.version)
    perform (set_param o (text "ExecutionEnvRef") env)

  -- processDeploymentUnitObject
  unfoldable pub process_deployment_unit : Option ℕ → M (Unit {0})
  process_deployment_unit none = pure tt
  process_deployment_unit (some o) = do
    url ← cstring_of (get_param o (text "URL"))
    uuid ← cstring_of (get_param o (text "UUID"))
    env ← cstring_of (get_param o (text "ExecutionEnvRef"))
    if is_nil url || is_nil env || not (is_nil uuid) then pure tt else (do
      perform (set_param o (text "Status") (text "Installing"))
      us ← load_cache print parse conversions
      uuid ← cstring_of new_uuid
      (us', du) ← add_deployment_unit print parse env url uuid us
      perform (set_param o (text "UUID") uuid)
      perform (set_param o (text "DUID") ((env ++ text "-") ++ uuid))
      perform (set_param o (text "Name") du.name)
      write_unit o url env du
      perform (
          set_param o (text "Status")
            (if is_nil du.name then text "Uninstalled" else text "Installed")))

  -- The loop of odlFunctionDeploymentUnitAdd over the services of the unit.
  unfoldable pub set_up_service : Text → DeploymentUnit → Service → Status × ℕ → M Status
  set_up_service env du s (ok, o) = do
    perform (set_param o (text "Name") s.name)
    perform (set_param o (text "ExecEnvLabel") env)
    perform (set_param o (text "EUID") ((env ++ text "-") ++ du.uuid))
    perform (set_param o (text "X_LXCD-COM_exec") s.exec)
    perform (set_flag o (text "AutoStart") s.autostart)
    perform (set_param o (text "RequestedState") (state_text s.autostart))
    perform (emit_add o)
    pure ok
  set_up_service env du s (e, o) = pure e

  unfoldable pub add_services : ℕ → Text → DeploymentUnit → List Service → M Status
  add_services object env du [] = pure ok
  add_services object env du (s ∷ ss) = do
    status ← (new_instance object (text "ExecutionUnit") >>= set_up_service env du s)
    elim status [ ok ↦ add_services object env du ss | e ↦ pure e ]

  -- The end of odlFunctionDeploymentUnitAdd, on the new instance.
  unfoldable pub set_up_unit : ℕ → Text → Text → Text → DeploymentUnit → Status × ℕ → M Status
  set_up_unit object url env uuid du (ok, o) = do
    perform (set_param o (text "UUID") uuid)
    perform (set_param o (text "DUID") ((env ++ text "-") ++ uuid))
    perform (set_param o (text "Name") du.name)
    perform (set_param o (text "Status") (text "Installed"))
    write_unit o url env du
    perform (emit_add o)
    add_services object env du du.executionunits
  set_up_unit object url env uuid du (e, o) = pure e

  -- odlFunctionDeploymentUnitAdd, for an object and arguments that are not null.
  unfoldable pub deployment_unit_add : ℕ → M Status
  deployment_unit_add object = do
    url ← cstring_of (get_arg (text "du_url"))
    env ← cstring_of (get_arg (text "ee_name"))
    uuid ← cstring_of new_uuid
    if is_nil url || is_nil env then pure parameter_not_found else (do
      us ← load_cache print parse conversions
      (us', du) ← add_deployment_unit print parse env url uuid us
      if is_nil du.name
          then pure unknown_error
          else (new_instance object (text "DeploymentUnit") >>= set_up_unit object url env uuid du))
