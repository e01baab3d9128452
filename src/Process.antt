-- ===== src/Process.antt =====
-- Process and CProcess of include_priv/utils/linux.h: commands of the host, and commands that are run
-- inside a container.
pub mod Running
use ymir_project.Base.{
  ℕ, zero, suc, Bool, true, false, not, ◌&&◌, Option, none, some, List, [], ◌∷◌, ltb, if◌then◌else◌,
  length,
}
use ymir_project.StringClass.Split.{tokens}
use ymir_project.Host.{
  ℤ, pos, is_negative, is_zero, is_positive, Text, M, ◌>>=◌, ◌>>◌, pure, number, holds, perform,
  system_cmd, lxc_container_new, lxc_is_running, attach_command, attached_pid, wait_pid, kill_pid,
  create_thread, callback, when_,
}

-- Process::run
unfoldable pub run_process : (cmd : Text) → M ℤ
run_process cmd = number (system_cmd cmd)

-- What a CProcess holds, with the four values that its shared pointers own.
pub record CProcess : Type 0 where
  pub container_name : Text
  pub process_running : Bool
  pub pid : ℤ
  pub exit_code : ℤ
  pub output : Text

-- CProcess::CProcess
unfoldable pub new_process : (container_name : Text) → CProcess
new_process container_name = record {
  container_name = container_name;
  process_running = false;
  pid = pos 0;
  exit_code = pos 0;
  output = [];
}

-- setContainer
unfoldable pub set_container : Text → CProcess → CProcess
set_container name s = record s { container_name = name }

-- The arguments that executeCommandInContainer hands to attach.
unfoldable pub argv : Text → List Text
argv command = let parts = tokens 32 command in if ltb 1 (length parts) then parts else command ∷ []

-- The exit status is stored if the process exited.
unfoldable pub store_status : ℤ → CProcess → CProcess
store_status status s = if is_negative status then s else record s { exit_code = status }

-- executeCommandInContainer: what attach answers is only printed.
unfoldable pub execute_command : Text → CProcess → M CProcess
execute_command command s = do
  perform (attach_command s.container_name (argv command))
  p ← number (attached_pid s.pid)
  status ← number (wait_pid p)
  pure (store_status status (record s { pid = p }))

-- runCommand
unfoldable pub run_command : Text → CProcess → M CProcess
run_command command s = do
  allocated ← holds (lxc_container_new s.container_name)
  if allocated
      then (do
        running ← holds (lxc_is_running s.container_name)
        if running then execute_command command s else pure (record s { process_running = false }))
      else pure (record s { process_running = false })

-- CProcess::run
unfoldable pub run : Text → CProcess → M CProcess
run command s = do
  t ← run_command command (record s { process_running = true })
  pure (record t { process_running = false })

-- CProcess::runAsync: whether a thread was started, which runs the helper below.
unfoldable pub run_async : Text → CProcess → M (CProcess × Bool)
run_async command s = do
  r ← number (create_thread command)
  if is_zero r
      then pure (record s { process_running = true }, true)
      else pure (record s { process_running = false }, false)

-- runCommandHelper, the body of the thread.
unfoldable pub run_command_helper : Text → CProcess → M CProcess
run_command_helper command s = do
  t ← run_command command s
  perform (callback t.exit_code t.output)
  pure t

-- CProcess::stop, which the destructor calls.
unfoldable pub stop : CProcess → M CProcess
stop s = do
  when_ (is_positive s.pid) (perform (kill_pid s.pid) >> perform (wait_pid s.pid))
  pure (record s { process_running = false })
