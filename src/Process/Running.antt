-- ===== src/Process/Running.antt =====
-- What a CProcess runs, what it signals, and what it then says of itself.
use ymir_project.Base.{
  ◌≡◌, refl, sym, subst, ap, ◌∙◌, inl, inr, Bool, true, false, not, ◌&&◌, List, [], ◌∷◌, ◌++◌,
  if◌then◌else◌, Bool-cases,
}
use ymir_project.Host.{
  ℤ, is_negative, is_zero, is_positive, Text, Call, Trace, World, ◌>>=◌, lxc_container_new,
  lxc_is_running, attach_command, attached_pid, wait_pid, kill_pid, callback,
}
use ymir_project.Host.Laws.{Returns, Returns-bind}
use ymir_project.Process.{
  CProcess, argv, store_status, execute_command, run_command, run, run_command_helper, stop,
}

abbrev pub attached_by : Call → List (Text × List Text)
attached_by (attach_command name args) = (name, args) ∷ []
attached_by _ = []

-- The commands that were attached to a container, newest first.
abbrev pub attached : Trace → List (Text × List Text)
attached [] = []
attached ((c, a) ∷ tr) = attached_by c ++ attached tr

abbrev pub signalled_by : Call → List ℤ
signalled_by (kill_pid p) = p ∷ []
signalled_by _ = []

-- The processes that were sent SIGTERM, newest first.
abbrev pub signalled : Trace → List ℤ
signalled [] = []
signalled ((c, a) ∷ tr) = signalled_by c ++ signalled tr

abbrev pub waited_by : Call → List ℤ
waited_by (wait_pid p) = p ∷ []
waited_by _ = []

-- The processes that were waited for, newest first.
abbrev pub waited : Trace → List ℤ
waited [] = []
waited ((c, a) ∷ tr) = waited_by c ++ waited tr

abbrev pub called_back_by : Call → List (ℤ × Text)
called_back_by (callback code output) = (code, output) ∷ []
called_back_by _ = []

-- What the callbacks got, newest first.
abbrev pub called_back : Trace → List (ℤ × Text)
called_back [] = []
called_back ((c, a) ∷ tr) = called_back_by c ++ called_back tr

-- liblxc gives the container out, and then answers that it is running.
abbrev pub found_up : World → Trace → Text → Bool
found_up w tr name =
    let a = w tr (lxc_container_new name) in
    let b = w ((lxc_container_new name, a) ∷ tr) (lxc_is_running name) in
    not (is_zero a.number) && not (is_zero b.number)

-- What runCommand leaves when the container is up or not.
abbrev pub Ran : Bool → Text → CProcess → Trace → CProcess → Trace → Type 0
Ran up command s tr t tr' =
    (t.output ≡ s.output)
    × (t.process_running ≡ (up && s.process_running))
    × (attached tr' ≡ (if up then (s.container_name, argv command) ∷ [] else []) ++ attached tr)
    × (called_back tr' ≡ called_back tr)

store_status-keeps :
    (status : ℤ) (s : CProcess)
    → ((store_status status s).output ≡ s.output)
      × ((store_status status s).process_running ≡ s.process_running)
unfolding store_status
store_status-keeps status s = elim (Bool-cases (is_negative status)) [
  | inl y ↦ rw y (refl, refl)
  | inr n ↦ rw n (refl, refl)
]

execute_command-Ran :
    (command : Text) (s : CProcess) (w : World) (tr : Trace)
    → Returns (Ran true command s tr) (execute_command command s w tr)
unfolding execute_command
execute_command-Ran command s w tr =
    let c = attach_command s.container_name (argv command) in
    let t : Trace = (c, w tr c) ∷ tr in
    let p = w t (attached_pid s.pid) in
    let u : Trace = (attached_pid s.pid, p) ∷ t in
    let kept = store_status-keeps (w u (wait_pid p.number)).number (record s { pid = p.number }) in
    (kept.0, kept.1, refl, refl)

-- runCommand always returns. It never writes the output. It attaches the command, once, exactly when
-- liblxc gives the container out and says that it is running, and only then the mark of a running
-- process stays as it was: otherwise it is cleared.
pub run_command-Ran :
    (command : Text) (s : CProcess) (w : World) (tr : Trace)
    → Returns (Ran (found_up w tr s.container_name) command s tr) (run_command command s w tr)
unfolding run_command
run_command-Ran command s w tr =
    let a = w tr (lxc_container_new s.container_name) in
    let t : Trace = (lxc_container_new s.container_name, a) ∷ tr in
    let b = w t (lxc_is_running s.container_name) in
    let goal : Bool → Type 0 = λ up. Returns (Ran up command s tr) (run_command command s w tr) in
    elim (Bool-cases (is_zero a.number)) [
      | inl z ↦
          let f : found_up w tr s.container_name ≡ false = rw z refl in
          subst goal (sym f) (rw (run_command, z) (refl, refl, refl, refl))
      | inr y ↦ elim (Bool-cases (is_zero b.number)) [
        | inl z ↦
            let f : found_up w tr s.container_name ≡ false = rw (y, z) refl in
            subst goal (sym f) (rw (run_command, y, z) (refl, refl, refl, refl))
        | inr x ↦
            let f : found_up w tr s.container_name ≡ true = rw (y, x) refl in
            subst goal (sym f) (
              rw (run_command, y, x)
                (execute_command-Ran command s w ((lxc_is_running s.container_name, b) ∷ t)))
      ]
    ]

-- CProcess::run always returns with the mark of a running process cleared and the output unwritten,
-- and attaches the command exactly when the container is up.
pub run-Ran :
    (command : Text) (s : CProcess) (w : World) (tr : Trace)
    → Returns
        (λ t tr'.
          (t.process_running ≡ false)
          × (t.output ≡ s.output)
          × (attached tr'
              ≡ (if found_up w tr s.container_name
                  then (s.container_name, argv command) ∷ []
                  else [])
                ++ attached tr))
        (run command s w tr)
unfolding run
run-Ran command s w tr =
    Returns-bind _ _ w (run_command command (record s { process_running = true }) w tr) _
      (run_command-Ran command (record s { process_running = true }) w tr)
      (λ t tr' r. (refl, r.0, r.2))

-- The thread of runAsync always returns, and when the container is up it leaves the mark of a running
-- process set: nothing clears it after the command has ended. The callback gets the output as it was
-- before.
pub run_command_helper-Ran :
    (command : Text) (s : CProcess) (w : World) (tr : Trace)
    → s.process_running ≡ true
    → Returns
        (λ t tr'.
          (t.process_running ≡ found_up w tr s.container_name)
          × (called_back tr' ≡ (t.exit_code, s.output) ∷ called_back tr))
        (run_command_helper command s w tr)
unfolding run_command_helper
run_command_helper-Ran command s w tr e =
    Returns-bind _ _ w (run_command command s w tr) _ (run_command-Ran command s w tr) (λ t tr' r. (
      r.1
          ∙ ap (λ m. found_up w tr s.container_name && m) e
          ∙ and_true (found_up w tr s.container_name),
      ap (λ o. (t.exit_code, o) ∷ called_back tr') r.0 ∙ ap (λ z. (t.exit_code, s.output) ∷ z) r.3,
    ))
  where
    and_true : (b : Bool) → (b && true) ≡ b
    and_true true = refl
    and_true false = refl

-- stop sends SIGTERM to the process whose number it holds, if it is positive, and keeps the number:
-- the destructor, which stops once more, sends it again, after the process was waited for.
pub stop-stop :
    (s : CProcess) (w : World) (tr : Trace)
    → Returns
        (λ t tr'.
          (t.process_running ≡ false)
          × (signalled tr' ≡ (if is_positive s.pid then s.pid ∷ s.pid ∷ [] else []) ++ signalled tr)
          × (waited tr' ≡ (if is_positive s.pid then s.pid ∷ s.pid ∷ [] else []) ++ waited tr))
        ((stop s >>= stop) w tr)
unfolding stop
stop-stop s w tr = elim (Bool-cases (is_positive s.pid)) [
  | inl y ↦ rw (y, stop, y) (refl, refl, refl)
  | inr n ↦ rw (n, stop, n) (refl, refl, refl)
]
