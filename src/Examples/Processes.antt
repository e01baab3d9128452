-- ===== src/Examples/Processes.antt =====
-- The theorems on shared pointers, processes and the UUID generator, applied to small programs.
use ymir_project.Base.{
  arith, ◌≡◌, ◌≢◌, ◌⊎◌, refl, true, false, none, List, [], ◌∷◌, ◌++◌, length, suc, ◌%◌,
  if◌then◌else◌,
}
use ymir_project.Buffer.{◌>>=◌}
use ymir_project.Host.{pos, negsuc, text, World, fault}
use ymir_project.Host.Laws.{Post, Returns, opened, closed}
use ymir_project.SharedPtr.{Memory, Step, declare, make, copy, assign, steps}
use ymir_project.SharedPtr.Counters.{Succeeds}
use ymir_project.SharedPtr.Variables.{Inv}
use ymir_project.SharedPtr.Steps.{AllValid, AllDeleted, leaves, after_all, steps-Inv, steps-leaves}
use ymir_project.Process.{CProcess, new_process, argv, run, run_command_helper}
use ymir_project.Process.Running.{found_up, attached, called_back, run-Ran, run_command_helper-Ran}
use ymir_project.Uuid.{hex_digit, rem_16, generate}
use ymir_project.Uuid.Layout.{is_hex, Filled, hex_digit-rem_16, generate-Filled}

abbrev no_pointers : Memory
no_pointers = record { vars = []; store = record { counts = []; objects = [] } }

-- Two variables share an object, and the first gets another.
abbrev sharing : List Step
sharing = declare ∷ make 0 ∷ copy 0 ∷ make 0 ∷ assign 1 0 ∷ []

valid : AllValid 0 sharing
valid = (
  tt,
  omega arith,
  (
    omega arith,
    omega arith,
    (
      omega arith,
      omega arith,
      (omega arith, omega arith, ((omega arith, omega arith), omega arith, tt)),
    ),
  ),
)

steps-Inv_example :
    Succeeds (λ m. Inv m × (length m.vars ≡ after_all 0 sharing)) (steps sharing no_pointers)
steps-Inv_example = steps-Inv sharing no_pointers (((λ c. refl), refl), tt) valid

steps-leaves_example :
    Succeeds
      (λ m. AllDeleted m.store)
      (steps sharing no_pointers >>= λ m. steps (leaves (length m.vars)) m)
steps-leaves_example = steps-leaves sharing valid (omega arith)

abbrev sevens : World
sevens tr c = record { number = pos 7; string = none; texts = [] }

abbrev shell : CProcess
shell = record (new_process (text "box")) { process_running = true }

run-Ran_example :
    Returns
      (λ t tr'.
        (t.process_running ≡ false)
        × (t.output ≡ shell.output)
        × (attached tr'
            ≡ (if found_up sevens [] shell.container_name
                then (shell.container_name, argv (text "ls -l")) ∷ []
                else [])
              ++ attached []))
      (run (text "ls -l") shell sevens [])
run-Ran_example = run-Ran (text "ls -l") shell sevens []

run_command_helper-Ran_example :
    Returns
      (λ t tr'.
        (t.process_running ≡ found_up sevens [] shell.container_name)
        × (called_back tr' ≡ (t.exit_code, shell.output) ∷ called_back []))
      (run_command_helper (text "ls -l") shell sevens [])
run_command_helper-Ran_example = run_command_helper-Ran (text "ls -l") shell sevens [] refl

-- The random number 10, and -1.
hex_digit-rem_16_example :
    Returns (λ c u. (is_hex c ≡ true) × (u ≡ [])) (hex_digit (rem_16 (pos 10)) sevens [])
    × ((suc 10 % 16 ≢ 0) → hex_digit (rem_16 (negsuc 10)) sevens [] ≡ fault [])
hex_digit-rem_16_example = hex_digit-rem_16 10 sevens []

generate-Filled_example :
    Post (λ r u. ((r ≡ []) ⊎ Filled 36 r) × (opened u ≡ closed u)) (generate sevens [])
generate-Filled_example = generate-Filled sevens [] refl
