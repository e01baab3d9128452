-- ===== src/Amx/Status.antt =====
-- The status that the handlers of execution environments and execution units report.
use ymir_project.Base.{
  Option-cases, ℕ, ◌≡◌, ◌≢◌, refl, sym, ap, subst, ◌⊎◌, inl, inr, Bool, true, false, not, none,
  some, [], ◌∷◌, arith, Bool-cases, if◌then◌else◌, ◌||◌,
}
use ymir_project.Units.{is_nil}
use ymir_project.StringClass.{text_eq}
use ymir_project.Container.{
  LxcContainer, Method, release, idle, enable, disable, new_container, run, run_action, set_action,
  set_template, set_storage_space,
}
use ymir_project.Container.Lifecycle.{Started, UpIfZero, run-UpIfZero, run-null}
use ymir_project.Host.{
  ℤ, is_zero, Text, text, M, World, Trace, Outcome, ret, exited, fault, perform, get_param,
  get_flag, set_param, start_thread, stop_process, process_running, Answer, lxc_container_new,
  lxc_put,
}
use ymir_project.Host.Laws.{Post, Post-bind, Post-cstring}
use ymir_project.Amx.{
  configured, status_text, run_and_report, run_configured, process_exec_env, drive,
}

-- If the newest call, but for returned containers, writes "Up", the call before it found the container running or started it.
abbrev pub UpStarted : Text → Unit {0} → Trace → Type 0
UpStarted c u ((set_param o k v, a) ∷ tr) = v ≡ text "Up" → Started c tr
UpStarted c u ((lxc_put n, a) ∷ tr) = UpStarted c u tr
UpStarted c u ((_, a) ∷ tr) = Unit
UpStarted c u [] = Unit

abbrev first_code : Text → ℕ
first_code [] = 0
first_code (c ∷ t) = c

error_ne_up : text "Error" ≢ text "Up"
unfolding text
error_ne_up e = absurd (omega (arith, ap first_code e))

disabled_ne_up : text "Disabled" ≢ text "Up"
unfolding text
disabled_ne_up e = absurd (omega (arith, ap first_code e))

working_ne_up : text "Working" ≢ text "Up"
unfolding text
working_ne_up e = absurd (omega (arith, ap first_code e))

-- The object that the constructor yields has a container of its name, or none.
new_container-container :
    (name template : Text) (m : Method) (w : World) (tr : Trace)
    → Post
        (λ c t. (c.container ≡ some name) ⊎ (c.container ≡ none))
        (new_container name template m w tr)
unfolding new_container
new_container-container name template m w tr =
    elim (Bool-cases (is_zero (w tr (lxc_container_new name)).number)) [
      | inl e ↦ rw e (inr refl)
      | inr e ↦ rw e (inl refl)
    ]

Post-trivial : {A : Type 0} (o : Outcome A) → Post (λ r t. Unit {0}) o
Post-trivial (ret a t) = tt
Post-trivial (exited t) = tt
Post-trivial (fault t) = tt

configured-container :
    (template storage : Text) (enabled : Bool) (c : LxcContainer)
    → (configured template storage enabled c).container ≡ c.container
unfolding configured set_action set_template set_storage_space
configured-container template storage enabled c = refl

configured-action :
    (template storage : Text) (enabled : Bool) (c : LxcContainer)
    → (configured template storage enabled c).action ≡ (if enabled then enable else disable)
unfolding configured set_action
configured-action template storage enabled c = refl

module _ (device : ℤ → Text) (refresh : Text → M Bool) where
  reported : ℕ → Bool → ℤ → M (Unit {0})
  reported object enabled r =
      perform (set_param object (text "Status") (status_text (is_zero r) enabled))

  enabled-UpStarted :
      (object : ℕ) (c : LxcContainer) (name : Text) (w : World) (tr : Trace)
      → (c.container ≡ some name) ⊎ (c.container ≡ none)
      → c.action ≡ enable
      → Post (UpStarted name) (run_and_report device refresh object true c w tr)
  unfolding run_and_report run
  enabled-UpStarted object c name w tr (inl e) a =
      Post-bind (UpIfZero name) (UpStarted name) w (run device refresh c w tr)
        (λ r. perform (set_param object (text "Status") (status_text (is_zero r) true)))
        (run-UpIfZero device refresh c name w tr e (inl a))
        (λ r t up. elim (Bool-cases (is_zero r)) [
          | inl z ↦ λ _. up z
          | inr nz ↦ rw nz (λ v. absurd (error_ne_up v))
        ])
  enabled-UpStarted object c name w tr (inr e) a = rw (run_faults c w tr e a) tt
    where
      run_faults :
          (c : LxcContainer) (w : World) (tr : Trace)
          → c.container ≡ none
          → c.action ≡ enable
          → run device refresh c w tr ≡ fault tr
      run_faults c w tr e a =
          subst (λ m. run_action device refresh m c w tr ≡ fault tr) (sym a)
            (run-null device refresh c w tr e).0

  disabled-UpStarted :
      (object : ℕ) (c : LxcContainer) (name : Text) (w : World) (tr : Trace)
      → Post (UpStarted name) (run_and_report device refresh object false c w tr)
  unfolding run_and_report
  disabled-UpStarted object c name w tr =
      Post-bind (λ r t. Unit {0}) (UpStarted name) w (run device refresh c w tr)
        (λ r. perform (set_param object (text "Status") (status_text (is_zero r) false)))
        (Post-trivial (run device refresh c w tr))
        (λ r t _. elim (Bool-cases (is_zero r)) [
          | inl z ↦ rw z (λ v. absurd (disabled_ne_up v))
          | inr nz ↦ rw nz (λ v. absurd (error_ne_up v))
        ])

  release-UpStarted :
      (c : LxcContainer) (name : Text) (w : World) (tr : Trace)
      → UpStarted name tt tr
      → Post (UpStarted name) (release c w tr)
  unfolding release
  release-UpStarted c name w tr h = elim (Option-cases c.container) [
    | inl e ↦ rw e h
    | inr (n, e) ↦ rw e h
  ]

  report-UpStarted :
      (object : ℕ) (enabled : Bool) (template storage : Text) (c : LxcContainer) (name : Text)
      (w : World) (tr : Trace)
      → (c.container ≡ some name) ⊎ (c.container ≡ none)
      → Post (UpStarted name) (
          run_and_report device refresh object enabled (configured template storage enabled c) w tr)
  report-UpStarted object true template storage c name w tr up =
      enabled-UpStarted object (configured template storage true c) name w tr
        (subst (λ m. (m ≡ some name) ⊎ (m ≡ none))
          (sym (configured-container template storage true c)) up)
        (configured-action template storage true c)
  report-UpStarted object false template storage c name w tr up =
      disabled-UpStarted object (configured template storage false c) name w tr

  configured-UpStarted :
      (object : ℕ) (enabled : Bool) (template storage : Text) (c : LxcContainer) (name : Text)
      (w : World) (tr : Trace)
      → (c.container ≡ some name) ⊎ (c.container ≡ none)
      → Post (UpStarted name) (run_configured device refresh object enabled template storage c w tr)
  unfolding run_configured
  configured-UpStarted object enabled template storage c name w tr up =
      Post-bind (UpStarted name) (UpStarted name) w
        (run_and_report device refresh object enabled (configured template storage enabled c) w tr)
        (λ u. release c) (report-UpStarted object enabled template storage c name w tr up)
        (λ u t h. release-UpStarted c name w t h)

  -- Whenever the handler of an execution environment returns and its last act, but for giving the
  -- container back, was to write the status "Up", the call before it found the container of the
  -- environment's name running or started it.
  pub process_exec_env-UpStarted :
      (object : ℕ) (name : Text) (w : World) (tr : Trace)
      → (w tr (get_param object (text "Name"))).string ≡ some name
      → Post (UpStarted name) (process_exec_env device refresh (some object) w tr)
  unfolding process_exec_env
  process_exec_env-UpStarted object name w tr named =
      Post-cstring (UpStarted name) (get_param object (text "Name")) w tr _ (λ n e₁.
        let t₁ : Trace =
          (get_param object (text "Name"), w tr (get_param object (text "Name"))) ∷ tr in
        let a₂ = w t₁ (get_flag object (text "Enable")) in
        let t₂ : Trace = (get_flag object (text "Enable"), a₂) ∷ t₁ in
        Post-cstring (UpStarted name) (get_param object (text "Type")) w t₂ _ (λ template e₃.
          let t₃ : Trace =
            (get_param object (text "Type"), w t₂ (get_param object (text "Type"))) ∷ t₂ in
          Post-cstring (UpStarted name) (get_param object (text "AllocatedDiskSpace")) w t₃ _
            (λ storage e₄. elim (Bool-cases (is_nil n || is_nil template)) [
              | inl nil ↦ rw nil tt
              | inr given ↦ rw given (
                  Post-bind (λ c t. (c.container ≡ some n) ⊎ (c.container ≡ none)) (UpStarted name)
                    w (new_container n (text "busyboxv2") idle w _)
                    (run_configured device refresh object (not (is_zero a₂.number)) template
                      storage)
                    (new_container-container n (text "busyboxv2") idle w _)
                    (λ c t up.
                      configured-UpStarted object (not (is_zero a₂.number)) template storage c name
                        w t
                        (subst (λ m. (c.container ≡ some m) ⊎ (c.container ≡ none)) (same n e₁)
                          up)))
            ])))
    where
      same : (n : Text) → (w tr (get_param object (text "Name"))).string ≡ some n → n ≡ name
      same n e = cc

-- What the requested state makes of a service: it is started only if it was asked to be active and
-- was found stopped, and stopped only if it was asked to be idle and was found running.
pub data Acts (service state command : Text) (tr : Trace) : Trace → Type 0 where
  untouched : Acts service state command tr tr
  found : (a : Answer) → Acts service state command tr ((process_running service, a) ∷ tr)
  starts :
      (a b : Answer)
      → text_eq state (text "Active") ≡ true
      → is_zero a.number ≡ true
      → Acts service state command tr
          ((start_thread service command, b) ∷ (process_running service, a) ∷ tr)
  halts :
      (a b : Answer)
      → text_eq state (text "Idle") ≡ true
      → is_zero a.number ≡ false
      → Acts service state command tr
          ((stop_process service, b) ∷ (process_running service, a) ∷ tr)

-- The branches of processExecutionUnitObject on the requested state return, and act on the service
-- at most once: they start it only when it should be active and was found stopped, and stop it only
-- when it should be idle and was found running.
pub drive-Acts :
    (service state command : Text) (w : World) (tr : Trace)
    → (t : Trace) × (drive service state command w tr ≡ ret tt t) × Acts service state command tr t
unfolding drive
drive-Acts service state command w tr =
    let a = w tr (process_running service) in
    let t₁ : Trace = (process_running service, a) ∷ tr in
    elim (Bool-cases (text_eq state (text "Active"))) [
      | inl active ↦ elim (Bool-cases (is_zero a.number)) [
        | inl down ↦
            (_, rw (active, down) refl, starts a (w t₁ (start_thread service command)) active down)
        | inr up ↦ (_, rw (active, up) refl, found a)
      ]
      | inr other ↦ elim (Bool-cases (text_eq state (text "Idle"))) [
        | inl idle_ ↦ elim (Bool-cases (is_zero a.number)) [
          | inl down ↦ (_, rw (other, idle_, down) refl, found a)
          | inr up ↦ (_, rw (other, idle_, up) refl, halts a (w t₁ (stop_process service)) idle_ up)
        ]
        | inr none_ ↦ (_, rw (other, none_) refl, untouched)
      ]
    ]
