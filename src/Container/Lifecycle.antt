-- ===== src/Container/Lifecycle.antt =====
-- What LxcContainer::run does for each action.
use ymir_project.Base.{
  ◌≡◌, refl, sym, ap, subst, ◌∙◌, ◌⊎◌, inl, inr, Bool, true, false, none, some, [], ◌∷◌, ◌++◌,
  Bool-cases, Option-cases,
}
use ymir_project.Host.{
  ℤ, pos, is_zero, is_minus_one, is_positive, minus_one, Text, text, Answer, World, Trace, Outcome,
  ret, exited, fault, M, lxc_is_running, lxc_start, system_cmd, umount_path, lxc_get_lxcpath,
}
use ymir_project.Host.Laws.{Post, Post-bind, Post-last, commands}
use ymir_project.Container.{
  LxcContainer, enable, disable, reconfigure, reset, destroy, idle, create, prepare, start, stop,
  reconfigure_container, destroy_container, unmount_and_destroy, bring_up, run_action, after_create,
  create_code, with_code, go_on, ◌then_if_ok◌, run, get_lxc_path,
}

-- The newest call found the container running, or started it.
pub data Started (c : Text) : Trace → Type 0 where
  found_running :
      (a : Answer) (tr : Trace) → is_zero a.number ≡ false → Started c ((lxc_is_running c, a) ∷ tr)
  started : (a : Answer) (tr : Trace) → is_zero a.number ≡ false → Started c ((lxc_start c, a) ∷ tr)

abbrev pub UpIfZero : Text → ℤ → Trace → Type 0
UpIfZero c r tr = is_zero r ≡ true → Started c tr

start-UpIfZero :
    (s : LxcContainer) (c : Text) (w : World) (tr : Trace)
    → s.container ≡ some c
    → Post (UpIfZero c) (start s w tr)
unfolding start
start-UpIfZero s c w tr e =
    let a = w tr (lxc_is_running c) in
    let t : Trace = (lxc_is_running c, a) ∷ tr in
    let b = w t (lxc_start c) in
    rw e (elim (Bool-cases (is_zero a.number)) [
      | inr up ↦ rw up (λ _. found_running a tr up)
      | inl down ↦ rw down (elim (Bool-cases (is_zero b.number)) [
        | inl failed ↦ rw failed (λ z. cc)
        | inr ok ↦ rw ok (λ _. started b t ok)
      ])
    ])

-- create keeps the pointer to the container.
create-container :
    (device : ℤ → Text) (s : LxcContainer) (w : World) (tr : Trace)
    → Post (λ (p : LxcContainer × ℤ) t. p.0.container ≡ s.container) (create device s w tr)
unfolding create
create-container device s w tr = elim (Option-cases s.container) [
  | inl e ↦ rw e tt
  | inr (c, e) ↦ rw e (
      let s' = record s { use_overlay = is_positive s.storage_space; container = some c } in
      Post-last (λ (p : LxcContainer × ℤ) t. p.0.container ≡ some c) w
        (create_code device s' c w tr) (with_code s') (λ r u. refl))
]

module _ (c : Text) where
  go_on-UpIfZero :
      (k : M ℤ) (w : World) (r : ℤ) (tr : Trace)
      → ((t : Trace) → Post (UpIfZero c) (k w t))
      → Post (UpIfZero c) (go_on k r w tr)
  go_on-UpIfZero k w r tr step = elim (Bool-cases (is_zero r)) [
    | inl ok ↦ rw ok (step tr)
    | inr failed ↦ rw failed (λ z. cc)
  ]

  then_if_ok-UpIfZero :
      (m k : M ℤ) (w : World) (tr : Trace)
      → ((t : Trace) → Post (UpIfZero c) (k w t))
      → Post (UpIfZero c) ((m then_if_ok k) w tr)
  then_if_ok-UpIfZero m k w tr step =
      Post-last (UpIfZero c) w (m w tr) (go_on k) (λ r t. go_on-UpIfZero k w r t step)

-- The newest call is an umount that answered -1.
abbrev pub UmountFailed : Trace → Type 0
UmountFailed [] = ⊥
UmountFailed ((umount_path p, a) ∷ tr) = is_minus_one a.number ≡ true
UmountFailed ((_, a) ∷ tr) = ⊥

-- The newest calls are an umount of the overlay, which did not answer -1, and a command.
abbrev pub Unmounted : Trace → Type 0
Unmounted ((system_cmd x, b) ∷ (umount_path p, a) ∷ tr) = is_minus_one a.number ≡ false
Unmounted _ = ⊥

abbrev pub DestroyOutcome : Text → Trace → Outcome ℤ → Type 0
DestroyOutcome c tr (ret r t) =
    (r ≡ pos 0)
    × Unmounted t
    × (commands t ≡ (text "lxc-destroy -f -n " ++ c) ∷ (text "lxc-stop -k -n " ++ c) ∷ commands tr)
DestroyOutcome c tr (exited t) =
    UmountFailed t × (commands t ≡ (text "lxc-stop -k -n " ++ c) ∷ commands tr)
DestroyOutcome c tr (fault t) = ⊥

-- The trace behind the kill command.
abbrev killed : World → Text → Trace → Trace
killed w c tr =
    (system_cmd (text "lxc-stop -k -n " ++ c), w tr (system_cmd (text "lxc-stop -k -n " ++ c))) ∷ tr

get_lxc_path_lem :
    (w : World) (tr : Trace)
    → (p : Text) × (t : Trace) × (get_lxc_path w tr ≡ ret p t) × (commands t ≡ commands tr)
unfolding get_lxc_path
get_lxc_path_lem w tr = elim (Option-cases (w tr lxc_get_lxcpath).string) [
  | inl e ↦ (text "/srv/lxc", (lxc_get_lxcpath, w tr lxc_get_lxcpath) ∷ tr, rw e refl, refl)
  | inr (p, e) ↦ (p ++ text "/", (lxc_get_lxcpath, w tr lxc_get_lxcpath) ∷ tr, rw e refl, refl)
]

unmount_and_destroy-DestroyOutcome :
    (c p : Text) (w : World) (t tr : Trace)
    → commands t ≡ (text "lxc-stop -k -n " ++ c) ∷ commands tr
    → DestroyOutcome c tr (unmount_and_destroy c p w t)
unfolding unmount_and_destroy
unmount_and_destroy-DestroyOutcome c p w t tr g =
    elim (Bool-cases (is_minus_one (w t (umount_path ((p ++ c) ++ text "/overlay"))).number)) [
      | inl failed ↦ rw failed (failed, g)
      | inr done ↦ rw done (refl, done, ap (◌∷◌ (text "lxc-destroy -f -n " ++ c)) g)
    ]

module _ (device : ℤ → Text) (refresh : Text → M Bool) where
  bring_up-UpIfZero :
      (s : LxcContainer) (c : Text) (w : World) (tr : Trace)
      → s.container ≡ some c
      → Post (UpIfZero c) (bring_up device refresh s w tr)
  unfolding bring_up after_create
  bring_up-UpIfZero s c w tr e =
      Post-bind (λ (p : LxcContainer × ℤ) t. p.0.container ≡ s.container) (UpIfZero c) w
        (create device s w tr) (after_create device refresh) (create-container device s w tr)
        (λ p t same.
          go_on-UpIfZero c (prepare device refresh p.0 then_if_ok start p.0) w p.1 t (λ u.
            then_if_ok-UpIfZero c (prepare device refresh p.0) (start p.0) w u
              (λ v. start-UpIfZero p.0 c w v (same ∙ e))))

  -- A run that enables, reconfigures or resets a container and answers 0 has, as its last call,
  -- found the container running or started it.
  pub run-UpIfZero :
      (s : LxcContainer) (c : Text) (w : World) (tr : Trace)
      → s.container ≡ some c
      → (s.action ≡ enable) ⊎ ((s.action ≡ reconfigure) ⊎ (s.action ≡ reset))
      → Post (UpIfZero c) (run device refresh s w tr)
  unfolding run run_action
  run-UpIfZero s c w tr e (inl a) =
      subst (λ m. Post (UpIfZero c) (run_action device refresh m s w tr)) (sym a)
        (bring_up-UpIfZero s c w tr e)
  run-UpIfZero s c w tr e (inr (inl a)) =
      subst (λ m. Post (UpIfZero c) (run_action device refresh m s w tr)) (sym a)
        (then_if_ok-UpIfZero c (reconfigure_container s then_if_ok stop s) (start s) w tr
          (λ t. start-UpIfZero s c w t e))
  run-UpIfZero s c w tr e (inr (inr a)) =
      subst (λ m. Post (UpIfZero c) (run_action device refresh m s w tr)) (sym a)
        (then_if_ok-UpIfZero c (stop s then_if_ok destroy_container s) (bring_up device refresh s) w
          tr (λ t. bring_up-UpIfZero s c w t e))

  -- On an object whose lxc_container is null: enabling reads through the null pointer, idling
  -- answers 0, and every other action answers -1; no call is made.
  pub run-null :
      (s : LxcContainer) (w : World) (tr : Trace)
      → s.container ≡ none
      → (run_action device refresh enable s w tr ≡ fault tr)
        × (run_action device refresh disable s w tr ≡ ret minus_one tr)
        × (run_action device refresh reconfigure s w tr ≡ ret minus_one tr)
        × (run_action device refresh reset s w tr ≡ ret minus_one tr)
        × (run_action device refresh destroy s w tr ≡ ret minus_one tr)
        × (run_action device refresh idle s w tr ≡ ret (pos 0) tr)
  unfolding run_action bring_up create stop destroy_container reconfigure_container
  run-null s w tr e = (rw e refl, rw e refl, rw e refl, rw e refl, rw e refl, refl)

  -- Destroying the container `c` first kills it. If the umount that follows answers -1, it is the last
  -- call, no destroy command was given, and the process ends. If it does not, the destroy command follows
  -- it as the last call, and the answer is 0. There is no other outcome.
  pub run-DestroyOutcome :
      (s : LxcContainer) (c : Text) (w : World) (tr : Trace)
      → s.container ≡ some c
      → DestroyOutcome c tr (run_action device refresh destroy s w tr)
  unfolding run_action stop destroy_container
  run-DestroyOutcome s c w tr e =
      let (p, t, f, g) = get_lxc_path_lem w (killed w c tr) in
      rw (e, f) (unmount_and_destroy-DestroyOutcome c p w t tr g)
