-- ===== src/Amx/Entry/Starts.antt =====
-- When main starts the event loop, and what it deletes.
use ymir_project.Base.{
  ◌≡◌, refl, sym, ap, ◌∙◌, inl, inr, Bool, true, false, ◌||◌, List, [], ◌∷◌, ◌++◌, Bool-cases,
}
use ymir_project.Host.{
  ℤ, is_zero, Text, text, World, Trace, Call, M, runtime, register_function, event_loop,
  delete_object,
}
use ymir_project.Host.Laws.{Returns, Returns-bind}
use ymir_project.Container.{◌then_if_ok◌}
use ymir_project.Amx.Entry.{
  add_callbacks, call, serve, connected, loaded, configured, main, actions_list, events_list,
  functions_list,
}

abbrev pub starts : Call → Bool
starts event_loop = true
starts _ = false

-- The event loop was started.
abbrev pub started : Trace → Bool
started [] = false
started ((c, a) ∷ tr) = starts c || started tr

abbrev pub deleted_by : Call → List Text
deleted_by (delete_object o) = o ∷ []
deleted_by _ = []

-- The runtime's objects that were deleted, newest first.
abbrev pub deleted : Trace → List Text
deleted [] = []
deleted ((c, a) ∷ tr) = deleted_by c ++ deleted tr

-- The result tells whether the event loop was started, and nothing was deleted.
abbrev Told : List Text → ℤ → Trace → Type 0
Told ds r u = (is_zero r ≡ started u) × (deleted u ≡ ds)

-- Nothing was started or deleted so far.
abbrev Quiet : List Text → Trace → Type 0
Quiet ds u = (started u ≡ false) × (deleted u ≡ ds)

-- A step that is refused ends the run.
step-Told :
    (ds : List Text) (function : Text) (k : M ℤ) (w : World) (tr : Trace)
    → Quiet ds tr
    → ((u : Trace) → Quiet ds u → Returns (Told ds) (k w u))
    → Returns (Told ds) ((call function then_if_ok k) w tr)
step-Told ds function k w tr quiet next =
    let a = w tr (runtime function) in
    let u : Trace = (runtime function, a) ∷ tr in
    elim (Bool-cases (is_zero a.number)) [
      | inl z ↦ rw z (next u quiet)
      | inr n ↦ rw n ((n ∙ sym quiet.0), quiet.1)
    ]

add_callbacks-Quiet :
    (ds names : List Text) (w : World) (tr : Trace)
    → Quiet ds tr
    → Returns (λ r u. Quiet ds u) (add_callbacks names w tr)
unfolding add_callbacks
add_callbacks-Quiet ds [] w tr quiet = quiet
add_callbacks-Quiet ds (name ∷ names) w tr quiet =
    let c = register_function name in
    elim (Bool-cases (is_zero (w tr c).number)) [
      | inl z ↦ rw (add_callbacks, z) (add_callbacks-Quiet ds names w ((c, w tr c) ∷ tr) quiet)
      | inr n ↦ rw (add_callbacks, n) quiet
    ]

connected-Told :
    (ds : List Text) (w : World) (tr : Trace) → Quiet ds tr → Returns (Told ds) (connected w tr)
unfolding connected serve
connected-Told ds w tr quiet =
    let c = runtime (text "GET_ARG system-signals") in
    let t : Trace = (c, w tr c) ∷ tr in
    let s = runtime (text "amxrt_enable_syssigs") in
    let rest : (u : Trace)
        → Quiet ds u
        → Returns (Told ds) (
            (call (text "amxrt_el_create")
                then_if_ok (call (text "amxrt_register_or_wait") then_if_ok serve))
              w u) =
      λ u q.
        step-Told ds (text "amxrt_el_create")
          (call (text "amxrt_register_or_wait") then_if_ok serve) w u q
          (λ v r. step-Told ds (text "amxrt_register_or_wait") serve w v r (λ x y. (refl, y.1))) in
    elim (Bool-cases (is_zero (w tr c).number)) [
      | inl z ↦ rw (connected, z) (rest t quiet)
      | inr n ↦ rw (connected, n) (rest ((s, w t s) ∷ t) quiet)
    ]

loaded-Told :
    (ds : List Text) (w : World) (tr : Trace) → Quiet ds tr → Returns (Told ds) (loaded w tr)
unfolding loaded
loaded-Told ds w tr quiet =
    let c = runtime (text "amxo_parser_add_entry_point") in
    step-Told ds (text "amxrt_connect") connected w ((c, w tr c) ∷ tr) quiet (connected-Told ds w)

configured-Told :
    (ds : List Text) (w : World) (tr : Trace) → Quiet ds tr → Returns (Told ds) (configured w tr)
unfolding configured
configured-Told ds w tr quiet =
    Returns-bind _ _ w (add_callbacks actions_list w tr) _
      (add_callbacks-Quiet ds actions_list w tr quiet)
      (λ _ t q.
        Returns-bind _ _ w (add_callbacks events_list w t) _
          (add_callbacks-Quiet ds events_list w t q)
          (λ _ u r.
            Returns-bind _ _ w (add_callbacks functions_list w u) _
              (add_callbacks-Quiet ds functions_list w u r)
              (λ _ v s.
                step-Told ds (text "amxrt_load_odl_files") loaded w v s (loaded-Told ds w))))

-- main always returns, and with 0 exactly if it started the event loop, whether or not a callback was
-- refused. On every way out the shared pointers delete the configuration, the data model and the parser
-- that the runtime handed out.
pub main-started :
    (w : World) (tr : Trace)
    → started tr ≡ false
    → Returns
        (λ r u.
          (is_zero r ≡ started u)
          × (deleted u ≡ text "config" ∷ text "dm" ∷ text "parser" ∷ deleted tr))
        (main w tr)
unfolding main
main-started w tr quiet =
    let c₁ = runtime (text "amxrt_new") in
    let t₁ : Trace = (c₁, w tr c₁) ∷ tr in
    let c₂ = runtime (text "amxrt_get_config") in
    let t₂ : Trace = (c₂, w t₁ c₂) ∷ t₁ in
    let c₃ = runtime (text "amxrt_get_dm") in
    let t₃ : Trace = (c₃, w t₂ c₃) ∷ t₂ in
    let c₄ = runtime (text "amxrt_get_parser") in
    let t₄ : Trace = (c₄, w t₃ c₄) ∷ t₃ in
    Returns-bind _ _ w ((call (text "amxrt_config_init") then_if_ok configured) w t₄) _
      (step-Told (deleted tr) (text "amxrt_config_init") configured w t₄ (quiet, refl)
        (configured-Told (deleted tr) w))
      (λ r u k. (k.0, ap (λ ds. text "config" ∷ text "dm" ∷ text "parser" ∷ ds) k.1))
