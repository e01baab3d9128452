-- ===== src/Units/Helper/Release.antt =====
-- What DeploymentUnitHelper gives back: the containers, and the units of a failed addition.
use ymir_project.Base.{
  ◌≡◌, refl, sym, ap, ◌∙◌, subst, inl, inr, Bool, true, false, none, some, List, [], ◌∷◌, ◌++◌,
  Bool-cases,
}
use ymir_project.StringClass.{text_eq, text_lt}
use ymir_project.StringClass.Compare.{text_eq_self, text_eq-eq}
use ymir_project.Units.{DeploymentUnit}
use ymir_project.Units.Helper.{
  Units, insert_unit, find_uuid, erase_uuid, restart_container, start_again, give_up,
  free_container, restore, rootfs_key,
}
use ymir_project.Host.{
  Text, Call, lxc_put, lxc_start, lxc_stop, lxc_is_running, lxc_save_config, lxc_set_config_item,
  is_zero, World, Trace, ◌>>=◌,
}
use ymir_project.Host.Laws.{Returns, Returns-bind}

abbrev pub put_by : Call → List Text
put_by (lxc_put c) = c ∷ []
put_by _ = []

-- The containers that were given back, newest first.
abbrev pub puts : Trace → List Text
puts [] = []
puts ((call, a) ∷ tr) = put_by call ++ puts tr

abbrev pub calls : Trace → List Call
calls [] = []
calls ((call, a) ∷ tr) = call ∷ calls tr

-- A failing restart ends with the container given back, and nothing was given back before.
abbrev pub GivenBack : Text → Trace → Trace → Type 0
GivenBack c tr t = (u : Trace) × (calls t ≡ lxc_put c ∷ calls u) × (puts u ≡ puts tr)

abbrev pub Restarted : Text → Trace → Bool → Trace → Type 0
Restarted c tr true t = puts t ≡ puts tr
Restarted c tr false t = GivenBack c tr t

start_again-Restarted :
    (c : Text) (w : World) (tr t : Trace)
    → puts t ≡ puts tr
    → Returns (Restarted c tr) (start_again c w t)
unfolding start_again give_up free_container
start_again-Restarted c w tr t e =
    let a = w t (lxc_start c) in
    let u : Trace = (lxc_start c, a) ∷ t in
    elim (Bool-cases (is_zero a.number)) [
      | inl z ↦ rw (start_again, z) (u, refl, e)
      | inr n ↦ rw (start_again, n) e
    ]

restart_container-Restarted :
    (c : Text) (w : World) (tr : Trace) → Returns (Restarted c tr) (restart_container c w tr)
unfolding restart_container give_up free_container
restart_container-Restarted c w tr =
    let a = w tr (lxc_is_running c) in
    let t : Trace = (lxc_is_running c, a) ∷ tr in
    let b = w t (lxc_stop c) in
    let u : Trace = (lxc_stop c, b) ∷ t in
    elim (Bool-cases (is_zero a.number)) [
      | inl z ↦ rw (restart_container, z) (start_again-Restarted c w tr t refl)
      | inr n ↦ elim (Bool-cases (is_zero b.number)) [
        | inl z ↦ rw (restart_container, n, z) (u, refl, refl)
        | inr m ↦ rw (restart_container, n, m) (start_again-Restarted c w tr u refl)
      ]
    ]

-- How the run behind the written configuration ends.
abbrev pub Restored : Text → Text → Trace → Bool → Trace → Type 0
Restored c old tr true t = puts t ≡ puts tr
Restored c old tr false t =
    (u : Trace) × (calls t
      ≡ lxc_put c ∷ lxc_save_config c ∷ lxc_set_config_item c rootfs_key old ∷ lxc_put c ∷ calls u)
    × (puts u ≡ puts tr)

restore-Restored :
    (c old : Text) (ok : Bool) (w : World) (tr t : Trace)
    → Restarted c tr ok t
    → Returns (Restored c old tr) (restore c old ok w t)
unfolding restore give_up free_container
restore-Restored c old true w tr t e = e
restore-Restored c old false w tr t (u, e, f) =
    (u, ap (λ cs. lxc_put c ∷ lxc_save_config c ∷ lxc_set_config_item c rootfs_key old ∷ cs) e, f)

-- Behind the written configuration the restart and what follows it always return. If the restart
-- succeeds no container was given back. If it fails, the last calls give the container back, set
-- its root path to the old one, save its configuration, and give the same container back again, and none
-- was given back before them.
pub restart-restore-Restored :
    (c old : Text) (w : World) (tr : Trace)
    → Returns (Restored c old tr) ((restart_container c >>= restore c old) w tr)
restart-restore-Restored c old w tr =
    Returns-bind (Restarted c tr) (Restored c old tr) w (restart_container c w tr) (restore c old)
      (restart_container-Restarted c w tr) (λ ok t r. restore-Restored c old ok w tr t r)

-- Every unit stands under its own identifier.
abbrev pub Keyed : Units → Type 0
Keyed [] = Unit {0}
Keyed ((k, du) ∷ us) = (k ≡ du.uuid) × Keyed us

other_key : (k e d : Text) → k ≡ e → text_eq d e ≡ false → text_eq k d ≡ false
other_key k e d same miss = elim (Bool-cases (text_eq k d)) [
  | inl hit ↦
      absurd
        (cc (subst (λ m. text_eq d m ≡ true) (sym (text_eq-eq k d hit) ∙ same) (text_eq_self d)))
  | inr other ↦ other
]

-- Adding a unit under an identifier that no unit has and removing it again restores the units, and
-- in between it is found.
pub erase_uuid-insert_unit :
    (du : DeploymentUnit) (us : Units)
    → Keyed us
    → find_uuid du.uuid us ≡ none
    → (find_uuid du.uuid (insert_unit du.uuid du us) ≡ some du)
      × (erase_uuid du.uuid (insert_unit du.uuid du us) ≡ us)
unfolding find_uuid erase_uuid insert_unit
erase_uuid-insert_unit du [] keyed absent =
    (rw (text_eq_self du.uuid) refl, rw (text_eq_self du.uuid) refl)
erase_uuid-insert_unit du ((k, e) ∷ us) keyed absent = elim (Bool-cases (text_eq du.uuid e.uuid)) [
  | inl hit ↦ absurd (cc (rw hit at absent))
  | inr miss ↦ elim (Bool-cases (text_lt k du.uuid)) [
    | inl before ↦
        let rest = erase_uuid-insert_unit du us keyed.1 (rw miss at absent) in
        rw (before, miss) (rest.0, ap (◌∷◌ (k, e)) rest.1)
    | inr here ↦
        rw (here, other_key k e.uuid du.uuid keyed.0 miss, text_eq_self du.uuid) (refl, refl)
  ]
]
