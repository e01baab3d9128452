-- ===== src/Container/Overlay.antt =====
-- The overlay image of a container: its size, its descriptors, its mount.
use ymir_project.Base.{
  ℕ, ◌*◌, ◌%◌, ◌^◌, ◌≤◌, ◌<◌, ◌≡◌, refl, true, List, [], ◌∷◌, ◌++◌, arith, Bool-cases, inl, inr,
  ltb_lt, ltb_ge, reverse,
}
use ymir_project.Host.{
  ℤ, pos, is_negative, is_zero, Text, World, Trace, Outcome, ret, exited, fault, system_cmd, text,
  open_path, loop_get_free, loop_set,
}
use ymir_project.Host.Laws.{opened, closed}
use ymir_project.Container.{to_int32, mul_int32, mount_cleanup, mount_overlay_fs}

-- The image gets the requested size exactly for sizes below 2048 MB; from there to 4095 MB the
-- product leaves the range of int and the size that ftruncate is given is negative.
pub mul_int32-bounds :
    (n : ℕ)
    → (n < 2048 → mul_int32 (pos n) 1048576 ≡ pos (n * 1048576))
      × (2048 ≤ n → n < 4096 → is_negative (mul_int32 (pos n) 1048576) ≡ true)
unfolding mul_int32 to_int32
mul_int32-bounds n = (
  λ lt.
      let e : n * 1048576 % 2 ^ 32 ≡ n * 1048576 = omega arith in
      rw (e, ltb_lt (n * 1048576) (2 ^ 31) (omega arith)) refl,
  λ le lt. rw (ltb_ge (n * 1048576 % 2 ^ 32) (2 ^ 31) (omega arith)) refl,
)

-- The run returns, and the descriptors that it opened are those that it closed.
abbrev pub Balanced : {A : Type 0} → Trace → Outcome A → Type 0
Balanced tr (ret a tr') =
    (fds : List ℤ) × (opened tr' ≡ fds ++ opened tr) × (closed tr' ≡ reverse fds ++ closed tr)
Balanced tr (exited tr') = ⊥
Balanced tr (fault tr') = ⊥

-- mountOverlayFs always returns, and it closes exactly the descriptors that it opened, in the
-- opposite order, whichever step fails.
pub mount_overlay_fs-Balanced :
    (device : ℤ → Text) (img dir : Text) (w : World) (tr : Trace)
    → Balanced tr (mount_overlay_fs device img dir w tr)
unfolding mount_overlay_fs mount_cleanup
mount_overlay_fs-Balanced device img dir w tr =
    let c₁ = (system_cmd (text "mountpoint -q " ++ dir)) in
    let a₁ = w tr c₁ in
    let t₁ : Trace = (c₁, a₁) ∷ tr in
    let c₂ = open_path (text "/dev/loop-control") (text "O_RDWR") in
    let a₂ = w t₁ c₂ in
    let t₂ : Trace = (c₂, a₂) ∷ t₁ in
    let c₃ = loop_get_free a₂.number in
    let a₃ = w t₂ c₃ in
    let t₃ : Trace = (c₃, a₃) ∷ t₂ in
    let c₄ = open_path (device a₃.number) (text "O_RDWR") in
    let a₄ = w t₃ c₄ in
    let t₄ : Trace = (c₄, a₄) ∷ t₃ in
    let c₅ = open_path img (text "O_RDWR") in
    let a₅ = w t₄ c₅ in
    let t₅ : Trace = (c₅, a₅) ∷ t₄ in
    let c₆ = loop_set a₄.number a₅.number in
    let a₆ = w t₅ c₆ in
    elim (Bool-cases (is_zero a₁.number)) [
      | inl e₁ ↦ rw e₁ ([], refl, refl)
      | inr e₁ ↦ rw e₁ (elim (Bool-cases (is_negative a₂.number)) [
        | inl e₂ ↦ rw e₂ ([], rw e₂ refl, refl)
        | inr e₂ ↦ rw e₂ (elim (Bool-cases (is_negative a₃.number)) [
          | inl e₃ ↦ rw e₃ (a₂.number ∷ [], rw e₂ refl, refl)
          | inr e₃ ↦ rw e₃ (elim (Bool-cases (is_negative a₄.number)) [
            | inl e₄ ↦ rw e₄ (a₂.number ∷ [], rw (e₄, e₂) refl, refl)
            | inr e₄ ↦ rw e₄ (elim (Bool-cases (is_negative a₅.number)) [
              | inl e₅ ↦ rw e₅ (a₄.number ∷ a₂.number ∷ [], rw (e₅, e₄, e₂) refl, refl)
              | inr e₅ ↦ rw e₅ (elim (Bool-cases (is_negative a₆.number)) [
                | inl e₆ ↦
                    rw e₆ (a₅.number ∷ a₄.number ∷ a₂.number ∷ [], rw (e₅, e₄, e₂) refl, refl)
                | inr e₆ ↦
                    rw e₆ (a₅.number ∷ a₄.number ∷ a₂.number ∷ [], rw (e₅, e₄, e₂) refl, refl)
              ])
            ])
          ])
        ])
      ])
    ]
