-- ===== src/Units/Helper/Answer.antt =====
-- Which unit addDeploymentUnit answers.
use ymir_project.Base.{
  ◌≡◌, refl, subst, inl, inr, Bool, true, false, Option, List, Bool-cases, Option-cases,
}
use ymir_project.StringClass.{text_eq, strstr}
use ymir_project.Units.{
  DeploymentUnit, is_nil, create_directories, mount_squashfs, install, install_packages,
}
use ymir_project.Units.Cache.{Json}
use ymir_project.Units.Helper.{
  Units, add_prepared, register, save_cache, insert_unit, update_full_root_path,
  remove_deployment_unit, free_container,
}
use ymir_project.Host.{ret, is_zero, Text, text, list_dir, World, Trace}
use ymir_project.Host.Laws.{Post, Post-bind, Post-last}

install-name :
    (du : DeploymentUnit) (w : World) (tr : Trace)
    → Post (λ (p : DeploymentUnit × Bool) t. p.0.name ≡ du.name) (install du w tr)
unfolding install
install-name du w tr =
    Post-last (λ (p : DeploymentUnit × Bool) t. p.0.name ≡ du.name) w
      (create_directories du.rootfs_path w tr) _
      (λ u t. elim (Bool-cases (text_eq du.type_ (text "squashfs"))) [
        | inl e ↦ rw e refl
        | inr e ↦ rw e (elim (Bool-cases (text_eq du.type_ (text "ipk"))) [
          | inr f ↦ rw f refl
          | inl f ↦
              rw f (elim (Bool-cases (is_zero (w t (list_dir (text "/tmp/tr157-du"))).number)) [
                | inl z ↦ rw z refl
                | inr z ↦ rw z (
                    Post-last (λ (p : DeploymentUnit × Bool) t. p.0.name ≡ du.name) w
                      (install_packages du.rootfs_path (w t (list_dir (text "/tmp/tr157-du"))).texts
                        w _)
                      _
                      (λ x v. elim (Bool-cases x.1) [ inl ok ↦ rw ok refl | inr ok ↦ rw ok refl ]))
              ])
        ])
      ])

module _ (print : List Json → Text) (parse : Text → Option (List Json)) where
  register-name :
      (env : Text) (du : DeploymentUnit) (us : Units) (w : World) (tr : Trace)
      → Post
          (λ (p : Units × DeploymentUnit) t. p.1.name ≡ du.name)
          (register print parse env du us w tr)
  unfolding register
  register-name env du us w tr =
      let P = λ (p : Units × DeploymentUnit) (t : Trace). p.1.name ≡ du.name in
      Post-last P w (create_directories du.rootfs_path w tr) _ (λ _ t₁.
        Post-last P w (mount_squashfs _ du.rootfs_path w t₁) _ (λ _ t₂.
          Post-last P w (save_cache print parse (insert_unit du.uuid du us) w t₂) _ (λ saved t₃.
            elim (Bool-cases saved) [
              | inr s ↦ rw s (
                  Post-last P w
                    (remove_deployment_unit print parse du.uuid (insert_unit du.uuid du us) w t₃) _
                    (λ x t₄. Post-last P w (free_container env w t₄) _ (λ _ _. refl)))
              | inl s ↦ rw s (
                  Post-last P w (update_full_root_path (insert_unit du.uuid du us) env w t₃) _
                    (λ updated t₄. elim (Bool-cases updated) [
                      | inl f ↦ rw f (Post-last P w (free_container env w t₄) _ (λ _ _. refl))
                      | inr f ↦ rw f (
                          Post-last P w
                            (remove_deployment_unit print parse du.uuid (insert_unit du.uuid du us)
                              w t₄)
                            _ (λ _ _. refl))
                    ]))
            ])))

  -- For a unit that was prepared, addDeploymentUnit answers, if it returns, a unit with that unit's
  -- name on every path: also when the name has a space, when the installation or the cache fails, and
  -- when the root path cannot be updated. Its callers read a name as success.
  pub add_prepared-name :
      (env : Text) (us : Units) (du : DeploymentUnit) (prepared : Bool) (w : World) (tr : Trace)
      → Post
          (λ (p : Units × DeploymentUnit) t. p.1.name ≡ du.name)
          (add_prepared print parse env us (du, prepared) w tr)
  unfolding add_prepared
  add_prepared-name env us du false w tr =
      Post-last (λ (p : Units × DeploymentUnit) t. p.1.name ≡ du.name) w (free_container env w tr) _
        (λ _ _. refl)
  add_prepared-name env us du true w tr =
      let P = λ (p : Units × DeploymentUnit) (t : Trace). p.1.name ≡ du.name in
      let stays = λ (t : Trace).
        Post-last P w (free_container env w t) (λ u w t. ret (us, du) t) (λ _ _. refl) in
      elim (Bool-cases (is_nil du.name)) [
        | inl nil ↦ rw nil (stays tr)
        | inr given ↦ rw given (elim (Option-cases (strstr du.name (text " "))) [
          | inr (i, s) ↦ rw s (stays tr)
          | inl s ↦ rw s (
              Post-bind (λ (p : DeploymentUnit × Bool) t. p.0.name ≡ du.name) P w (install du w tr)
                _ (install-name du w tr)
                (λ p t same. elim (Bool-cases p.1) [
                  | inl ok ↦ rw ok (
                      subst
                        (λ n.
                          Post (λ (q : Units × DeploymentUnit) v. q.1.name ≡ n)
                            (register print parse env p.0 us w t))
                        same (register-name env p.0 us w t))
                  | inr ok ↦ rw ok (Post-last P w (free_container env w t) _ (λ _ _. same))
                ]))
        ])
      ]
