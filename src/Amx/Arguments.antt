-- ===== src/Amx/Arguments.antt =====
-- What odlFunctionExecEnvAdd does with arguments that it cannot use.
use ymir_project.Base.{
  ℕ, ◌≡◌, refl, ◌||◌, Bool, true, false, Option, none, some, List, [], ◌∷◌, ◌++◌,
}
use ymir_project.Units.{is_nil}
use ymir_project.Host.{
  ℤ, Text, text, Call, add_instance, get_arg, World, Trace, fault, M, ◌>>=◌, and_then, cstring_of,
  text_or_null,
}
use ymir_project.Host.Laws.{Post, Post-cstring}
use ymir_project.Amx.Handlers.{Status, parameter_not_found, too_small, exec_env_add}

-- The objects to which an instance was added, newest first.
abbrev pub grown_by : Call → List ℕ
grown_by (add_instance o) = o ∷ []
grown_by _ = []

abbrev pub grown : Trace → List ℕ
grown [] = []
grown ((c, a) ∷ tr) = grown_by c ++ grown tr

cstring_of_null :
    {A : Type 0} (c : Call) (w : World) (tr : Trace) (k : Text → M A)
    → (w tr c).string ≡ none
    → (cstring_of c >>= k) w tr ≡ fault ((c, w tr c) ∷ tr)
cstring_of_null {A} c w tr k e = go (w tr c).string e
  where
    go :
        (o : Option Text)
        → o ≡ none
        → and_then w (text_or_null o w ((c, w tr c) ∷ tr)) k ≡ fault ((c, w tr c) ∷ tr)
    go none e = refl
    go (some t) e = absurd cc

either_nil : (a b c : Bool) → c ≡ true → (a || b || c) ≡ true
either_nil true b c e = refl
either_nil false true c e = refl
either_nil false false c e = e

module _ (device : ℤ → Text) (refresh : Text → M Bool) where
  -- A call without the argument "name" reads through a null pointer, before the check for a missing
  -- name.
  pub exec_env_add-null :
      (object : ℕ) (w : World) (tr : Trace)
      → (w tr (get_arg (text "name"))).string ≡ none
      → exec_env_add device refresh object w tr
        ≡ fault ((get_arg (text "name"), w tr (get_arg (text "name"))) ∷ tr)
  unfolding exec_env_add
  exec_env_add-null object w tr e = cstring_of_null (get_arg (text "name")) w tr _ e

  -- With a storage of at most 10 MB, negative ones included, a call that returns answers
  -- parameter_not_found and has added no instance.
  pub exec_env_add-storage :
      (object : ℕ) (w : World) (tr : Trace)
      → ((t : Trace) → too_small (w t (get_arg (text "storage"))).number ≡ true)
      → Post
          (λ s t. (s ≡ parameter_not_found) × (grown t ≡ grown tr))
          (exec_env_add device refresh object w tr)
  unfolding exec_env_add
  exec_env_add-storage object w tr small =
      let P : Status → Trace → Type 0 = λ s t. (s ≡ parameter_not_found) × (grown t ≡ grown tr) in
      Post-cstring P (get_arg (text "name")) w tr _ (λ name e₁.
        let t₁ : Trace = (get_arg (text "name"), w tr (get_arg (text "name"))) ∷ tr in
        Post-cstring P (get_arg (text "type")) w t₁ _ (λ type_ e₂.
          let t₂ : Trace = (get_arg (text "type"), w t₁ (get_arg (text "type"))) ∷ t₁ in
          rw (either_nil (is_nil name) (is_nil type_) _ (small t₂)) (refl, refl)))
