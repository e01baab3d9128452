-- ===== src/Http/Matching.antt =====
-- How the front end matches the path of a request.
use ymir_project.Base.{
  ℕ, ◌≡◌, refl, sym, ap, ◌∙◌, inl, inr, Bool, true, false, List, [], ◌∷◌, ◌==◌, if◌then◌else◌,
  length, Bool-cases,
}
use ymir_project.Host.{Text}
use ymir_project.StringClass.{text_eq}
use ymir_project.StringClass.Compare.{text_eq_self}
use ymir_project.StringClass.Split.{tokens, join, join-tokens_from}
use ymir_project.Http.{squeeze, replace_double_slashes, are_paths_equal, match_parts, is_match}

join-tokens : (x : ℕ) (t : Text) → join x (tokens x t) ≡ t
unfolding tokens
join-tokens x t = join-tokens_from x [] t

-- Parts that the loop accepts are all empty, so they are the same parts.
match_parts-same : (ps rs : List Text) → match_parts ps rs ≡ true → ps ≡ rs
unfolding match_parts
match_parts-same [] [] h = refl
match_parts-same [] (r ∷ rs) h = cc
match_parts-same (p ∷ ps) [] h = cc
match_parts-same ([] ∷ ps) ([] ∷ rs) h = ap (λ z. [] ∷ z) (match_parts-same ps rs h)
match_parts-same ([] ∷ ps) ((c ∷ r) ∷ rs) h = cc
match_parts-same ((c ∷ p) ∷ ps) (r ∷ rs) h = cc

-- The comparison of the parts adds nothing: a request matches a path exactly when the two are the
-- same text once runs of slashes are made one. In particular no part of a path is a parameter.
pub is_match-normal :
    (path request : Text)
    → is_match path request ≡ text_eq (replace_double_slashes path) (replace_double_slashes request)
unfolding is_match are_paths_equal
is_match-normal path request =
    elim (Bool-cases (text_eq (replace_double_slashes path) (replace_double_slashes request))) [
      | inl y ↦ rw y refl
      | inr n ↦ rw n (elim (Bool-cases (length (tokens 47 path) == length (tokens 47 request))) [
        | inr k ↦ rw k refl
        | inl l ↦ rw l (elim (Bool-cases (match_parts (tokens 47 path) (tokens 47 request))) [
          | inr k ↦ k
          | inl m ↦
              let same : path ≡ request =
                sym (join-tokens 47 path)
                ∙ ap (join 47) (match_parts-same (tokens 47 path) (tokens 47 request) m)
                ∙ join-tokens 47 request in
              absurd (
                cc (
                  n,
                  ap (λ z. text_eq (replace_double_slashes path) (replace_double_slashes z)) same,
                  text_eq_self (replace_double_slashes path),
                ))
        ])
      ])
    ]

-- No two slashes stand next to one another, and none at the start when one came before.
abbrev pub Single : Bool → Text → Type 0
Single prev [] = Unit {0}
Single prev (c ∷ t) = if c == 47 then (prev ≡ false) × Single true t else Single false t

squeeze-Single : (prev : Bool) (t : Text) → Single prev (squeeze prev t)
unfolding squeeze
squeeze-Single prev [] = tt
squeeze-Single prev (c ∷ t) = elim (Bool-cases (c == 47)) [
  | inr n ↦ rw (n, n) (squeeze-Single false t)
  | inl y ↦ elim (Bool-cases prev) [
    | inl p ↦ rw (y, p) (squeeze-Single true t)
    | inr p ↦ rw (y, p, y) (refl, squeeze-Single true t)
  ]
]

squeeze-id : (prev : Bool) (t : Text) → Single prev t → squeeze prev t ≡ t
unfolding squeeze
squeeze-id prev [] s = refl
squeeze-id prev (c ∷ t) s = elim (Bool-cases (c == 47)) [
  | inr n ↦ rw n (ap (λ z. c ∷ z) (squeeze-id false t (rw n at s)))
  | inl y ↦ let p = rw y at s in rw (y, p.0) (ap (λ z. c ∷ z) (squeeze-id true t p.1))
]

-- replace_double_slashes leaves no double slash, and changes nothing on a path that has none: a second
-- run is the same as one.
pub replace_double_slashes-Single :
    (t : Text)
    → Single false (replace_double_slashes t)
      × (replace_double_slashes (replace_double_slashes t) ≡ replace_double_slashes t)
unfolding replace_double_slashes
replace_double_slashes-Single t =
    (squeeze-Single false t, squeeze-id false (squeeze false t) (squeeze-Single false t))
