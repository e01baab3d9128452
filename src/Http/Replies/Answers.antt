-- ===== src/Http/Replies/Answers.antt =====
-- What the listing of execution environments answers.
use ymir_project.Base.{arith, ℕ, zero, suc, ◌≡◌, refl, sym, subst, List, [], ◌∷◌, ◌++◌, length}
use ymir_project.StringClass.{text_eq}
use ymir_project.Host.{
  ℤ, pos, Text, text, Call, Trace, World, lxc_put, list_containers, container_state, container_pid,
}
use ymir_project.Host.Laws.{Returns, Returns-bind}
use ymir_project.Units.Cache.{Json, j_string, j_number, object_get, lookup}
use ymir_project.Http.Replies.{
  object, array, ok, container_entry, list_from, list_reply, execenv_ls,
}

-- The entries name the containers in their order, numbered from `i` on.
abbrev pub Listed : ℕ → List Text → List Json → Type 0
Listed i [] [] = Unit {0}
Listed i [] (j ∷ js) = ⊥
Listed i (name ∷ names) [] = ⊥
Listed i (name ∷ names) (j ∷ js) =
    (object_get j (text "id") ≡ j_number (pos i))
    × (object_get j (text "name") ≡ j_string name)
    × Listed (suc i) names js

abbrev pub put_by : Call → List Text
put_by (lxc_put name) = name ∷ []
put_by _ = []

-- The containers that were given back, newest first.
abbrev pub put : Trace → List Text
put [] = []
put ((c, a) ∷ tr) = put_by c ++ put tr

-- Giving back the containers one by one.
abbrev pub put_all : List Text → List Text → List Text
put_all [] before = before
put_all (name ∷ names) before = put_all names (name ∷ before)

entry-id :
    (i : ℕ) (name state : Text) (pid : ℤ)
    → object_get (container_entry i name state pid) (text "id") ≡ j_number (pos i)
unfolding container_entry lookup text_eq text
entry-id i name state pid = refl

entry-name :
    (i : ℕ) (name state : Text) (pid : ℤ)
    → object_get (container_entry i name state pid) (text "name") ≡ j_string name
unfolding container_entry lookup text_eq text
entry-name i name state pid = refl

list_from-Listed :
    (names : List Text) (n i : ℕ) (w : World) (tr : Trace)
    → n ≡ length names
    → Returns
        (λ js tr'. Listed i names js × (put tr' ≡ put_all names (put tr)))
        (list_from n i names w tr)
unfolding list_from
list_from-Listed [] zero i w tr e = (tt, refl)
list_from-Listed [] (suc n) i w tr e = absurd (omega arith)
list_from-Listed (name ∷ names) zero i w tr e = absurd (omega arith)
list_from-Listed (name ∷ names) (suc n) i w tr e =
    let state = container_state name in
    let t : Trace = (state, w tr state) ∷ tr in
    let pid = container_pid name in
    let u : Trace = (pid, w t pid) ∷ t in
    let v : Trace = (lxc_put name, w u (lxc_put name)) ∷ u in
    Returns-bind _ _ w (list_from n (suc i) names w v) _
      (list_from-Listed names n (suc i) w v (omega arith))
      (λ js tr' r. ((entry-id i name _ _, entry-name i name _ _, r.0), r.1))

-- A reply that lists the containers of a system that has those of `names`.
abbrev pub Reply : (Json → Text) → List Text → Trace → ℤ × Text → Trace → Type 0
Reply print names tr r tr' =
    (js : List Json) × (r ≡ (
      ok,
      print (
          object (
            (text "containers", array js)
            ∷ (text "numberOfContainers", j_number (pos (length names)))
            ∷ [])),
    ))
    × Listed 0 names js
    × (put tr' ≡ put_all names (put tr))

list_reply-Listed :
    (print : Json → Text) (names : List Text) (w : World) (tr : Trace)
    → Returns (Reply print names tr) (list_reply print (pos (length names)) names w tr)
unfolding list_reply
list_reply-Listed print names w tr =
    Returns-bind _ _ w (list_from (length names) 0 names w tr) _
      (list_from-Listed names (length names) 0 w tr refl) (λ js tr' r. (js, refl, r.0, r.1))

-- When liblxc answers how many containers there are, with as many names, execenv_ls answers 200 and
-- a list of exactly those containers, in their order and numbered from 0, with their number, and each
-- container is given back once.
pub execenv_ls-Listed :
    (print : Json → Text) (body : Text) (w : World) (tr : Trace) (names : List Text)
    → (w tr list_containers).number ≡ pos (length names)
    → (w tr list_containers).texts ≡ names
    → Returns (Reply print names tr) (execenv_ls print body w tr)
unfolding execenv_ls
execenv_ls-Listed print body w tr names count given =
    let t : Trace = (list_containers, w tr list_containers) ∷ tr in
    subst (λ (p : ℤ × List Text). Returns (Reply print names tr) (list_reply print p.0 p.1 w t))
      (λ i. (sym count i, sym given i)) (list_reply-Listed print names w t)
