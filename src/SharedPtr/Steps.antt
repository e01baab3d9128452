-- ===== src/SharedPtr/Steps.antt =====
-- Programs on shared pointers: no counter or object is used after it was deleted, none is deleted
-- twice, and none is left behind.
use ymir_project.Base.{
  arith, ℕ, zero, suc, ◌-◌, ◌^◌, ◌<◌, ◌≡◌, ◌≢◌, refl, sym, ap, subst, ◌∙◌, Bool, true, false,
  Option, none, some, List, [], ◌∷◌, length, get_elem?,
}
use ymir_project.Buffer.{◌>>=◌}
use ymir_project.SharedPtr.{
  null_ptr, Store, Memory, Step, declare, leave, make, copy, move, clear, assign, assign_move, step,
  steps,
}
use ymir_project.SharedPtr.Owners.{owners, owners-below}
use ymir_project.SharedPtr.Counters.{Succeeds, Succeeds-bind, Succeeds-map, Counted}
use ymir_project.SharedPtr.Variables.{
  Inv, Valid, after, Paired-null_ptr, own-null_ptr, Inv-of, reset_var-Inv,
}
use ymir_project.SharedPtr.Assignments.{
  copy_construct-Inv, move_construct-Inv, copy_assign-Inv, move_assign-Inv, make-Inv, leave-Inv,
}

-- A step on variables that are there is no fault, when there are less than 2^31 - 1, and every
-- counter that is left afterwards is the number of its owners.
pub step-Inv :
    (s : Step) (m : Memory)
    → Inv m
    → Valid (length m.vars) s
    → suc (length m.vars) < 2 ^ 31
    → Succeeds (λ m'. Inv m' × (length m'.vars ≡ after (length m.vars) s)) (step s m)
unfolding step
step-Inv declare m inv v small = (
  Inv-of (λ c. owners c m.vars) (null_ptr ∷ m.vars) m.store inv.0
      (λ c. omega (arith, own-null_ptr c)) (Paired-null_ptr, inv.1),
  refl,
)
step-Inv leave m inv v small = leave-Inv m.vars m.store inv v
step-Inv (make i) m inv v small = make-Inv i m inv v
step-Inv (copy j) m inv v small = copy_construct-Inv j m inv v small
step-Inv (move j) m inv v small = move_construct-Inv j m inv v
step-Inv (clear i) m inv v small = reset_var-Inv i m inv v
step-Inv (assign i j) m inv v small = copy_assign-Inv i j m inv v.0 v.1 small
step-Inv (assign_move i j) m inv v small = move_assign-Inv i j m inv v.0 v.1

-- The steps name variables that are there, and there are never 2^31 - 1 of them.
abbrev pub AllValid : ℕ → List Step → Type 0
AllValid n [] = Unit {0}
AllValid n (s ∷ ss) = Valid n s × (suc n < 2 ^ 31) × AllValid (after n s) ss

abbrev pub after_all : ℕ → List Step → ℕ
after_all n [] = n
after_all n (s ∷ ss) = after_all (after n s) ss

-- A program whose steps name variables that are there, always less than 2^31 - 1, runs without a
-- fault: it uses no counter or object that was deleted, and deletes none twice. Every counter that is
-- left is the number of the variables that own it, and an object is left exactly if it has an owner.
pub steps-Inv :
    (ss : List Step) (m : Memory)
    → Inv m
    → AllValid (length m.vars) ss
    → Succeeds (λ m'. Inv m' × (length m'.vars ≡ after_all (length m.vars) ss)) (steps ss m)
unfolding steps
steps-Inv [] m inv v = (inv, refl)
steps-Inv (s ∷ ss) m inv v =
    Succeeds-bind _ _ (step s m) (steps ss) (step-Inv s m inv v.0 v.1) (λ m' k.
      Succeeds-map _ _ (steps ss m')
        (steps-Inv ss m' k.0 (subst (λ n. AllValid n ss) (sym k.1) v.2))
        (λ m'' r. (r.0, r.1 ∙ ap (λ n. after_all n ss) k.1)))

-- The end of so many variables.
abbrev pub leaves : ℕ → List Step
leaves zero = []
leaves (suc n) = leave ∷ leaves n

-- Every counter and every object was deleted.
abbrev pub AllDeleted : Store → Type 0
AllDeleted st =
    ((c n : ℕ) → get_elem? st.counts c ≢ some (some n))
    × ((d : ℕ) → get_elem? st.objects d ≢ some true)

Counted-zero :
    (k : Option (Option ℕ)) (o : Option Bool)
    → Counted k o 0
    → ((n : ℕ) → k ≢ some (some n)) × (o ≢ some true)
Counted-zero (some (some (suc k))) (some true) e = absurd (omega arith)
Counted-zero (some (some (suc k))) (some false) e = absurd e
Counted-zero (some (some (suc k))) none e = absurd e
Counted-zero (some (some zero)) o e = absurd e
Counted-zero (some none) (some false) e = (λ n z. cc, λ z. cc)
Counted-zero (some none) (some true) e = absurd e
Counted-zero (some none) none e = absurd e
Counted-zero none none e = (λ n z. cc, λ z. cc)
Counted-zero none (some b) e = absurd e

no_vars-AllDeleted : (m : Memory) → Inv m → length m.vars ≡ 0 → AllDeleted m.store
no_vars-AllDeleted m inv e =
    let gone : (c : ℕ) → owners c m.vars ≡ 0 = λ c. omega (arith, owners-below c m.vars) in
    let zero_of = λ (c : ℕ).
      Counted-zero (get_elem? m.store.counts c) (get_elem? m.store.objects c) (
        subst (Counted (get_elem? m.store.counts c) (get_elem? m.store.objects c)) (gone c)
          (inv.0.0 c)) in
    (λ c n. (zero_of c).0 n, λ d. (zero_of d).1)

leaves-valid : (n : ℕ) → n < 2 ^ 31 - 1 → AllValid n (leaves n) × (after_all n (leaves n) ≡ 0)
leaves-valid zero lt = (tt, refl)
leaves-valid (suc n) lt =
    let e : n ≡ suc n - 1 = omega arith in
    let rest = leaves-valid n (omega arith) in
    (
      (omega arith, omega arith, subst (λ k. AllValid k (leaves n)) e rest.0),
      subst (λ k. after_all k (leaves n) ≡ 0) e rest.1,
    )

-- When all its variables end after a program that named variables that are there, always less than
-- 2^31 - 1, every counter and every object that it made has been deleted.
pub steps-leaves :
    (ss : List Step)
    → AllValid 0 ss
    → after_all 0 ss < 2 ^ 31 - 1
    → Succeeds
        (λ m'. AllDeleted m'.store)
        (steps ss (record { vars = []; store = record { counts = []; objects = [] } }) >>= λ m.
          steps (leaves (length m.vars)) m)
steps-leaves ss v lt =
    let empty : Memory = record { vars = []; store = record { counts = []; objects = [] } } in
    Succeeds-bind _ _ (steps ss empty) _ (steps-Inv ss empty (((λ c. refl), refl), tt) v) (λ m k.
      let all = leaves-valid (length m.vars) (subst (λ n. n < 2 ^ 31 - 1) (sym k.1) lt) in
      Succeeds-map _ _ (steps (leaves (length m.vars)) m)
        (steps-Inv (leaves (length m.vars)) m k.0 all.0)
        (λ m' r. no_vars-AllDeleted m' r.0 (r.1 ∙ all.1)))
