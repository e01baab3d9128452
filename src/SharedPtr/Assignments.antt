-- ===== src/SharedPtr/Assignments.antt =====
-- What the constructors and assignments of the variables keep.
use ymir_project.Base.{
  arith, ℕ, suc, ◌+◌, ◌-◌, ◌^◌, ◌<◌, ◌≡◌, ◌≢◌, refl, sym, ap, ◌∙◌, inl, inr, some, List, [], ◌∷◌,
  ◌==◌, length, length-set, ne_of, get_elem?, set, get_elem?-set, get_elem?-set_ne, Bool-cases,
}
use ymir_project.SharedPtr.{
  SharedPtr, null_ptr, Store, make_shared, share, reset, Memory, copy_construct, move_construct,
  reset_var, copy_assign, move_assign, leave, make, step,
}
use ymir_project.SharedPtr.Owners.{own, owners, owners-set, own-owners, owners-below}
use ymir_project.SharedPtr.Counters.{
  Succeeds, Succeeds-bind, make_shared-Balanced, make_shared-Paired, share-Balanced, reset-Balanced,
}
use ymir_project.SharedPtr.Variables.{
  Inv, Paired-null_ptr, own-null_ptr, there, AllPaired-set, AllPaired-get, Cleared,
  reset_var-Cleared, Kept, Inv-of, with_none,
}

pub small_owners :
    (c : ℕ) (ps : List SharedPtr) → suc (length ps) < 2 ^ 31 → suc (owners c ps) < 2 ^ 31
small_owners c ps lt = omega (arith, owners-below c ps)

pub copy_construct-Inv :
    (j : ℕ) (m : Memory)
    → Inv m
    → j < length m.vars
    → suc (length m.vars) < 2 ^ 31
    → Succeeds (Kept (suc (length m.vars))) (copy_construct j m)
unfolding copy_construct
copy_construct-Inv j m inv lt small =
    let q = there m.vars j lt in
    rw (copy_construct, q.1)
      (Succeeds-bind _ _ (share q.0 m.store) _
        (share-Balanced (λ c. owners c m.vars) q.0 m.store inv.0
          (λ c. own-owners c m.vars j q.0 q.1) (λ c. small_owners c m.vars small))
        (λ st b. (
          Inv-of (λ c. owners c m.vars + own c q.0) (q.0 ∷ m.vars) st b (λ c. omega arith)
              (AllPaired-get m.vars j q.0 inv.1 q.1, inv.1),
          refl,
        )))

pub move_construct-Inv :
    (j : ℕ) (m : Memory)
    → Inv m
    → j < length m.vars
    → Succeeds (Kept (suc (length m.vars))) (move_construct j m)
unfolding move_construct
move_construct-Inv j m inv lt =
    let q = there m.vars j lt in
    rw (move_construct, q.1)
      (
        Inv-of (λ c. owners c m.vars) (q.0 ∷ set m.vars j null_ptr) m.store inv.0
            (λ c. omega (arith, owners-set c m.vars j q.0 null_ptr q.1, own-null_ptr c))
            (
              AllPaired-get m.vars j q.0 inv.1 q.1,
              AllPaired-set m.vars j null_ptr inv.1 Paired-null_ptr,
            ),
        ap suc (length-set m.vars j null_ptr),
      )

pub copy_assign-Inv :
    (i j : ℕ) (m : Memory)
    → Inv m
    → i < length m.vars
    → j < length m.vars
    → suc (length m.vars) < 2 ^ 31
    → Succeeds (Kept (length m.vars)) (copy_assign i j m)
unfolding copy_assign
copy_assign-Inv i j m inv li lj small = elim (Bool-cases (i == j)) [
  | inl y ↦ rw (copy_assign, y) (inv, refl)
  | inr n ↦
      let p = there m.vars i li in
      let q = there m.vars j lj in
      let vars = set m.vars i null_ptr in
      let still : get_elem? vars j ≡ some q.0 =
        get_elem?-set_ne m.vars i j null_ptr (λ e. ne_of i j n (sym e)) ∙ q.1 in
      let long : length vars ≡ length m.vars = length-set m.vars i null_ptr in
      rw (copy_assign, n)
        (Succeeds-bind (Cleared (λ _. 0) i m) _ (reset_var i m) _
          (reset_var-Cleared (λ _. 0) i m p.0 p.1 inv.1 (with_none m inv))
          (λ m' k.
            rw (k.0, still)
              (Succeeds-bind _ _ (share q.0 m'.store) _
                (share-Balanced (λ c. owners c vars + 0) q.0 m'.store k.1
                  (λ c. omega (arith, own-owners c vars j q.0 still))
                  (λ c. omega (arith, owners-below c vars)))
                (λ st b. (
                  Inv-of (λ c. owners c vars + 0 + own c q.0) (set vars i q.0) st b
                      (λ c. omega (
                        arith,
                        owners-set c vars i null_ptr q.0 (get_elem?-set m.vars i null_ptr li),
                        own-null_ptr c,
                      ))
                      (AllPaired-set vars i q.0
                        (AllPaired-set m.vars i null_ptr inv.1 Paired-null_ptr)
                        (AllPaired-get m.vars j q.0 inv.1 q.1)),
                  length-set vars i q.0 ∙ long,
                )))))
]

pub move_assign-Inv :
    (i j : ℕ) (m : Memory)
    → Inv m
    → i < length m.vars
    → j < length m.vars
    → Succeeds (Kept (length m.vars)) (move_assign i j m)
unfolding move_assign
move_assign-Inv i j m inv li lj = elim (Bool-cases (i == j)) [
  | inl y ↦ rw (move_assign, y) (inv, refl)
  | inr n ↦
      let p = there m.vars i li in
      let q = there m.vars j lj in
      let vars = set m.vars i null_ptr in
      let moved = set vars i q.0 in
      let other : j ≢ i = λ e. ne_of i j n (sym e) in
      let still : get_elem? vars j ≡ some q.0 = get_elem?-set_ne m.vars i j null_ptr other ∙ q.1 in
      let stays : get_elem? moved j ≡ some q.0 = get_elem?-set_ne vars i j q.0 other ∙ still in
      let pairs = AllPaired-set m.vars i null_ptr inv.1 Paired-null_ptr in
      rw (move_assign, n)
        (Succeeds-bind (Cleared (λ _. 0) i m) _ (reset_var i m) _
          (reset_var-Cleared (λ _. 0) i m p.0 p.1 inv.1 (with_none m inv))
          (λ m' k.
            rw (k.0, still)
              (
                Inv-of (λ c. owners c vars + 0) (set moved j null_ptr) m'.store k.1
                    (λ c. omega (
                      arith,
                      owners-set c vars i null_ptr q.0 (get_elem?-set m.vars i null_ptr li),
                      owners-set c moved j q.0 null_ptr stays,
                      own-null_ptr c,
                    ))
                    (AllPaired-set moved j null_ptr
                      (AllPaired-set vars i q.0 pairs (AllPaired-get m.vars j q.0 inv.1 q.1))
                      Paired-null_ptr),
                length-set moved j null_ptr ∙ length-set vars i q.0 ∙ length-set m.vars i null_ptr,
              )))
]

pub make-Inv :
    (i : ℕ) (m : Memory)
    → Inv m
    → i < length m.vars
    → Succeeds (Kept (length m.vars)) (step (make i) m)
unfolding step
make-Inv i m inv lt =
    let p = there m.vars i lt in
    let made = make_shared m.store in
    let vars = set m.vars i null_ptr in
    let extra : ℕ → ℕ = λ c. own c made.0 in
    let m₁ : Memory = record m { store = made.1 } in
    Succeeds-bind (Cleared extra i m₁) _ (reset_var i m₁) _
      (reset_var-Cleared extra i m₁ p.0 p.1 inv.1
        (make_shared-Balanced (λ c. owners c m.vars) m.store inv.0))
      (λ m' k. rw k.0 (
        Inv-of (λ c. owners c vars + extra c) (set vars i made.0) m'.store k.1
            (λ c. omega (
              arith,
              owners-set c vars i null_ptr made.0 (get_elem?-set m.vars i null_ptr lt),
              own-null_ptr c,
            ))
            (AllPaired-set vars i made.0 (AllPaired-set m.vars i null_ptr inv.1 Paired-null_ptr)
              (make_shared-Paired (λ c. owners c m.vars) m.store inv.0)),
        length-set vars i made.0 ∙ length-set m.vars i null_ptr,
      ))

pub leave-Inv :
    (vars : List SharedPtr) (st : Store)
    → Inv (record { vars = vars; store = st })
    → 0 < length vars
    → Succeeds (Kept (length vars - 1)) (step leave (record { vars = vars; store = st }))
unfolding step
leave-Inv [] st inv lt = absurd (omega arith)
leave-Inv (p ∷ ps) st inv lt =
    Succeeds-bind _ _ (reset p st) _
      (reset-Balanced (λ c. own c p + owners c ps) p st inv.0 inv.1.0 (λ c. omega arith))
      (λ r k. (
        Inv-of (λ c. own c p + owners c ps - own c p) ps r.1 k.1 (λ c. omega arith) inv.1.1,
        omega arith,
      ))
