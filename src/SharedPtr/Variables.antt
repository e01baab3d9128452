-- ===== src/SharedPtr/Variables.antt =====
-- The invariant of the variables of a program, and what a reset of one keeps.
use ymir_project.Base.{
  arith, ℕ, zero, suc, ◌+◌, ◌-◌, ◌<◌, ◌≡◌, refl, ap, subst, some, List, [], ◌∷◌, length, length-set,
  get_elem?, set,
}
use mathlib.Core.Option.{some-injective}
use ymir_project.SharedPtr.{
  SharedPtr, null_ptr, Store, reset, Memory, reset_var, Step, declare, leave, make, copy, move,
  clear, assign, assign_move,
}
use ymir_project.SharedPtr.Owners.{own, owners, owners-set, own-owners}
use ymir_project.SharedPtr.Counters.{
  Balanced, Balanced-ext, Paired, Succeeds, Succeeds-bind, Succeeds-map, reset-Balanced,
}

abbrev pub AllPaired : List SharedPtr → Type 0
AllPaired [] = Unit {0}
AllPaired (p ∷ ps) = Paired p × AllPaired ps

-- Each counter that is left is the number of the variables that own it, and its object is left too.
abbrev pub Inv : Memory → Type 0
Inv m = Balanced (λ c. owners c m.vars) m.store × AllPaired m.vars

-- The variables that a step names are there, of `n`.
abbrev pub Valid : ℕ → Step → Type 0
Valid n declare = Unit {0}
Valid n leave = 0 < n
Valid n (make i) = i < n
Valid n (copy j) = j < n
Valid n (move j) = j < n
Valid n (clear i) = i < n
Valid n (assign i j) = (i < n) × (j < n)
Valid n (assign_move i j) = (i < n) × (j < n)

-- How many variables there are after a step.
abbrev pub after : ℕ → Step → ℕ
after n declare = suc n
after n leave = n - 1
after n (copy j) = suc n
after n (move j) = suc n
after n _ = n

pub Paired-null_ptr : Paired null_ptr
unfolding null_ptr
Paired-null_ptr = refl

pub own-null_ptr : (c : ℕ) → own c null_ptr ≡ 0
unfolding null_ptr
own-null_ptr c = refl

pub there :
    (ps : List SharedPtr) (i : ℕ) → i < length ps → (p : SharedPtr) × (get_elem? ps i ≡ some p)
there [] i lt = absurd (omega arith)
there (p ∷ ps) zero lt = (p, refl)
there (p ∷ ps) (suc i) lt = there ps i (omega arith)

pub AllPaired-set :
    (ps : List SharedPtr) (i : ℕ) (q : SharedPtr) → AllPaired ps → Paired q → AllPaired (set ps i q)
AllPaired-set [] i q a b = tt
AllPaired-set (p ∷ ps) zero q a b = (b, a.1)
AllPaired-set (p ∷ ps) (suc i) q a b = (a.0, AllPaired-set ps i q a.1 b)

pub AllPaired-get :
    (ps : List SharedPtr) (i : ℕ) (p : SharedPtr)
    → AllPaired ps
    → get_elem? ps i ≡ some p
    → Paired p
AllPaired-get [] i p a e = cc
AllPaired-get (q ∷ ps) zero p a e = subst Paired (some-injective q p e) a.0
AllPaired-get (q ∷ ps) (suc i) p a e = AllPaired-get ps i p a.1 e

-- What a reset of the i-th variable leaves, while `extra` counts for pointers that are no variables.
abbrev pub Cleared : (ℕ → ℕ) → ℕ → Memory → Memory → Type 0
Cleared extra i m m' =
    (m'.vars ≡ set m.vars i null_ptr)
    × Balanced (λ c. owners c (set m.vars i null_ptr) + extra c) m'.store

pub reset_var-Cleared :
    (extra : ℕ → ℕ) (i : ℕ) (m : Memory) (p : SharedPtr)
    → get_elem? m.vars i ≡ some p
    → AllPaired m.vars
    → Balanced (λ c. owners c m.vars + extra c) m.store
    → Succeeds (Cleared extra i m) (reset_var i m)
unfolding reset_var
reset_var-Cleared extra i m p e pairs b =
    rw (reset_var, e)
      (Succeeds-bind _ _ (reset p m.store) _
        (reset-Balanced (λ c. owners c m.vars + extra c) p m.store b
          (AllPaired-get m.vars i p pairs e) (λ c. omega (arith, own-owners c m.vars i p e)))
        (λ r k. (
          ap (set m.vars i) k.0,
          Balanced-ext (λ c. owners c m.vars + extra c - own c p)
              (λ c. owners c (set m.vars i null_ptr) + extra c) r.1
              (λ c. omega (
                arith,
                owners-set c m.vars i p null_ptr e,
                own-null_ptr c,
                own-owners c m.vars i p e,
              ))
              k.1,
        )))

-- What a step keeps.
abbrev pub Kept : ℕ → Memory → Type 0
Kept n m = Inv m × (length m.vars ≡ n)

-- The invariant, with the owners summed up in another way.
pub Inv-of :
    (owned : ℕ → ℕ) (vars : List SharedPtr) (st : Store)
    → Balanced owned st
    → ((c : ℕ) → owned c ≡ owners c vars)
    → AllPaired vars
    → Inv (record { vars = vars; store = st })
Inv-of owned vars st b e pairs = (Balanced-ext owned (λ c. owners c vars) st e b, pairs)

pub with_none : (m : Memory) → Inv m → Balanced (λ c. owners c m.vars + 0) m.store
with_none m inv =
    Balanced-ext (λ c. owners c m.vars) (λ c. owners c m.vars + 0) m.store (λ c. omega arith) inv.0

pub reset_var-Inv :
    (i : ℕ) (m : Memory)
    → Inv m
    → i < length m.vars
    → Succeeds (Kept (length m.vars)) (reset_var i m)
reset_var-Inv i m inv lt =
    let p = there m.vars i lt in
    Succeeds-map (Cleared (λ _. 0) i m) (Kept (length m.vars)) (reset_var i m)
      (reset_var-Cleared (λ _. 0) i m p.0 p.1 inv.1 (with_none m inv))
      (λ m' k.
        let pairs = AllPaired-set m.vars i null_ptr inv.1 Paired-null_ptr in
        rw k.0 (
          Inv-of (λ c. owners c (set m.vars i null_ptr) + 0) (set m.vars i null_ptr) m'.store k.1
              (λ c. omega arith) pairs,
          length-set m.vars i null_ptr,
        ))
