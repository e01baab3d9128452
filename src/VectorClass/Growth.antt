-- ===== src/VectorClass/Growth.antt =====
-- Vectors as sequences: construction, copies, growth and push_back of impl_vector.hpp.
use ymir_project.Base.{
  ℕ, ◌+◌, ◌*◌, ◌≤◌, ◌<◌, ◌≡◌, refl, sym, ap, subst, Bool-cases, inl, inr, Option, some, List, [],
  ◌∷◌, ◌++◌, arith, append_assoc, ◌==◌, ltb, if◌then◌else◌, length, take, drop, replicate,
  length-append, length-replicate, length-take, length-drop, take-append-drop,
}
use ymir_project.VectorClass.{Vector, vector, store, copy_loop, copy, reserve, push_back}
use ymir_project.VectorClass.Arrays.{store-middle, copy_loop_lem}

-- The first `size_` cells are the sequence, and `capacity_` is the length of the array.
pub record IsVector {ℓ} {A : Type ℓ} (v : Vector A) (xs : List A) : Type ℓ where
  pub spare : List A
  pub layout : v.data_ ≡ xs ++ spare
  pub sized : v.size_ ≡ length xs
  pub allocated : v.capacity_ ≡ length v.data_

-- The operation does not fault, and its vector holds the sequence.
abbrev pub Holds {ℓ} : {A : Type ℓ} → List A → Option (Vector A) → Type ℓ
Holds {A} xs o = (v : Vector A) × (o ≡ some v) × IsVector v xs

pub fits {ℓ} : {A : Type ℓ} {v : Vector A} {xs : List A} → IsVector v xs → v.size_ ≤ v.capacity_
fits {v} {xs} r = omega (arith, r.sized, r.allocated, ap length r.layout, length-append xs r.spare)

module _ {ℓ} {A : Type ℓ} (blank : A) where
  -- The copy of `xs` into the front of a new array of `c` cells.
  copied :
      (xs spare : List A) (n c : ℕ)
      → n ≡ length xs
      → n ≤ c
      → copy_loop n 0 (replicate c blank) (xs ++ spare) ≡ some (xs ++ drop n (replicate c blank))
  copied xs spare n c e le =
      subst (λ b. copy_loop n 0 b (xs ++ spare) ≡ some (xs ++ drop n (replicate c blank)))
        (take-append-drop n (replicate c blank))
        (copy_loop_lem n 0 [] [] xs (take n (replicate c blank)) spare (drop n (replicate c blank))
          e (omega (arith, length-take n (replicate c blank), length-replicate c blank)) refl refl)

  fresh-IsVector :
      (xs : List A) (n c : ℕ)
      → n ≡ length xs
      → n ≤ c
      → IsVector (vector (xs ++ drop n (replicate c blank)) n c) xs
  fresh-IsVector xs n c e le = record {
    spare = drop n (replicate c blank);
    layout = refl;
    sized = e;
    allocated = omega (
      arith,
      length-append xs (drop n (replicate c blank)),
      length-drop n (replicate c blank),
      length-replicate c blank,
    );
  }

  -- Copying does not fault and gives a vector with the same sequence.
  pub copy-Holds : (v : Vector A) (xs : List A) → IsVector v xs → Holds xs (copy blank v)
  unfolding copy
  copy-Holds v xs r = (
    _,
    rw (r.layout, copied xs r.spare v.size_ v.capacity_ r.sized (fits r)) refl,
    fresh-IsVector xs v.size_ v.capacity_ r.sized (fits r),
  )

  -- reserve keeps the sequence, reaches the requested capacity, and never shrinks.
  pub reserve-Holds :
      (v : Vector A) (xs : List A) (c : ℕ)
      → IsVector v xs
      → (w : Vector A) × (reserve blank v c ≡ some w)
        × IsVector w xs
        × (c ≤ w.capacity_)
        × (v.capacity_ ≤ w.capacity_)
  unfolding reserve
  reserve-Holds v xs c r = elim (Bool-cases (ltb v.capacity_ c)) [
    | inl grows ↦
        let le : v.size_ ≤ c = ground (arith, fits r) in
        (
          _,
          rw (grows, r.layout, copied xs r.spare v.size_ c r.sized le) refl,
          fresh-IsVector xs v.size_ c r.sized le,
          omega arith,
          ground arith,
        )
    | inr enough ↦ (v, rw enough refl, r, ground arith, omega arith)
  ]

  -- A vector with room takes one more element behind the sequence.
  pub store_last :
      (v : Vector A) (xs : List A) (x : A)
      → IsVector v xs
      → v.size_ < v.capacity_
      → (cells : List A) × (store v.data_ v.size_ x ≡ some cells)
        × IsVector (record v { data_ = cells; size_ = v.size_ + 1 }) (xs ++ x ∷ [])
  store_last v xs x r lt = room r.spare r.layout
    where
      room :
          (spare : List A)
          → v.data_ ≡ xs ++ spare
          → (cells : List A) × (store v.data_ v.size_ x ≡ some cells)
            × IsVector (record v { data_ = cells; size_ = v.size_ + 1 }) (xs ++ x ∷ [])
      room [] e = absurd (omega (arith, r.allocated, r.sized, ap length e, length-append xs []))
      room (y ∷ spare) e = (
        xs ++ x ∷ spare,
        rw e (store-middle xs spare y x v.size_ r.sized),
        record {
          spare = spare;
          layout = sym (append_assoc xs (x ∷ []) spare);
          sized = omega (arith, r.sized, length-append xs (x ∷ []));
          allocated = omega (
            arith,
            r.allocated,
            ap length e,
            length-append xs (y ∷ spare),
            length-append xs (x ∷ spare),
          );
        },
      )

  -- push_back appends one element, whether or not the array has to grow.
  pub push_back-Holds :
      (v : Vector A) (xs : List A) (x : A)
      → IsVector v xs
      → Holds (xs ++ x ∷ []) (push_back blank v x)
  unfolding push_back
  push_back-Holds v xs x r = elim (Bool-cases (v.size_ == v.capacity_)) [
    | inl full ↦
        let c = if v.capacity_ == 0 then 1 else v.capacity_ * 2 in
        let (w, e, q, big, _) = reserve-Holds v xs c r in
        let (cells, f, s) = store_last w xs x q (ground (arith, q.sized, r.sized)) in
        (_, rw (full, e, f) refl, s)
    | inr room ↦
        let (cells, f, s) = store_last v xs x r (ground (arith, fits r)) in
        (_, rw (room, f) refl, s)
  ]
