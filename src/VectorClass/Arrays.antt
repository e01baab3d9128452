-- ===== src/VectorClass/Arrays.antt =====
-- The loops of impl_vector.hpp on the lists that the arrays hold.
use ymir_project.Base.{
  ℕ, zero, suc, ◌+◌, ◌<◌, ◌≡◌, refl, ap, some, List, [], ◌∷◌, ◌++◌, arith, append_assoc, ltb_lt,
  length, get_elem?, set, replicate, length-append,
}
use ymir_project.VectorClass.{store, copy_loop, shift_loop, fill_loop, move_up}

module _ {ℓ} {A : Type ℓ} where
  pub get_elem?-middle :
      (xs ys : List A) (y : A) (i : ℕ) → i ≡ length xs → get_elem? (xs ++ y ∷ ys) i ≡ some y
  get_elem?-middle [] ys y zero e = refl
  get_elem?-middle [] ys y (suc i) e = absurd (omega arith)
  get_elem?-middle (x ∷ xs) ys y zero e = absurd (omega arith)
  get_elem?-middle (x ∷ xs) ys y (suc i) e = get_elem?-middle xs ys y i (omega arith)

  set-middle :
      (xs ys : List A) (y z : A) (i : ℕ) → i ≡ length xs → set (xs ++ y ∷ ys) i z ≡ xs ++ z ∷ ys
  set-middle [] ys y z zero e = refl
  set-middle [] ys y z (suc i) e = absurd (omega arith)
  set-middle (x ∷ xs) ys y z zero e = absurd (omega arith)
  set-middle (x ∷ xs) ys y z (suc i) e = ap (◌∷◌ x) (set-middle xs ys y z i (omega arith))

  pub store-middle :
      (xs ys : List A) (y z : A) (i : ℕ)
      → i ≡ length xs
      → store (xs ++ y ∷ ys) i z ≡ some (xs ++ z ∷ ys)
  unfolding store
  store-middle xs ys y z i e =
      rw
        (
          ltb_lt i (length (xs ++ y ∷ ys)) (omega (arith, length-append xs (y ∷ ys))),
          set-middle xs ys y z i e,
        )
        refl

  read :
      (p : List A) (y : A) (gap : List A) (x : A) (xs s : List A) (j : ℕ)
      → j ≡ length p + suc (length gap)
      → get_elem? (p ++ (y ∷ gap ++ (x ∷ xs ++ s))) j ≡ some x
  read p y gap x xs s j e =
      rw (← append_assoc p (y ∷ gap) (x ∷ xs ++ s))
        (get_elem?-middle (p ++ y ∷ gap) (xs ++ s) x j (omega (arith, length-append p (y ∷ gap))))

  regroup :
      (p gap : List A) (x : A) (xs s : List A)
      → p ++ x ∷ (gap ++ (x ∷ xs ++ s)) ≡ (p ++ x ∷ []) ++ ((gap ++ x ∷ []) ++ (xs ++ s))
  regroup p gap x xs s = simp append_assoc

  -- `xs` overwrites the cells `es` of the destination.
  pub copy_loop_lem :
      (n i : ℕ) (p q xs es s d : List A)
      → n ≡ length xs
      → n ≡ length es
      → i ≡ length p
      → i ≡ length q
      → copy_loop n i (q ++ (es ++ d)) (p ++ (xs ++ s)) ≡ some (q ++ (xs ++ d))
  unfolding copy_loop
  copy_loop_lem zero i p q [] [] s d a b e f = refl
  copy_loop_lem zero i p q (x ∷ xs) es s d a b e f = absurd (omega arith)
  copy_loop_lem zero i p q [] (y ∷ es) s d a b e f = absurd (omega arith)
  copy_loop_lem (suc n) i p q [] es s d a b e f = absurd (omega arith)
  copy_loop_lem (suc n) i p q (x ∷ xs) [] s d a b e f = absurd (omega arith)
  copy_loop_lem (suc n) i p q (x ∷ xs) (y ∷ es) s d a b e f =
      rw
        (
          get_elem?-middle p (xs ++ s) x i e,
          store-middle q (es ++ d) y x i f,
          ← append_assoc q (x ∷ []) (es ++ d),
          ← append_assoc p (x ∷ []) (xs ++ s),
          copy_loop_lem n (suc i) (p ++ x ∷ []) (q ++ x ∷ []) xs es s d (omega arith) (omega arith)
              (omega (arith, length-append p (x ∷ []))) (omega (arith, length-append q (x ∷ []))),
        )
        (ap some (append_assoc q (x ∷ []) (xs ++ d)))

  -- The elements `xs` at `j` move down over the gap `gap`; what was last stays behind them.
  pub shift_loop_lem :
      (n i j : ℕ) (p gap xs s : List A)
      → 0 < length gap
      → n ≡ length xs
      → i ≡ length p
      → j ≡ length p + length gap
      → (stale : List A) × (shift_loop n i j (p ++ (gap ++ (xs ++ s))) ≡ some (p ++ (xs ++ stale)))
        × (length stale ≡ length gap + length s)
  unfolding shift_loop
  shift_loop_lem zero i j p gap [] s g a e f = (gap ++ s, refl, length-append gap s)
  shift_loop_lem zero i j p gap (x ∷ xs) s g a e f = absurd (omega arith)
  shift_loop_lem (suc n) i j p gap [] s g a e f = absurd (omega arith)
  shift_loop_lem (suc n) i j p [] (x ∷ xs) s g a e f = absurd (omega arith)
  shift_loop_lem (suc n) i j p (y ∷ gap) (x ∷ xs) s g a e f =
      let ih =
        shift_loop_lem n (suc i) (suc j) (p ++ x ∷ []) (gap ++ x ∷ []) xs s
          (omega (arith, length-append gap (x ∷ []))) (omega arith)
          (omega (arith, length-append p (x ∷ [])))
          (omega (arith, length-append p (x ∷ []), length-append gap (x ∷ []))) in
      (
        ih.0,
        rw
            (
              read p y gap x xs s j f,
              store-middle p (gap ++ (x ∷ xs ++ s)) y x i e,
              regroup p gap x xs s,
              ih.1,
            )
            (ap some (append_assoc p (x ∷ []) (xs ++ ih.0))),
        omega (arith, ih.2, length-append gap (x ∷ [])),
      )

  -- Every cell from `i` on, `n` of them, gets `x`.
  pub fill_loop_lem :
      (n i : ℕ) (x : A) (p es s : List A)
      → n ≡ length es
      → i ≡ length p
      → fill_loop n i x (p ++ (es ++ s)) ≡ some (p ++ (replicate n x ++ s))
  unfolding fill_loop
  fill_loop_lem zero i x p [] s a e = refl
  fill_loop_lem zero i x p (y ∷ es) s a e = absurd (omega arith)
  fill_loop_lem (suc n) i x p [] s a e = absurd (omega arith)
  fill_loop_lem (suc n) i x p (y ∷ es) s a e =
      rw
        (
          store-middle p (es ++ s) y x i e,
          ← append_assoc p (x ∷ []) (es ++ s),
          fill_loop_lem n (suc i) x (p ++ x ∷ []) es s (omega arith)
              (omega (arith, length-append p (x ∷ []))),
        )
        (ap some (append_assoc p (x ∷ []) (replicate n x ++ s)))

  unsnoc :
      (n : ℕ) (xs : List A)
      → suc n ≡ length xs
      → (ys : List A) × (x : A) × (xs ≡ ys ++ x ∷ []) × (n ≡ length ys)
  unsnoc n [] e = absurd (omega arith)
  unsnoc zero (x ∷ []) e = ([], x, refl, refl)
  unsnoc zero (x ∷ z ∷ xs) e = absurd (omega arith)
  unsnoc (suc n) (x ∷ xs) e =
      let (ys, y, f, g) = unsnoc n xs (omega arith) in (x ∷ ys, y, ap (◌∷◌ x) f, ap suc g)

  -- The elements `xs` at `i` move up by one cell, over the free cell `y`; cell `i` stays to be
  -- written.
  pub move_up_lem :
      (n i : ℕ) (y : A) (p xs s : List A)
      → n ≡ length xs
      → i ≡ length p
      → (z : A) × (move_up n i (p ++ (xs ++ y ∷ s)) ≡ some (p ++ z ∷ (xs ++ s)))
  unfolding move_up
  move_up_lem zero i y p [] s a e = (y, refl)
  move_up_lem zero i y p (x ∷ xs) s a e = absurd (omega arith)
  move_up_lem (suc n) i y p xs s a e =
      let (ys, x, f, g) = unsnoc n xs a in
      let (z, h) = move_up_lem n i x p ys (x ∷ s) g e in
      let at : i + n ≡ length (p ++ ys) = omega (arith, length-append p ys) in
      (
        z,
        rw
            (
              f,
              append_assoc ys (x ∷ []) (y ∷ s),
              ← append_assoc p ys (x ∷ y ∷ s),
              get_elem?-middle (p ++ ys) (y ∷ s) x (i + n) at,
            )
            (rw
              (
                ← append_assoc (p ++ ys) (x ∷ []) (y ∷ s),
                store-middle ((p ++ ys) ++ x ∷ []) s y x (i + n + 1)
                    (omega (arith, length-append (p ++ ys) (x ∷ []))),
                append_assoc (p ++ ys) (x ∷ []) (x ∷ s),
                append_assoc p ys (x ∷ x ∷ s),
                h,
                append_assoc ys (x ∷ []) s,
              )
              refl),
      )
