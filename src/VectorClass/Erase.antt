-- ===== src/VectorClass/Erase.antt =====
-- erase and insert of impl_vector.hpp on the sequences that vectors hold.
use ymir_project.Base.{
  ℕ, zero, suc, ◌+◌, ◌-◌, ◌*◌, ◌≤◌, ◌<◌, ◌≡◌, refl, sym, ap, ◌∙◌, Bool-cases, inl, inr, none, some,
  List, [], ◌∷◌, ◌++◌, arith, append_assoc, ◌==◌, ==_ne, ==_self, ltb_lt, ltb_ge, length,
  length-append,
}
use ymir_project.VectorClass.{
  Vector, store, shift_loop, move_up, reserve, erase, erase_range, insert, pop_back, pop_times,
  empty_vector,
}
use ymir_project.VectorClass.Arrays.{store-middle, shift_loop_lem, move_up_lem}
use ymir_project.VectorClass.Growth.{IsVector, Holds, fits, reserve-Holds}

module _ {ℓ} {A : Type ℓ} (blank : A) where
  pop_times_lem :
      (n : ℕ) (v : Vector A) → n ≤ v.size_ → pop_times blank n v ≡ record v { size_ = v.size_ - n }
  unfolding pop_times pop_back
  pop_times_lem zero v le = let e : v.size_ - 0 ≡ v.size_ = omega arith in rw e refl
  pop_times_lem (suc n) v le =
      let e : v.size_ - 1 - n ≡ v.size_ - suc n = omega arith in
      rw (ltb_lt 0 v.size_ (omega arith))
        (pop_times_lem n (record v { size_ = v.size_ - 1 }) (omega arith) ∙ rw e refl)

  -- What the shift leaves, once the length is corrected.
  shifted :
      (v : Vector A) (p gap s : List A)
      → IsVector v (p ++ (gap ++ s))
      → 0 < length gap
      → (cells : List A) × (shift_loop
            (v.size_ - (length p + length gap))
            (length p)
            (length p + length gap)
            v.data_
          ≡ some cells)
        × IsVector (record v { data_ = cells; size_ = v.size_ - length gap }) (p ++ s)
  shifted v p gap s r pos =
      let n : v.size_ ≡ length p + (length gap + length s) =
        omega (arith, r.sized, length-append p (gap ++ s), length-append gap s) in
      let (stale, e, f) =
        shift_loop_lem (v.size_ - (length p + length gap)) (length p) (length p + length gap) p gap
          s r.spare pos (omega arith) refl refl in
      let whole : v.data_ ≡ p ++ (gap ++ (s ++ r.spare)) = r.layout ∙ simp append_assoc in
      (
        p ++ (s ++ stale),
        rw whole e,
        record {
          spare = stale;
          layout = sym (append_assoc p s stale);
          sized = omega (arith, length-append p s);
          allocated = omega (
            arith,
            r.allocated,
            ap length whole,
            length-append p (gap ++ (s ++ r.spare)),
            length-append gap (s ++ r.spare),
            length-append s r.spare,
            length-append p (s ++ stale),
            length-append s stale,
          );
        },
      )

  -- erase(first, last) on a vector that holds `p ++ gap ++ s` removes `gap`, the elements between
  -- the two iterators, and answers `first`.
  pub erase_range-Holds :
      (v : Vector A) (p gap s : List A)
      → IsVector v (p ++ (gap ++ s))
      → (w : Vector A) × (erase_range blank v (length p) (length p + length gap)
          ≡ some (w, length p))
        × IsVector w (p ++ s)
  unfolding erase_range
  erase_range-Holds v p [] s r =
      let e : length p + 0 ≡ length p = omega arith in (v, rw (e, ==_self (length p)) refl, r)
  erase_range-Holds v p (g ∷ gap) s r =
      let (cells, e, q) = shifted v p (g ∷ gap) s r (omega arith) in
      let k : length p + suc (length gap) - length p ≡ suc (length gap) = omega arith in
      (
        record v { data_ = cells; size_ = v.size_ - suc (length gap) },
        rw
            (
              ==_ne (length p) (length p + suc (length gap)) (omega arith),
              e,
              k,
              pop_times_lem (suc (length gap)) (record v { data_ = cells })
                  (omega (arith, r.sized, length-append p (g ∷ gap ++ s), length-append gap s)),
            )
            refl,
        q,
      )

  -- erase(pos) on a vector that holds `p ++ x ∷ s` removes `x`. The iterator that it answers is
  -- one past the place of the element that followed `x`.
  pub erase-Holds :
      (v : Vector A) (p : List A) (x : A) (s : List A)
      → IsVector v (p ++ x ∷ s)
      → (w : Vector A) × (erase blank v (length p) ≡ some (w, length p + 1)) × IsVector w (p ++ s)
  unfolding erase pop_back
  erase-Holds v p x s r =
      let (cells, e, q) = shifted v p (x ∷ []) s r (omega arith) in
      let n : length p < v.size_ = omega (arith, r.sized, length-append p (x ∷ s)) in
      (
        record v { data_ = cells; size_ = v.size_ - 1 },
        rw (==_ne (length p) v.size_ (omega arith), e, ltb_lt 0 v.size_ (omega arith)) refl,
        q,
      )

  -- The memmove and the write of insert, on a vector with room.
  opened :
      (v : Vector A) (p s : List A) (x : A)
      → IsVector v (p ++ s)
      → v.size_ < v.capacity_
      → (cells : List A) × (cells' : List A) × (move_up (v.size_ - length p) (length p) v.data_
          ≡ some cells)
        × (store cells (length p) x ≡ some cells')
        × IsVector (record v { data_ = cells'; size_ = v.size_ + 1 }) (p ++ x ∷ s)
  opened v p s x r lt = room r.spare r.layout
    where
      room :
          (spare : List A)
          → v.data_ ≡ (p ++ s) ++ spare
          → (cells : List A) × (cells' : List A) × (move_up (v.size_ - length p) (length p) v.data_
              ≡ some cells)
            × (store cells (length p) x ≡ some cells')
            × IsVector (record v { data_ = cells'; size_ = v.size_ + 1 }) (p ++ x ∷ s)
      room [] e =
          absurd (omega (arith, r.allocated, r.sized, ap length e, length-append (p ++ s) []))
      room (y ∷ spare) e =
          let n : v.size_ - length p ≡ length s = omega (arith, r.sized, length-append p s) in
          let (z, f) = move_up_lem (v.size_ - length p) (length p) y p s spare n refl in
          (
            p ++ z ∷ (s ++ spare),
            p ++ x ∷ (s ++ spare),
            rw (e, append_assoc p s (y ∷ spare)) f,
            store-middle p (s ++ spare) z x (length p) refl,
            record {
              spare = spare;
              layout = sym (append_assoc p (x ∷ s) spare);
              sized = omega (arith, r.sized, length-append p s, length-append p (x ∷ s));
              allocated = omega (
                arith,
                r.allocated,
                ap length e,
                length-append (p ++ s) (y ∷ spare),
                length-append p s,
                length-append p (x ∷ (s ++ spare)),
                length-append s spare,
              );
            },
          )

  -- insert(pos, x) puts `x` between `p` and `s`, if the array has a cell.
  pub insert-Holds :
      (v : Vector A) (p s : List A) (x : A)
      → IsVector v (p ++ s)
      → 0 < v.capacity_
      → Holds (p ++ x ∷ s) (insert blank v (length p) x)
  unfolding insert
  insert-Holds v p s x r pos = elim (Bool-cases (v.size_ == v.capacity_)) [
    | inl full ↦
        let (w, e, q, big, _) = reserve-Holds blank v (p ++ s) (v.capacity_ * 2) r in
        let (cells, cells', f, g, k) = opened w p s x q (ground (arith, q.sized, r.sized)) in
        (_, rw (full, e, f, g) refl, k)
    | inr room ↦
        let (cells, cells', f, g, k) = opened v p s x r (ground (arith, fits r)) in
        (_, rw (room, f, g) refl, k)
  ]

  -- insert on a default-constructed vector writes outside of the array, at every position.
  pub insert-empty_vector : (index : ℕ) (x : A) → insert blank (empty_vector blank) index x ≡ none
  unfolding insert empty_vector reserve move_up store
  insert-empty_vector index x =
      let e : 0 - index ≡ 0 = omega arith in rw (e, ltb_ge index 0 (omega arith)) refl
