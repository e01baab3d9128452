-- ===== src/StringClass/Resize.antt =====
-- resize, reserve and operator+= of liblxcd/string.cpp: the bytes and the recorded length.
use ymir_project.Base.{
  ℕ, suc, ◌+◌, ◌-◌, ◌*◌, ◌<◌, ◌≡◌, refl, ap, some, List, ◌∷◌, ◌++◌, map, arith, leb_gt, length,
  drop, replicate, length-append, length-replicate, drop_all,
}
use ymir_project.Buffer.{Cell, Block, fresh, cstr, terminated}
use ymir_project.Buffer.Laws.{length-fresh, strcpy_room, strcat_room, write_at-fresh, drop_past}
use ymir_project.StringClass.{CxxString, cxx_string, resize, append_assign_cstr}
use ymir_project.StringClass.Represents.{Represents, cstr-data_, joined}

zeros : ℕ → Block
zeros n = replicate n (some 0)

module _ (t : List ℕ) (size n : ℕ) (e : size ≡ length t) (lt : size < n) where
  padding : drop (length t + 1) (fresh size ++ zeros (n - size + 1)) ≡ zeros (n - size)
  unfolding zeros
  padding =
      let f : n - size + 1 ≡ suc (n - size) = omega arith in
      rw f (
        drop_past (fresh size) (some 0) (replicate (n - size) (some 0)) (length t + 1) 0
          (omega (arith, length-fresh size)))

-- resize to more than `size_`: the text is kept, zero bytes fill the new block, and `size_` is the
-- requested length.
pub resize_grow :
    (s : CxxString) (t : List ℕ) (n : ℕ)
    → Represents s t
    → s.size_ < n
    → resize s n ≡ some (cxx_string (map some t ++ some 0 ∷ replicate (n - s.size_) (some 0)) n)
unfolding resize zeros
resize_grow s t n r lt =
    rw
      (
        leb_gt n s.size_ lt,
        write_at-fresh s.size_ (n + 1) (replicate (n - s.size_ + 1) (some 0))
            (omega (arith, length-replicate {0} {A = Cell} (n - s.size_ + 1) (some 0))),
        strcpy_room t (fresh s.size_ ++ replicate (n - s.size_ + 1) (some 0)) s.data_ (cstr-data_ r)
            (omega (
              arith,
              r.sized,
              length-append (fresh s.size_) (replicate (n - s.size_ + 1) (some 0)),
              length-fresh s.size_,
              length-replicate {0} {A = Cell} (n - s.size_ + 1) (some 0),
            )),
        padding t s.size_ n r.sized lt,
      )
      refl

-- operator+=(const char*) of a text that is not empty, to an object that stands for a text: the
-- bytes are those of both texts, and the recorded length counts the appended text twice.
pub append_assign_cstr_lem :
    (s : CxxString) (t u : List ℕ) (str : Block)
    → Represents s t
    → cstr str ≡ some u
    → 0 < length u
    → append_assign_cstr s str ≡ some (cxx_string (terminated (t ++ u)) (length t + 2 * length u))
unfolding append_assign_cstr
append_assign_cstr_lem s t u str r e pos =
    rw
      (
        e,
        resize_grow s t (s.size_ + length u) r (omega arith),
        strcat_room t u zeros' str r.clean e (omega (arith, room)),
        joined t u (drop (length u) zeros'),
        drop_all (length u) zeros' (omega (arith, room)),
      )
      (ap (λ (n : ℕ). some (cxx_string (terminated (t ++ u)) n)) (omega (arith, r.sized)))
  where
    zeros' : Block
    zeros' = replicate (s.size_ + length u - s.size_) (some 0)

    room : length zeros' ≡ length u
    room = omega (arith, length-replicate {0} {A = Cell} (s.size_ + length u - s.size_) (some 0))
