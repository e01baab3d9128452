-- ===== src/StringClass/Slices.antt =====
-- substr, erase and find of liblxcd/string.cpp against take, drop and the first occurrence.
use ymir_project.Base.{
  ℕ, zero, suc, ◌+◌, ◌-◌, ◌%◌, ◌≤◌, ◌<◌, ◌≡◌, ◌≢◌, refl, sym, ap, subst, ◌∙◌, Option, none, some,
  List, [], ◌∷◌, ◌++◌, map, ◌||◌, arith, append_assoc, append-nil, ◌⊎◌, inl, inr, Bool-cases, ◌==◌,
  ==_ne, ==_iff, leb, ltb, if◌then◌else◌, leb_le, length, take, drop, get_elem?, length-append,
  length-map, length-drop, length-take, drop_all, take_all, drop-append_le, take-append_le,
  take-append, map-drop, map-take,
}
use ymir_project.Buffer.{Cell, Block, ◌>>=◌, fresh, write_at, terminated, memcpy}
use ymir_project.Buffer.Laws.{
  NoNul, NoNul-append, NoNul-take, NoNul-drop, length-terminated, length-fresh, cstr-terminated,
  strncpy_room, write_at_mid, write_at_lem, memcpy_lem,
}
use ymir_project.StringClass.{
  CxxString, cxx_string, from_range, substr, erase, find_char, strchr, npos, size_mod, sub_size,
}
use ymir_project.StringClass.Represents.{
  Represents, Yields, Yields-wrap, joined, Stands, Represents-terminated,
}

-- A string object that holds exactly `t`.
abbrev pub exact : List ℕ → CxxString
exact t = cxx_string (terminated t) (length t)

pub from_range_lem :
    (t : List ℕ) (n : ℕ) (src b : Block)
    → NoNul t
    → src ≡ map some t ++ b
    → n ≤ length t
    → from_range src n ≡ some (cxx_string (terminated (take n t)) n)
unfolding from_range
from_range_lem t n src b clean e le =
    rw
      (
        strncpy_room t n src b (fresh (n + 1)) clean e le (omega (arith, length-fresh (n + 1))),
        ← append-nil (drop n (fresh (n + 1))),
        write_at_mid n (map some (take n t)) (drop n (fresh (n + 1))) [] (some 0 ∷ [])
            (omega (arith, length-map {0, 0} {B = Cell} some (take n t), length-take n t))
            (omega (arith, length-drop n (fresh (n + 1)), length-fresh (n + 1))),
      )
      refl

pub drop-data_ :
    {s : CxxString} {t : List ℕ} (r : Represents s t) (n : ℕ)
    → n ≤ length t
    → drop n s.data_ ≡ map some (drop n t) ++ some 0 ∷ r.rest
drop-data_ {s} {t} r n le =
    rw
      (
        r.layout,
        drop-append_le n (map some t) (some 0 ∷ r.rest)
            (omega (arith, length-map {0, 0} {B = Cell} some t)),
        map-drop,
      )
      refl

cut :
    (s : CxxString) (t : List ℕ) (p n : ℕ)
    → Represents s t
    → p ≤ length t
    → n ≤ length t - p
    → Stands (take n (drop p t)) (from_range (drop p s.data_) n)
cut s t p n r le fits =
    rw
      (from_range_lem (drop p t) n (drop p s.data_) (some 0 ∷ r.rest) (NoNul-drop p t r.clean)
        (drop-data_ r p le) (omega (arith, length-drop p t)))
      (Represents-terminated (take n (drop p t)) n
        (omega (arith, length-take n (drop p t), length-drop p t))
        (NoNul-take n (drop p t) (NoNul-drop p t r.clean)))

drop_clamp :
    (t : List ℕ) (m pos : ℕ) → m ≡ length t → drop (if ltb m pos then m else pos) t ≡ drop pos t
drop_clamp t m pos e = elim (Bool-cases (ltb m pos)) [
  | inl past ↦ rw past (drop_all m t (omega arith) ∙ sym (drop_all pos t (ground arith)))
  | inr within ↦ rw within refl
]

take_clamp :
    (t : List ℕ) (m len : ℕ) → m ≡ length t → take (if ltb m len then m else len) t ≡ take len t
take_clamp t m len e = elim (Bool-cases (ltb m len)) [
  | inl past ↦ rw past (take_all m t (omega arith) ∙ sym (take_all len t (ground arith)))
  | inr within ↦ rw within refl
]

-- substr(pos, len) of an object that stands for a text does not fault, and stands for the text cut
-- out, for every position and length.
pub substr-Stands :
    (s : CxxString) (t : List ℕ) (pos len : ℕ)
    → Represents s t
    → Stands (take len (drop pos t)) (substr s pos len)
unfolding substr
substr-Stands s t pos len r =
    let p = if ltb s.size_ pos then s.size_ else pos in
    let n = if ltb (s.size_ - p) len then s.size_ - p else len in
    let e : take n (drop p t) ≡ take len (drop pos t) =
      take_clamp (drop p t) (s.size_ - p) len (omega (arith, r.sized, length-drop p t))
      ∙ ap (take len) (drop_clamp t s.size_ pos r.sized) in
    subst (λ u. Stands u (from_range (drop p s.data_) n)) e
      (cut s t p n r (ground (arith, r.sized)) (ground (arith, r.sized)))

take-data_ :
    {s : CxxString} {t : List ℕ} (r : Represents s t) (n : ℕ)
    → n ≤ length t
    → take n s.data_ ≡ map some (take n t)
take-data_ {s} {t} r n le =
    rw
      (
        r.layout,
        take-append_le n (map some t) (some 0 ∷ r.rest)
            (omega (arith, length-map {0, 0} {B = Cell} some t)),
        map-take,
      )
      refl

pub length-data_ : {s : CxxString} {t : List ℕ} → Represents s t → length t < length s.data_
length-data_ {s} {t} r = omega (
  arith,
  ap length r.layout,
  length-append {0} (map some t) (some 0 ∷ r.rest),
  length-map {0, 0} {B = Cell} some t,
)

terminate_at :
    (s : CxxString) (t : List ℕ) (n : ℕ)
    → Represents s t
    → n ≤ length t
    → Yields (λ b. Represents (cxx_string b n) (take n t)) (write_at n (some 0 ∷ []) s.data_)
terminate_at s t n r le =
    rw (write_at_lem n (some 0 ∷ []) s.data_ (omega (arith, length-data_ r))) (record {
      rest = drop (n + 1) s.data_;
      layout = rw (take-data_ r n le) refl;
      sized = omega (arith, length-take n t);
      clean = NoNul-take n t r.clean;
    })

-- The move of the bytes behind the gap, with the terminator.
close_gap :
    (s : CxxString) (t : List ℕ) (pos count k : ℕ)
    → Represents s t
    → pos + count < length t
    → k ≡ length t - (pos + count) + 1
    → Yields
        (λ b. Represents (cxx_string b (length t - count)) (take pos t ++ drop (pos + count) t))
        (memcpy pos s.data_ (pos + count) s.data_ k)
close_gap s t pos count k r lt e =
    let d = drop (pos + count) t in
    let long : length d ≡ length t - (pos + count) = length-drop (pos + count) t in
    rw
      (
        memcpy_lem pos (pos + count) k s.data_ s.data_ (terminated d)
            (omega (arith, length-data_ r)) moved,
        write_at_lem pos (terminated d) s.data_
            (omega (arith, length-data_ r, length-terminated d)),
        take-data_ r pos (omega arith),
      )
      (record {
        rest = drop (pos + length (terminated d)) s.data_;
        layout = joined (take pos t) d (drop (pos + length (terminated d)) s.data_);
        sized = omega (arith, length-append (take pos t) d, length-take pos t);
        clean =
            NoNul-append (take pos t) d (NoNul-take pos t r.clean)
              (NoNul-drop (pos + count) t r.clean);
      })
  where
    moved : take k (drop (pos + count) s.data_) ≡ terminated (drop (pos + count) t)
    moved =
        rw
          (
            drop-data_ r (pos + count) (omega arith),
            ← append_assoc (map some (drop (pos + count) t)) (some 0 ∷ []) r.rest,
          )
          (take-append (terminated (drop (pos + count) t)) r.rest k
            (omega (arith, length-terminated (drop (pos + count) t), length-drop (pos + count) t)))

-- erase(pos, count) on an object that stands for a text does not fault and removes the `count` bytes
-- at `pos`, as many as there are, if the count is `npos` or the sum of both does not wrap around.
pub erase-Stands :
    (s : CxxString) (t : List ℕ) (pos count : ℕ)
    → Represents s t
    → length t < npos
    → (count ≡ npos) ⊎ (pos + count < size_mod)
    → Stands (take pos t ++ drop (pos + count) t) (erase s pos count)
unfolding erase
erase-Stands s t pos count r small fits = elim (Bool-cases (leb s.size_ pos)) [
  | inl past ↦
      rw
        (
          past,
          take_all pos t (ground (arith, r.sized)),
          drop_all (pos + count) t (ground (arith, r.sized)),
          append-nil,
        )
        r
  | inr within ↦
      rw within (elim (Bool-cases ((count == npos) || leb s.size_ ((pos + count) % size_mod))) [
        | inl rest ↦
            rw (rest, drop_all (pos + count) t (ground (arith, r.sized)), append-nil)
              (Yields-wrap (λ s'. Represents s' (take pos t)) (λ b. cxx_string b pos)
                (write_at pos (some 0 ∷ []) s.data_)
                (terminate_at s t pos r (ground (arith, r.sized))))
        | inr gap ↦
            let lt : pos + count < length t = ground (arith, r.sized) in
            let left : sub_size s.size_ count ≡ length t - count = omega (arith, r.sized) in
            rw (gap, left)
              (Yields-wrap (λ s'. Represents s' (take pos t ++ drop (pos + count) t))
                (λ b. cxx_string b (length t - count))
                (memcpy pos s.data_ (pos + count) s.data_
                  ((sub_size (sub_size s.size_ pos) count + 1) % size_mod))
                (close_gap s t pos count _ r lt (omega (arith, r.sized))))
      ])
]

-- `x` stands at `i` in the text and at no earlier place.
abbrev pub FirstAt : ℕ → List ℕ → ℕ → Type 0
FirstAt x t i = (get_elem? t i ≡ some x) × ((j : ℕ) → j < i → get_elem? t j ≢ some x)

-- What the search for a byte answers: its first place, or that there is none.
abbrev pub Found : ℕ → List ℕ → Option ℕ → Type 0
Found x t none = (j : ℕ) → get_elem? t j ≢ some x
Found x t (some i) = FirstAt x t i

Found-cons :
    (c x : ℕ) (t : List ℕ) (o : Option ℕ)
    → c ≢ x
    → Found x t o
    → Found x (c ∷ t) (o >>= λ i. some (suc i))
Found-cons c x t none ne f = nowhere
  where
    nowhere : (j : ℕ) → get_elem? (c ∷ t) j ≢ some x
    nowhere zero e = ne (cc)
    nowhere (suc j) e = f j e
Found-cons c x t (some i) ne f = (f.0, λ j lt. before j lt)
  where
    before : (j : ℕ) → j < suc i → get_elem? (c ∷ t) j ≢ some x
    before zero lt e = ne (cc)
    before (suc j) lt e = f.1 j (omega arith) e

strchr-Found : (t : List ℕ) (x : ℕ) → 0 < x → Found x t (strchr t x)
unfolding strchr
strchr-Found [] x pos = rw (==_ne x 0 (omega arith)) (λ j e. cc)
strchr-Found (c ∷ t) x pos = elim (Bool-cases (c == x)) [
  | inl here ↦ rw here (ap some ((==_iff c x).0 here), λ j lt e. absurd (omega arith))
  | inr away ↦ rw away (Found-cons c x t (strchr t x) (ground arith) (strchr-Found t x pos))
]

-- find(c, pos), for a byte other than 0 and a position within the text, is the first place of `c` at
-- or behind `pos`, or npos where there is none.
pub find_char-Found :
    (s : CxxString) (t : List ℕ) (x pos : ℕ)
    → Represents s t
    → 0 < x
    → pos ≤ length t
    → (o : Option ℕ) × (find_char s x pos ≡ some (elim o [ none ↦ npos | some i ↦ pos + i ]))
      × Found x (drop pos t) o
unfolding find_char
find_char-Found s t x pos r nz le = (
  strchr (drop pos t) x,
  rw
      (
        leb_le pos (length s.data_) (omega (arith, length-data_ r)),
        drop-data_ r pos le,
        cstr-terminated (drop pos t) r.rest (NoNul-drop pos t r.clean),
      )
      refl,
  strchr-Found (drop pos t) x nz,
)
