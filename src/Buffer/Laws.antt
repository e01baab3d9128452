-- ===== src/Buffer/Laws.antt =====
-- How the C string functions act on blocks that hold a terminated text.
use Prim.Native.Nat.add
use ymir_project.Base.{
  ℕ, zero, suc, ◌+◌, ◌-◌, ◌≤◌, ◌<◌, ◌≡◌, refl, sym, ap, ◌∙◌, none, some, List, [], ◌∷◌, ◌++◌, map,
  arith, append_assoc, append-nil, ==_ne, leb_le, length, take, drop, length-append, length-map,
  length-replicate, length-take, take-append, drop-append,
}
use ymir_project.Buffer.{
  Cell, Block, fresh, cstr, write_at, slice, terminated, strcpy, strcat, cstr_upto, strncpy, memcpy,
}

replicate-add : (j k : ℕ) → fresh (j + k) ≡ fresh j ++ fresh k
unfolding fresh
replicate-add zero k = ap fresh (add.zero k)
replicate-add (suc j) k =
    let e : suc j + k ≡ suc (j + k) = omega arith in rw e (ap (◌∷◌ none) (replicate-add j k))

-- No byte of the text is the terminator.
abbrev pub NoNul : List ℕ → Type 0
NoNul [] = Unit {0}
NoNul (c ∷ t) = (0 < c) × NoNul t

pub NoNul-append : (t u : List ℕ) → NoNul t → NoNul u → NoNul (t ++ u)
NoNul-append [] u h k = k
NoNul-append (c ∷ t) u h k = (h.0, NoNul-append t u h.1 k)

pub NoNul-take : (n : ℕ) (t : List ℕ) → NoNul t → NoNul (take n t)
NoNul-take zero t h = tt
NoNul-take (suc n) [] h = tt
NoNul-take (suc n) (c ∷ t) h = (h.0, NoNul-take n t h.1)

pub NoNul-drop : (n : ℕ) (t : List ℕ) → NoNul t → NoNul (drop n t)
NoNul-drop zero t h = h
NoNul-drop (suc n) [] h = tt
NoNul-drop (suc n) (c ∷ t) h = NoNul-drop n t h.1

pub length-terminated : (t : List ℕ) → length (terminated t) ≡ length t + 1
length-terminated t =
    omega (arith, length-append {0} (map some t) (some 0 ∷ []), length-map {0, 0} {B = Cell} some t)

pub length-fresh : (n : ℕ) → length (fresh n) ≡ n
unfolding fresh
length-fresh n = length-replicate n none

-- strlen finds the text that a block starts with.
pub cstr-terminated : (t : List ℕ) (b : Block) → NoNul t → cstr (map some t ++ some 0 ∷ b) ≡ some t
unfolding cstr
cstr-terminated [] b h = refl
cstr-terminated (c ∷ t) b h = rw (==_ne c 0 (ground arith), cstr-terminated t b h.1) refl

pub cstr_upto-prefix :
    (t : List ℕ) (n : ℕ) (b : Block)
    → NoNul t
    → n ≤ length t
    → cstr_upto n (map some t ++ b) ≡ some (take n t)
unfolding cstr_upto
cstr_upto-prefix t zero b h le = refl
cstr_upto-prefix [] (suc n) b h le = absurd (omega arith)
cstr_upto-prefix (c ∷ t) (suc n) b h le =
    rw (==_ne c 0 (ground arith), cstr_upto-prefix t n b h.1 (omega arith)) refl

-- A write that fits between `p` and `r` replaces what lay there.
pub write_at_mid :
    (i : ℕ) (p q r xs : List Cell)
    → i ≡ length p
    → length q ≡ length xs
    → write_at i xs (p ++ (q ++ r)) ≡ some (p ++ (xs ++ r))
unfolding write_at
write_at_mid i p q r xs e f =
    rw
      (leb_le (i + length xs) (length (p ++ (q ++ r)))
        (omega (arith, length-append p (q ++ r), length-append q r)))
      (rw
        (
          take-append p (q ++ r) i e,
          ← append_assoc p q r,
          drop-append (p ++ q) r (i + length xs) (omega (arith, length-append p q)),
        )
        refl)

pub write_at_whole : (xs b : List Cell) → length xs ≡ length b → write_at 0 xs b ≡ some xs
write_at_whole xs b e =
    ap (write_at 0 xs) (sym (append-nil b))
    ∙ write_at_mid 0 [] b [] xs refl (sym e)
    ∙ ap some (append-nil xs)

-- A write at the front of a fresh block that it fits in exactly.
pub strcpy-fresh :
    (n : ℕ) (t : List ℕ) (src : Block)
    → cstr src ≡ some t
    → n ≡ length t + 1
    → strcpy 0 (fresh n) src ≡ some (terminated t)
unfolding strcpy
strcpy-fresh n t src e f =
    rw e
      (write_at_whole (terminated t) (fresh n) (omega (arith, length-terminated t, length-fresh n)))

-- A write at the front of a block that is large enough.
pub write_at_front :
    (xs b : List Cell) → length xs ≤ length b → write_at 0 xs b ≡ some (xs ++ drop (length xs) b)
unfolding write_at
write_at_front xs b le =
    let e : 0 + length xs ≡ length xs = omega arith in
    rw (leb_le (0 + length xs) (length b) (omega arith), e) refl

pub drop_past :
    (p : List Cell) (c : Cell) (b : Block) (j k : ℕ)
    → j ≡ length p + suc k
    → drop j (p ++ c ∷ b) ≡ drop k b
drop_past [] c b zero k e = absurd (omega arith)
drop_past [] c b (suc j) k e = let f : j ≡ k = omega arith in rw f
drop_past (x ∷ p) c b zero k e = absurd (omega arith)
drop_past (x ∷ p) c b (suc j) k e = drop_past p c b j k (omega arith)

-- A write that ends where the fresh block ends.
pub write_at-fresh :
    (i n : ℕ) (xs : List Cell) → i + length xs ≡ n → write_at i xs (fresh n) ≡ some (fresh i ++ xs)
write_at-fresh i n xs e = rw (fresh_split i (length xs) n e) (
    write_at_mid i (fresh i) (fresh (length xs)) [] xs (sym (length-fresh i))
      (length-fresh (length xs))
    ∙ ap (λ (r : List Cell). some (fresh i ++ r)) (append-nil xs))
  where
    fresh_split : (j k m : ℕ) → j + k ≡ m → fresh m ≡ fresh j ++ (fresh k ++ [])
    fresh_split j k m f = rw (append-nil, ← f) (replicate-add j k)

-- strcpy into a block with room: the text, its terminator, and the old cells behind them.
pub strcpy_room :
    (t : List ℕ) (b src : Block)
    → cstr src ≡ some t
    → length t < length b
    → strcpy 0 b src ≡ some (map some t ++ some 0 ∷ drop (length t + 1) b)
unfolding strcpy
strcpy_room t b src e lt =
    rw
      (
        e,
        write_at_front (terminated t) b (omega (arith, length-terminated t)),
        length-terminated t,
        append_assoc,
      )
      refl

-- strcat onto a block that holds `t` and has room for the rest.
pub strcat_room :
    (t u : List ℕ) (b src : Block)
    → NoNul t
    → cstr src ≡ some u
    → length u ≤ length b
    → strcat (map some t ++ some 0 ∷ b) src
      ≡ some (map some t ++ (terminated u ++ drop (length u) b))
unfolding strcat write_at
strcat_room t u b src clean e le =
    rw
      (
        cstr-terminated t b clean,
        e,
        leb_le (length t + length (terminated u)) (length (map some t ++ some 0 ∷ b)) (
            omega (
              arith,
              length-terminated u,
              length-append {0} (map some t) (some 0 ∷ b),
              length-map {0, 0} {B = Cell} some t,
            )),
        take-append (map some t) (some 0 ∷ b) (length t)
            (omega (arith, length-map {0, 0} {B = Cell} some t)),
        drop_past (map some t) (some 0) b (length t + length (terminated u)) (length u)
            (omega (arith, length-terminated u, length-map {0, 0} {B = Cell} some t)),
      )
      refl

-- strncpy into a block with room, when the source has at least `n` bytes.
pub strncpy_room :
    (t : List ℕ) (n : ℕ) (src b dst : Block)
    → NoNul t
    → src ≡ map some t ++ b
    → n ≤ length t
    → n ≤ length dst
    → strncpy dst src n ≡ some (map some (take n t) ++ drop n dst)
unfolding strncpy
strncpy_room t n src b dst clean e le fits =
    let long : length (take n t) ≡ n = omega (arith, length-take n t) in
    let short : n - n ≡ 0 = omega arith in
    let size : length (map some (take n t)) ≡ n =
      omega (arith, length-map {0, 0} {B = Cell} some (take n t)) in
    rw (e, cstr_upto-prefix t n b clean le, long, short, append-nil)
      (rw (write_at_front (map some (take n t)) dst (omega arith), size) refl)

-- A write within the block, and a copy out of one.
pub write_at_lem :
    (i : ℕ) (xs b : List Cell)
    → i + length xs ≤ length b
    → write_at i xs b ≡ some (take i b ++ (xs ++ drop (i + length xs) b))
unfolding write_at
write_at_lem i xs b le = rw (leb_le (i + length xs) (length b) le) refl

pub memcpy_lem :
    (i j n : ℕ) (b src xs : Block)
    → j + n ≤ length src
    → take n (drop j src) ≡ xs
    → memcpy i b j src n ≡ write_at i xs b
unfolding memcpy slice
memcpy_lem i j n b src xs le e = rw (leb_le (j + n) (length src) le, e) refl
