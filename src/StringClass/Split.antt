-- ===== src/StringClass/Split.antt =====
-- split of liblxcd/string.cpp: the tokens between the delimiters.
use ymir_project.Base.{
  ℕ, zero, suc, ◌+◌, ◌-◌, ◌≡◌, ◌≢◌, refl, sym, ap, ◌∙◌, Bool, true, false, ◌||◌, some, List, [],
  ◌∷◌, ◌++◌, map, arith, append_assoc, append-nil, map-append, inl, inr, Bool-cases, ◌==◌, ==_ne,
  ==_iff, if◌then◌else◌, length, drop, get_elem?, length-append, length-map, drop-append, take_all,
}
use ymir_project.Buffer.{Cell, Block}
use ymir_project.Buffer.Laws.{NoNul, NoNul-append}
use ymir_project.StringClass.{CxxString, from_range, split, split_loop}
use ymir_project.StringClass.Represents.{Represents}
use ymir_project.StringClass.Slices.{exact, from_range_lem}

-- The tokens of `t`, with `q` read already of the first one.
unfoldable pub tokens_from : ℕ → List ℕ → List ℕ → List (List ℕ)
tokens_from x q [] = q ∷ []
tokens_from x q (c ∷ t) =
    let next = tokens_from x [] t in
    let more = tokens_from x (q ++ c ∷ []) t in if c == x then q ∷ next else more

unfoldable pub tokens : ℕ → List ℕ → List (List ℕ)
tokens x t = tokens_from x [] t

unfoldable pub join : ℕ → List (List ℕ) → List ℕ
join x [] = []
join x (t ∷ []) = t
join x (t ∷ u ∷ ts) = t ++ x ∷ join x (u ∷ ts)

get_elem?-middle :
    (xs ys : List Cell) (y : Cell) (i : ℕ) → i ≡ length xs → get_elem? (xs ++ y ∷ ys) i ≡ some y
get_elem?-middle [] ys y zero e = refl
get_elem?-middle [] ys y (suc i) e = absurd (omega arith)
get_elem?-middle (x ∷ xs) ys y zero e = absurd (omega arith)
get_elem?-middle (x ∷ xs) ys y (suc i) e = get_elem?-middle xs ys y i (omega arith)

-- The token that ends at `i` is the text between the two indices.
token :
    (p q tail b : Block) (t : List ℕ) (i start : ℕ)
    → NoNul t
    → q ≡ map some t
    → b ≡ p ++ (q ++ tail)
    → start ≡ length p
    → i ≡ start + length t
    → from_range (drop start b) (i - start) ≡ some (exact t)
token p q tail b t i start clean d e f g =
    let n : i - start ≡ length t = omega arith in
    rw
      (
        n,
        from_range_lem t (length t) (drop start b) tail clean
            (rw (e, d) (drop-append p (map some t ++ tail) start f)) (omega arith),
        take_all (length t) t (omega arith),
      )
      refl

or_right : (b : Bool) → (b || true) ≡ true
or_right true = refl
or_right false = refl

cell_at :
    (p q rest b : Block) (y : Cell) (i : ℕ)
    → b ≡ p ++ (q ++ y ∷ rest)
    → i ≡ length p + length q
    → get_elem? b i ≡ some y
cell_at p q rest b y i e f =
    rw (e, ← append_assoc p q (y ∷ rest))
      (get_elem?-middle (p ++ q) rest y i (omega (arith, length-append p q)))

shift :
    (c : ℕ) (r p q : List ℕ) (rest : Block)
    → map some p ++ (map some q ++ (map some (c ∷ r) ++ some 0 ∷ rest))
      ≡ map some (p ++ (q ++ c ∷ [])) ++ (map some r ++ some 0 ∷ rest)
shift c r p q rest = simp (map-append, append_assoc)

extend :
    (c : ℕ) (r p q : List ℕ) (rest : Block)
    → map some p ++ (map some q ++ (map some (c ∷ r) ++ some 0 ∷ rest))
      ≡ map some p ++ (map some (q ++ c ∷ []) ++ (map some r ++ some 0 ∷ rest))
extend c r p q rest = simp (map-append, append_assoc)

-- From index `i` on, with `p` before the token, `q` read of it and `r` to come.
split_loop_lem :
    (x : ℕ) (r p q : List ℕ) (rest b : Block) (n i start : ℕ)
    → NoNul q
    → NoNul r
    → b ≡ map some p ++ (map some q ++ (map some r ++ some 0 ∷ rest))
    → n ≡ length r + 1
    → start ≡ length p
    → i ≡ start + length q
    → split_loop b x n i start ≡ some (map exact (tokens_from x q r))
unfolding split_loop tokens_from
split_loop_lem x r p q rest b zero i start cq cr e en es ei = absurd (omega arith)
split_loop_lem x [] p q rest b (suc n) i start cq cr e en es ei =
    let z : n ≡ 0 = omega arith in
    rw
      (
        cell_at (map some p) (map some q) rest b (some 0) i e (
            omega
              (arith, length-map {0, 0} {B = Cell} some p, length-map {0, 0} {B = Cell} some q)),
        or_right (0 == x),
        token (map some p) (map some q) (some 0 ∷ rest) b q i start cq refl e
            (omega (arith, length-map {0, 0} {B = Cell} some p)) ei,
        z,
      )
      refl
split_loop_lem x (c ∷ r) p q rest b (suc n) i start cq cr e en es ei =
    let lp = length-map {0, 0} {B = Cell} some p in
    let lq = length-map {0, 0} {B = Cell} some q in
    rw
      (
        cell_at (map some p) (map some q) (map some r ++ some 0 ∷ rest) b (some c) i e
            (omega (arith, lp, lq)),
        ==_ne c 0 (ground (arith, cr.0)),
      )
      (elim (Bool-cases (c == x)) [
        | inl hit ↦
            rw
              (
                hit,
                token (map some p) (map some q) (map some (c ∷ r) ++ some 0 ∷ rest) b q i start cq
                    refl e (omega (arith, lp)) ei,
                split_loop_lem x r (p ++ (q ++ c ∷ [])) [] rest b n (suc i) (suc i) tt cr.1
                    (e ∙ shift c r p q rest) (omega arith)
                    (omega (arith, length-append p (q ++ c ∷ []), length-append q (c ∷ [])))
                    (omega arith),
              )
              refl
        | inr miss ↦ rw miss (
            split_loop_lem x r p (q ++ c ∷ []) rest b n (suc i) start
              (NoNul-append q (c ∷ []) cq (cr.0, tt)) cr.1 (e ∙ extend c r p q rest) (omega arith)
              es (omega (arith, length-append q (c ∷ []))))
      ])

-- split(x) answers a string for each token, with exactly the token's text.
pub split-tokens :
    (s : CxxString) (t : List ℕ) (x : ℕ)
    → Represents s t
    → split s x ≡ some (map exact (tokens x t))
unfolding split tokens
split-tokens s t x r =
    split_loop_lem x t [] [] r.rest s.data_ (s.size_ + 1) 0 0 tt r.clean r.layout
      (omega (arith, r.sized)) refl refl

tokens_from-ne-nil : (x : ℕ) (q t : List ℕ) → tokens_from x q t ≢ []
unfolding tokens_from
tokens_from-ne-nil x q [] e = cc
tokens_from-ne-nil x q (c ∷ t) e = elim (Bool-cases (c == x)) [
  | inl hit ↦ cc (rw hit at e)
  | inr miss ↦ tokens_from-ne-nil x (q ++ c ∷ []) t (rw miss at e)
]

join-cons :
    (x : ℕ) (q : List ℕ) (ts : List (List ℕ)) → ts ≢ [] → join x (q ∷ ts) ≡ q ++ x ∷ join x ts
unfolding join
join-cons x q [] ne = absurd (ne refl)
join-cons x q (t ∷ ts) ne = refl

pub join-tokens_from : (x : ℕ) (q t : List ℕ) → join x (tokens_from x q t) ≡ q ++ t
unfolding tokens_from
join-tokens_from x q [] = unfold join in sym (append-nil q)
join-tokens_from x q (c ∷ t) = elim (Bool-cases (c == x)) [
  | inl hit ↦
      rw
        (
          hit,
          join-cons x q (tokens_from x [] t) (tokens_from-ne-nil x [] t),
          join-tokens_from x [] t,
        )
        (ap (λ (d : ℕ). q ++ d ∷ t) (sym ((==_iff c x).0 hit)))
  | inr miss ↦ rw (miss, join-tokens_from x (q ++ c ∷ []) t) (append_assoc q (c ∷ []) t)
]

-- No text in the list contains the byte.
abbrev pub Avoid : ℕ → List ℕ → Type 0
Avoid x [] = Unit {0}
Avoid x (c ∷ t) = (c ≢ x) × Avoid x t

abbrev pub AllAvoid : ℕ → List (List ℕ) → Type 0
AllAvoid x [] = Unit {0}
AllAvoid x (t ∷ ts) = Avoid x t × AllAvoid x ts

Avoid-append : (x : ℕ) (q t : List ℕ) → Avoid x q → Avoid x t → Avoid x (q ++ t)
Avoid-append x [] t h k = k
Avoid-append x (c ∷ q) t h k = (h.0, Avoid-append x q t h.1 k)

tokens_from-AllAvoid : (x : ℕ) (q t : List ℕ) → Avoid x q → AllAvoid x (tokens_from x q t)
unfolding tokens_from
tokens_from-AllAvoid x q [] h = (h, tt)
tokens_from-AllAvoid x q (c ∷ t) h = elim (Bool-cases (c == x)) [
  | inl hit ↦ rw hit (h, tokens_from-AllAvoid x [] t tt)
  | inr miss ↦
      rw miss
        (tokens_from-AllAvoid x (q ++ c ∷ []) t (Avoid-append x q (c ∷ []) h (ground arith, tt)))
]

-- split(x) on an object that stands for `t` does not fault: it answers exact strings for tokens
-- that contain no `x` and that give `t` back when they are joined by `x`.
pub split-join :
    (s : CxxString) (t : List ℕ) (x : ℕ)
    → Represents s t
    → (ts : List (List ℕ)) × (split s x ≡ some (map exact ts)) × AllAvoid x ts × (join x ts ≡ t)
split-join s t x r = (
  tokens x t,
  split-tokens s t x r,
  unfold tokens in tokens_from-AllAvoid x [] t tt,
  unfold tokens in join-tokens_from x [] t,
)
