-- ===== src/MapClass/Chain.antt =====
-- The shape of a skip list: its cells in order, and for each level the links from cell to cell.
use ymir_project.Base.{
  ℕ, ◌≡◌, ◌≢◌, refl, sym, ap, ◌∙◌, ◌⊎◌, inl, inr, true, Option, some, List, [], ◌∷◌, ◌++◌, leb,
  if◌then◌else◌, Bool-cases,
}
use ymir_project.TaskQueue.{Ptr}
use ymir_project.MapClass.{Pair}

pub record Cell (K M : Type 0) : Type 0 where
  pub addr : Ptr
  pub level : ℕ
  pub entry : Pair K M

abbrev pub Cells : Type 0 → Type 0 → Type 0
Cells K M = List (Cell K M)

abbrev pub Links : Type 0
Links = Ptr → ℕ → Option Ptr

module _ {K M : Type 0} where
  -- On level `i` the links lead from `u` through the cells of that level to `stop`.
  abbrev pub Chain : Ptr → ℕ → Links → Ptr → Cells K M → Type 0
  Chain stop i link u [] = link u i ≡ some stop
  Chain stop i link u (c ∷ cs) =
      if leb i c.level
      then (link u i ≡ some c.addr) × Chain stop i link c.addr cs
      else Chain stop i link u cs

  -- The last of `u` and the cells of level `i`.
  abbrev pub last_at : ℕ → Ptr → Cells K M → Ptr
  last_at i u [] = u
  last_at i u (c ∷ cs) = if leb i c.level then last_at i c.addr cs else last_at i u cs

  abbrev pub All : (Cell K M → Type 0) → Cells K M → Type 0
  All P [] = Unit {0}
  All P (c ∷ cs) = P c × All P cs

  pub All-map :
      (P Q : Cell K M → Type 0) (cs : Cells K M)
      → ((c : Cell K M) → P c → Q c)
      → All P cs
      → All Q cs
  All-map P Q [] f a = tt
  All-map P Q (c ∷ cs) f a = (f c a.0, All-map P Q cs f a.1)

  pub All-both :
      (P Q R : Cell K M → Type 0) (cs : Cells K M)
      → ((c : Cell K M) → P c → Q c → R c)
      → All P cs
      → All Q cs
      → All R cs
  All-both P Q R [] f a b = tt
  All-both P Q R (c ∷ cs) f a b = (f c a.0 b.0, All-both P Q R cs f a.1 b.1)

  pub All-left : (P : Cell K M → Type 0) (xs ys : Cells K M) → All P (xs ++ ys) → All P xs
  All-left P [] ys a = tt
  All-left P (x ∷ xs) ys a = (a.0, All-left P xs ys a.1)

  pub All-right : (P : Cell K M → Type 0) (xs ys : Cells K M) → All P (xs ++ ys) → All P ys
  All-right P [] ys a = a
  All-right P (x ∷ xs) ys a = All-right P xs ys a.1

  pub All-append :
      (P : Cell K M → Type 0) (xs ys : Cells K M) → All P xs → All P ys → All P (xs ++ ys)
  All-append P [] ys a b = b
  All-append P (x ∷ xs) ys a b = (a.0, All-append P xs ys a.1 b)

  pub All-insert :
      (P : Cell K M → Type 0) (xs : Cells K M) (c : Cell K M) (ys : Cells K M)
      → All P (xs ++ ys)
      → P c
      → All P (xs ++ (c ∷ ys))
  All-insert P xs c ys a p = All-append P xs (c ∷ ys) (All-left P xs ys a) (p, All-right P xs ys a)

  pub All-remove :
      (P : Cell K M → Type 0) (xs : Cells K M) (c : Cell K M) (ys : Cells K M)
      → All P (xs ++ (c ∷ ys))
      → All P (xs ++ ys)
  All-remove P xs c ys a =
      All-append P xs ys (All-left P xs (c ∷ ys) a) (All-right P xs (c ∷ ys) a).1

  abbrev pub NotIn : Ptr → Cells K M → Type 0
  NotIn a cs = All (λ c. a ≢ c.addr) cs

  -- The node `u` and the cells are at different addresses.
  abbrev pub Distinct : Ptr → Cells K M → Type 0
  Distinct u [] = Unit {0}
  Distinct u (c ∷ cs) = (u ≢ c.addr) × NotIn u cs × Distinct c.addr cs

  pub Distinct-skip :
      (u : Ptr) (x : Cell K M) (xs : Cells K M) → Distinct u (x ∷ xs) → Distinct u xs
  Distinct-skip u x [] d = tt
  Distinct-skip u x (y ∷ ys) d = (d.1.0, d.1.1, d.2.2)

  -- A search that starts at `u` may as well start at a later cell of its level or a higher one.
  pub Chain-later :
      (stop : Ptr) (i : ℕ) (link : Links) (u : Ptr) (xs : Cells K M) (d : Cell K M) (ys : Cells K M)
      → leb i d.level ≡ true
      → Chain stop i link u (xs ++ (d ∷ ys))
      → Chain stop i link d.addr ys
  Chain-later stop i link u [] d ys e ch = (rw e at ch).1
  Chain-later stop i link u (x ∷ xs) d ys e ch = elim (Bool-cases (leb i x.level)) [
    | inl on ↦ Chain-later stop i link x.addr xs d ys e (rw on at ch).1
    | inr off ↦ Chain-later stop i link u xs d ys e (rw off at ch)
  ]

  pub last_at-later :
      (i : ℕ) (u : Ptr) (xs : Cells K M) (d : Cell K M) (ys : Cells K M)
      → leb i d.level ≡ true
      → last_at i u (xs ++ (d ∷ ys)) ≡ last_at i d.addr ys
  last_at-later i u [] d ys e = rw e refl
  last_at-later i u (x ∷ xs) d ys e = elim (Bool-cases (leb i x.level)) [
    | inl on ↦ rw on (last_at-later i x.addr xs d ys e)
    | inr off ↦ rw off (last_at-later i u xs d ys e)
  ]

  -- Either no cell has level `i`, or there is a last one.
  pub record LastCell (i : ℕ) (cs : Cells K M) : Type 0 where
    pub before : Cells K M
    pub cell : Cell K M
    pub after : Cells K M
    pub split : cs ≡ before ++ (cell ∷ after)
    pub on_level : leb i cell.level ≡ true
    pub is_last : (u : Ptr) → last_at i u cs ≡ cell.addr

  pub last_cell : (i : ℕ) (cs : Cells K M) → ((u : Ptr) → last_at i u cs ≡ u) ⊎ LastCell i cs
  last_cell i [] = inl (λ u. refl)
  last_cell i (c ∷ cs) = elim (last_cell i cs) [
    | inr l ↦ inr (record {
      before = c ∷ l.before;
      cell = l.cell;
      after = l.after;
      split = ap (λ xs. c ∷ xs) l.split;
      on_level = l.on_level;
      is_last = λ u. elim (Bool-cases (leb i c.level)) [
        | inl on ↦ rw on (l.is_last c.addr)
        | inr off ↦ rw off (l.is_last u)
      ];
    })
    | inl f ↦ elim (Bool-cases (leb i c.level)) [
      | inl on ↦ inr (record {
        before = [];
        cell = c;
        after = cs;
        split = refl;
        on_level = on;
        is_last = λ u. rw on (f c.addr);
      })
      | inr off ↦ inl (λ u. rw off (f u))
    ]
  ]

  -- Links of level `i` that agree at `u` and at the cells carry the same chain.
  pub Chain-same :
      (stop : Ptr) (i : ℕ) (link link' : Links) (u u' : Ptr) (cs : Cells K M)
      → link' u' i ≡ link u i
      → ((a : Ptr) → (NotIn a cs → ⊥) → link' a i ≡ link a i)
      → Chain stop i link u cs
      → Chain stop i link' u' cs
  Chain-same stop i link link' u u' [] e same ch = e ∙ ch
  Chain-same stop i link link' u u' (c ∷ cs) e same ch = elim (Bool-cases (leb i c.level)) [
    | inl on ↦ rw on (
      e ∙ (rw on at ch).0,
      Chain-same stop i link link' c.addr c.addr cs (same c.addr (λ n. n.0 refl))
          (λ a h. same a (λ n. h n.1)) (rw on at ch).1,
    )
    | inr off ↦
        rw off (Chain-same stop i link link' u u' cs e (λ a h. same a (λ n. h n.1)) (rw off at ch))
  ]

  -- The address of the first cell of level `i`, or `stop`.
  abbrev pub first_at : ℕ → Ptr → Cells K M → Ptr
  first_at i stop [] = stop
  first_at i stop (c ∷ cs) = if leb i c.level then c.addr else first_at i stop cs

  -- What a chain says from the last cell of a first part on.
  pub Chain-drop :
      (stop : Ptr) (i : ℕ) (link : Links) (u : Ptr) (xs ys : Cells K M)
      → Chain stop i link u (xs ++ ys)
      → Chain stop i link (last_at i u xs) ys
  Chain-drop stop i link u [] ys ch = ch
  Chain-drop stop i link u (x ∷ xs) ys ch = elim (Bool-cases (leb i x.level)) [
    | inl on ↦ rw on (Chain-drop stop i link x.addr xs ys (rw on at ch).1)
    | inr off ↦ rw off (Chain-drop stop i link u xs ys (rw off at ch))
  ]

  pub Chain-first :
      (stop : Ptr) (i : ℕ) (link : Links) (u : Ptr) (ys : Cells K M)
      → Chain stop i link u ys
      → link u i ≡ some (first_at i stop ys)
  Chain-first stop i link u [] ch = ch
  Chain-first stop i link u (y ∷ ys) ch = elim (Bool-cases (leb i y.level)) [
    | inl on ↦ rw on (rw on at ch).0
    | inr off ↦ rw off (Chain-first stop i link u ys (rw off at ch))
  ]

  pub last_at-ne : (i : ℕ) (a u : Ptr) (xs : Cells K M) → a ≢ u → NotIn a xs → a ≢ last_at i u xs
  last_at-ne i a u [] ne n = ne
  last_at-ne i a u (x ∷ xs) ne n = elim (Bool-cases (leb i x.level)) [
    | inl on ↦ rw on (last_at-ne i a x.addr xs n.0 n.1)
    | inr off ↦ rw off (last_at-ne i a u xs ne n.1)
  ]

  -- A chain whose links change only behind the last cell of its first part, and at `p`.
  pub Chain-replace :
      (stop : Ptr) (i : ℕ) (link link' : Links) (p u : Ptr) (xs ys zs : Cells K M)
      → p ≢ u
      → NotIn p xs
      → Distinct u xs
      → ((a : Ptr) → a ≢ p → a ≢ last_at i u xs → link' a i ≡ link a i)
      → Chain stop i link' (last_at i u xs) zs
      → Chain stop i link u (xs ++ ys)
      → Chain stop i link' u (xs ++ zs)
  Chain-replace stop i link link' p u [] ys zs ne n d same ch' ch = ch'
  Chain-replace stop i link link' p u (x ∷ xs) ys zs ne n d same ch' ch =
      elim (Bool-cases (leb i x.level)) [
        | inl on ↦ rw on (
          same u (λ e. ne (sym e)) (rw on (last_at-ne i u x.addr xs d.0 d.1)) ∙ (rw on at ch).0,
          Chain-replace stop i link link' p x.addr xs ys zs n.0 n.1 d.2 (rw on at same)
              (rw on at ch') (rw on at ch).1,
        )
        | inr off ↦ rw off (
            Chain-replace stop i link link' p u xs ys zs ne n.1 (Distinct-skip u x xs d)
              (rw off at same) (rw off at ch') (rw off at ch))
      ]
