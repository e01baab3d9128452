-- ===== src/MapClass/Invariant.antt =====
-- When the memory of an lxcd::map is a skip list that holds given cells.
use ymir_project.Base.{
  ℕ, zero, suc, ◌≤◌, ◌≡◌, ◌≢◌, refl, ap, inl, inr, true, false, Option, none, some, [], ◌∷◌, ◌++◌,
  length, Bool-cases,
}
use ymir_project.TaskQueue.{Ptr, null}
use ymir_project.MapClass.{Pair, Map, levels}
use ymir_project.MapClass.Order.{KeyOrder}
use ymir_project.MapClass.Chain.{Cell, Cells, All, All-map, Chain, NotIn, Distinct}

-- The end of a level: the tail at the bottom, null above.
abbrev pub stop_at : Ptr → ℕ → Ptr
stop_at tail zero = tail
stop_at tail (suc i) = null

module _ {K M : Type 0} where
  abbrev pub Nodes : (Ptr → Option (Option (Pair K M))) → Cells K M → Type 0
  Nodes node cs = All (λ c. node c.addr ≡ some (some c.entry)) cs

  -- The back links, from the tail to the head.
  abbrev pub Backs : (Ptr → Option Ptr) → Ptr → Cells K M → Ptr → Type 0
  Backs prev u [] tail = prev tail ≡ some u
  Backs prev u (c ∷ cs) tail = (prev c.addr ≡ some u) × Backs prev c.addr cs tail

  abbrev pub Low : ℕ → Cells K M → Type 0
  Low max cs = All (λ c. c.level ≤ max) cs

  -- The address `a` is neither the head nor the tail, nor null, nor that of a cell.
  pub record Apart (a : Ptr) (m : Map K M) (cs : Cells K M) : Type 0 where
    pub not_null : a ≢ null
    pub not_head : a ≢ m.head
    pub not_tail : a ≢ m.tail
    pub not_in : NotIn a cs

  module _ (o : KeyOrder K) where
    -- The keys of all cells are smaller than `k`.
    abbrev pub Below : K → Cells K M → Type 0
    Below k cs = All (λ c. o.lt c.entry.key k ≡ true) cs

    abbrev pub NotBelow : K → Cells K M → Type 0
    NotBelow k cs = All (λ c. o.lt c.entry.key k ≡ false) cs

    abbrev pub Above : K → Cells K M → Type 0
    Above k cs = All (λ c. o.lt k c.entry.key ≡ true) cs

    abbrev pub Sorted : Cells K M → Type 0
    Sorted [] = Unit {0}
    Sorted (c ∷ cs) = Above c.entry.key cs × Sorted cs

    pub record IsMap (m : Map K M) (cs : Cells K M) : Type 0 where
      pub chain : (i : ℕ) → i ≤ levels → Chain (stop_at m.tail i) i m.memory.link m.head cs
      pub backs : Backs m.memory.prev m.head cs m.tail
      pub nodes : Nodes m.memory.node cs
      pub tail_value : m.memory.node m.tail ≡ some none
      pub tail_link : m.memory.link m.tail 0 ≡ some null
      pub null_dead : m.memory.node null ≡ none
      pub head_prev : m.memory.prev m.head ≡ some null
      pub head_tail : m.head ≢ m.tail
      pub head_null : m.head ≢ null
      pub tail_null : m.tail ≢ null
      pub distinct : Distinct m.head cs
      pub null_out : NotIn null cs
      pub tail_out : NotIn m.tail cs
      pub sorted : Sorted cs
      pub low : Low m.max cs
      pub max_le : m.max ≤ levels
      pub size_eq : m.size ≡ length cs

    Above-NotBelow :
        (k : K) (c : Cell K M) (cs : Cells K M)
        → o.lt c.entry.key k ≡ false
        → Above c.entry.key cs
        → NotBelow k cs
    Above-NotBelow k c cs e a =
        All-map (λ d. o.lt c.entry.key d.entry.key ≡ true) (λ d. o.lt d.entry.key k ≡ false) cs
          (λ d lt. elim (Bool-cases (o.lt d.entry.key k)) [
            | inl y ↦ absurd (cc (o.lt_trans c.entry.key d.entry.key k lt y, e))
            | inr n ↦ n
          ])
          a

    -- Where a key stands among sorted cells.
    pub record Place (k : K) (cs : Cells K M) : Type 0 where
      pub before : Cells K M
      pub after : Cells K M
      pub parts : cs ≡ before ++ after
      pub before_below : Below k before
      pub after_not : NotBelow k after

    pub place : (k : K) (cs : Cells K M) → Sorted cs → Place k cs
    place k [] s = record {
      before = [];
      after = [];
      parts = refl;
      before_below = tt;
      after_not = tt;
    }
    place k (c ∷ cs) s = elim (Bool-cases (o.lt c.entry.key k)) [
      | inl y ↦
          let r = place k cs s.1 in
          record {
            before = c ∷ r.before;
            after = r.after;
            parts = ap (λ xs. c ∷ xs) r.parts;
            before_below = (y, r.before_below);
            after_not = r.after_not;
          }
      | inr n ↦ record {
        before = [];
        after = c ∷ cs;
        parts = refl;
        before_below = tt;
        after_not = (n, Above-NotBelow k c cs n s.0);
      }
    ]
