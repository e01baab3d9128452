-- ===== src/MapClass/Search.antt =====
-- The search of lxcd::map stops, on every level, at the last cell with a smaller key.
use ymir_project.Base.{
  ℕ, zero, suc, ◌+◌, ◌≤◌, ◌<◌, ◌≡◌, ◌≢◌, refl, sym, ap, ◌∙◌, inl, inr, true, some, List, [], ◌∷◌,
  ◌++◌, arith, ◌==◌, leb, ==_ne, ==_self, if◌then◌else◌, length, Bool-cases, get_elem?, set,
  get_elem?-set, get_elem?-set_ne, subst, ==_iff, ltb_lt, replicate, length-replicate,
  length-append, length-set, append_assoc,
}
use ymir_project.TaskQueue.{Ptr, null}
use ymir_project.VectorClass.{store}
use ymir_project.MapClass.{Memory, Map, levels, walk, descend, search}
use ymir_project.MapClass.Order.{KeyOrder}
use ymir_project.MapClass.Chain.{
  Cell, Cells, Chain, NotIn, All-right, last_at, first_at, Chain-drop, Chain-first, Chain-later,
  last_at-later, last_cell, LastCell,
}
use ymir_project.MapClass.Invariant.{stop_at, Nodes, Below, NotBelow, IsMap}

store-in :
    (path : List Ptr) (i : ℕ) (v : Ptr) → i < length path → store path i v ≡ some (set path i v)
unfolding store
store-in path i v h = rw (ltb_lt i (length path) h) refl

module _ {K M : Type 0} (o : KeyOrder K) where
  walk-stop :
      (n : ℕ) (h : Memory K M) (i : ℕ) (stop : Ptr) (k : K) (u : Ptr)
      → h.link u i ≡ some stop
      → walk o (suc n) h i stop k u ≡ some u
  unfolding walk
  walk-stop n h i stop k u e = rw (e, ==_self stop) refl

  walk-next :
      (n : ℕ) (h : Memory K M) (i : ℕ) (stop : Ptr) (k : K) (u : Ptr) (c : Cell K M)
      → h.link u i ≡ some c.addr
      → stop ≢ c.addr
      → h.node c.addr ≡ some (some c.entry)
      → walk o (suc n) h i stop k u
        ≡ (if o.lt c.entry.key k then walk o n h i stop k c.addr else some u)
  unfolding walk
  walk-next n h i stop k u c e ne v = rw (e, ==_ne c.addr stop (λ x. ne (sym x)), v) refl

  walk-stays :
      (n : ℕ) (h : Memory K M) (i : ℕ) (stop : Ptr) (k : K) (u : Ptr) (ys : Cells K M)
      → Chain stop i h.link u ys
      → Nodes h.node ys
      → NotIn stop ys
      → NotBelow o k ys
      → walk o (suc n) h i stop k u ≡ some u
  walk-stays n h i stop k u [] ch v out b = walk-stop n h i stop k u ch
  walk-stays n h i stop k u (y ∷ ys) ch v out b = elim (Bool-cases (leb i y.level)) [
    | inl on ↦ rw (walk-next n h i stop k u y (rw on at ch).0 out.0 v.0, b.0) refl
    | inr off ↦ walk-stays n h i stop k u ys (rw off at ch) v.1 out.1 b.1
  ]

  -- The fuel exceeds the number of the smaller keys.
  pub walk-last :
      (n : ℕ) (h : Memory K M) (i : ℕ) (stop : Ptr) (k : K) (u : Ptr) (xs ys : Cells K M)
      → Chain stop i h.link u (xs ++ ys)
      → Nodes h.node (xs ++ ys)
      → NotIn stop (xs ++ ys)
      → Below o k xs
      → NotBelow o k ys
      → length xs ≤ n
      → walk o (suc n) h i stop k u ≡ some (last_at i u xs)
  walk-last n h i stop k u [] ys ch v out b nb f = walk-stays n h i stop k u ys ch v out nb
  walk-last zero h i stop k u (x ∷ xs) ys ch v out b nb f = absurd (omega arith)
  walk-last (suc n) h i stop k u (x ∷ xs) ys ch v out b nb f = elim (Bool-cases (leb i x.level)) [
    | inl on ↦
        rw (walk-next (suc n) h i stop k u x (rw on at ch).0 out.0 v.0, b.0, on)
          (walk-last n h i stop k x.addr xs ys (rw on at ch).1 v.1 out.1 b.1 nb (omega arith))
    | inr off ↦
        rw off (walk-last (suc n) h i stop k u xs ys (rw off at ch) v.1 out.1 b.1 nb (omega arith))
  ]

  -- The search on level `i` has come to `u`: between it and `post` are only cells of `pre`.
  record From (m : Map K M) (k : K) (pre post : Cells K M) (i : ℕ) (u : Ptr) : Type 0 where
    rest : Cells K M
    chain : (j : ℕ) → j ≤ i → Chain (stop_at m.tail j) j m.memory.link u (rest ++ post)
    last : (j : ℕ) → j ≤ i → last_at j m.head pre ≡ last_at j u rest
    nodes : Nodes m.memory.node (rest ++ post)
    stops : (j : ℕ) → NotIn (stop_at m.tail j) (rest ++ post)
    below : Below o k rest
    not_below : NotBelow o k post
    short : length rest ≤ m.size

  stop_at-out :
      (m : Map K M) (cs : Cells K M) → IsMap o m cs → (j : ℕ) → NotIn (stop_at m.tail j) cs
  stop_at-out m cs w zero = w.tail_out
  stop_at-out m cs w (suc j) = w.null_out

  begin-From :
      (m : Map K M) (k : K) (pre post : Cells K M)
      → IsMap o m (pre ++ post)
      → Below o k pre
      → NotBelow o k post
      → From m k pre post m.max m.head
  begin-From m k pre post w b nb = record {
    rest = pre;
    chain = λ j le. w.chain j (omega (arith, le, w.max_le));
    last = λ j le. refl;
    nodes = w.nodes;
    stops = stop_at-out m (pre ++ post) w;
    below = b;
    not_below = nb;
    short = omega (arith, w.size_eq, length-append pre post);
  }

  From-walk :
      (m : Map K M) (k : K) (pre post : Cells K M) (i : ℕ) (u : Ptr)
      → From m k pre post i u
      → walk o (suc m.size) m.memory i (stop_at m.tail i) k u ≡ some (last_at i m.head pre)
  From-walk m k pre post i u f =
      walk-last m.size m.memory i (stop_at m.tail i) k u f.rest post (f.chain i (omega arith))
        f.nodes (f.stops i) f.below f.not_below f.short
      ∙ ap some (sym (f.last i (omega arith)))

  -- On the way down the search may go on from the last cell of level `i`.
  From-cell :
      (m : Map K M) (k : K) (pre post : Cells K M) (i : ℕ) (u : Ptr) (f : From m k pre post i u)
      → (l : LastCell i f.rest) → From m k pre post i l.cell.addr
  From-cell m k pre post i u f l =
      let parts : f.rest ++ post ≡ l.before ++ (l.cell ∷ (l.after ++ post)) =
        ap (λ xs. xs ++ post) l.split ∙ append_assoc l.before (l.cell ∷ l.after) post in
      let on : (j : ℕ) → j ≤ i → leb j l.cell.level ≡ true =
        λ j le. ground (arith, le, l.on_level) in
      record {
        rest = l.after;
        chain = λ j le.
            Chain-later (stop_at m.tail j) j m.memory.link u l.before l.cell (l.after ++ post)
              (on j le)
              (subst (λ xs. Chain (stop_at m.tail j) j m.memory.link u xs) parts (f.chain j le));
        last = λ j le.
            f.last j le
            ∙ ap (last_at j u) l.split
            ∙ last_at-later j u l.before l.cell l.after (on j le);
        nodes =
            (All-right (λ c. m.memory.node c.addr ≡ some (some c.entry)) l.before
              (l.cell ∷ (l.after ++ post)) (subst (Nodes m.memory.node) parts f.nodes)).1;
        stops = λ j.
            (All-right (λ c. stop_at m.tail j ≢ c.addr) l.before (l.cell ∷ (l.after ++ post))
              (subst (NotIn (stop_at m.tail j)) parts (f.stops j))).1;
        below =
            (All-right (λ c. o.lt c.entry.key k ≡ true) l.before (l.cell ∷ l.after)
              (subst (Below o k) l.split f.below)).1;
        not_below = f.not_below;
        short =
            omega (arith, f.short, ap length l.split, length-append l.before (l.cell ∷ l.after));
      }

  From-down :
      (m : Map K M) (k : K) (pre post : Cells K M) (i : ℕ) (u : Ptr)
      → From m k pre post i u
      → From m k pre post i (last_at i m.head pre)
  From-down m k pre post i u f = elim (last_cell i f.rest) [
    | inl stay ↦ subst (From m k pre post i) (sym (f.last i (omega arith) ∙ stay u)) f
    | inr l ↦
        subst (From m k pre post i) (sym (f.last i (omega arith) ∙ l.is_last u))
          (From-cell m k pre post i u f l)
  ]

  From-lower :
      (m : Map K M) (k : K) (pre post : Cells K M) (i j : ℕ) (u : Ptr)
      → j ≤ i
      → From m k pre post i u
      → From m k pre post j u
  From-lower m k pre post i j u le f = record {
    rest = f.rest;
    chain = λ a h. f.chain a (omega arith);
    last = λ a h. f.last a (omega arith);
    nodes = f.nodes;
    stops = f.stops;
    below = f.below;
    not_below = f.not_below;
    short = f.short;
  }

  -- What the levels from `i` down to 1 leave in the array.
  record Descended (m : Map K M) (k : K) (pre post : Cells K M) (i : ℕ) (u : Ptr) (path : List Ptr)
      : Type 0 where
    node : Ptr
    path' : List Ptr
    runs : descend o i m k u path ≡ some (node, path')
    arrived : From m k pre post 0 node
    filled : (j : ℕ) → 0 < j → j ≤ i → get_elem? path' j ≡ some (last_at j m.head pre)
    kept : (j : ℕ) → i < j → get_elem? path' j ≡ get_elem? path j
    long : length path' ≡ length path

  descend-Descended :
      (m : Map K M) (k : K) (pre post : Cells K M) (i : ℕ) (u : Ptr) (path : List Ptr)
      → i < length path
      → From m k pre post i u
      → Descended m k pre post i u path
  unfolding descend
  descend-Descended m k pre post zero u path le f = record {
    node = u;
    path' = path;
    runs = refl;
    arrived = f;
    filled = λ j a b. absurd (omega arith);
    kept = λ j h. refl;
    long = refl;
  }
  descend-Descended m k pre post (suc i) u path le f =
      let v = last_at (suc i) m.head pre in
      let d =
        descend-Descended m k pre post i v (set path (suc i) v)
          (omega (arith, length-set path (suc i) v))
          (From-lower m k pre post (suc i) i v (omega arith)
            (From-down m k pre post (suc i) u f)) in
      record {
        node = d.node;
        path' = d.path';
        runs = rw (From-walk m k pre post (suc i) u f, store-in path (suc i) v le) d.runs;
        arrived = d.arrived;
        filled = λ j a b. elim (Bool-cases (j == suc i)) [
          | inl y ↦
              subst (λ a. get_elem? d.path' a ≡ some (last_at a m.head pre))
                (sym ((==_iff j (suc i)).0 y))
                (d.kept (suc i) (omega arith) ∙ get_elem?-set path (suc i) v le)
          | inr n ↦ d.filled j a (ground (arith, n, b))
        ];
        kept = λ j h. d.kept j (omega arith) ∙ get_elem?-set_ne path (suc i) j v (λ e. omega arith);
        long = d.long ∙ length-set path (suc i) v;
      }

  -- The array `_updated` on the levels in use, and the node that the search ends before.
  pub record Found (m : Map K M) (k : K) (pre post : Cells K M) : Type 0 where
    pub path : List Ptr
    pub runs : search o m k ≡ some (path, first_at 0 m.tail post)
    pub filled : (j : ℕ) → j ≤ m.max → get_elem? path j ≡ some (last_at j m.head pre)
    pub long : length path ≡ levels + 1

  pub search-Found :
      (m : Map K M) (k : K) (pre post : Cells K M)
      → IsMap o m (pre ++ post)
      → Below o k pre
      → NotBelow o k post
      → Found m k pre post
  unfolding search
  search-Found m k pre post w b nb =
      let blank = replicate (levels + 1) null in
      let d =
        descend-Descended m k pre post m.max m.head blank
          (omega (arith, w.max_le, length-replicate {0} (levels + 1) null))
          (begin-From m k pre post w b nb) in
      let u = last_at 0 m.head pre in
      let ok : length d.path' ≡ levels + 1 = d.long ∙ length-replicate {0} (levels + 1) null in
      record {
        path = set d.path' 0 u;
        runs =
            rw
              (
                d.runs,
                From-walk m k pre post 0 d.node d.arrived,
                store-in d.path' 0 u (omega (arith, ok)),
                Chain-first m.tail 0 m.memory.link u post
                    (Chain-drop m.tail 0 m.memory.link m.head pre post (w.chain 0 (omega arith))),
              )
              refl;
        filled = λ j le. elim (Bool-cases (j == 0)) [
          | inl y ↦
              subst (λ i. get_elem? (set d.path' 0 u) i ≡ some (last_at i m.head pre))
                (sym ((==_iff j 0).0 y)) (get_elem?-set d.path' 0 u (omega (arith, ok)))
          | inr n ↦
              get_elem?-set_ne d.path' 0 j u (λ e. absurd (ground (arith, n, e)))
              ∙ d.filled j (ground (arith, n)) le
        ];
        long = length-set d.path' 0 u ∙ ok;
      }
