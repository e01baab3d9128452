-- ===== src/MapClass/Insert.antt =====
-- insert of lxcd::map puts a new cell where its key belongs, on every level up to its own.
use ymir_project.Base.{
  ℕ, suc, ◌+◌, ◌-◌, ◌≤◌, ◌<◌, ◌≡◌, ◌≢◌, refl, sym, ap, subst, ◌∙◌, inl, inr, Bool, true, false,
  Option, none, some, List, [], ◌∷◌, ◌++◌, arith, leb, ltb, leb_le, if◌then◌else◌, length,
  length-append, get_elem?, Bool-cases,
}
use ymir_project.Buffer.{◌>>=◌}
use ymir_project.TaskQueue.{Ptr, null}
use ymir_project.MapClass.{
  Pair, Memory, Map, levels, set_prev, new_node, count_level, raise_loop, splice, link_in, insert,
  has_key,
}
use ymir_project.MapClass.Order.{KeyOrder}
use ymir_project.MapClass.Chain.{
  Cell, Cells, All-left, All-right, All-insert, All-map, NotIn, last_at, last_at-ne, first_at,
  Chain-drop, Chain-first, Chain-same, Chain-replace,
}
use ymir_project.MapClass.Invariant.{
  stop_at, Nodes, Backs, Low, Below, NotBelow, Above, Apart, IsMap,
}
use ymir_project.MapClass.Search.{search-Found}
use ymir_project.MapClass.Splice.{splice-Spliced}
use ymir_project.MapClass.Cells.{
  Distinct-left, last_at-NotIn, last_at-high, first_at-ne, Distinct-NotIn, Distinct-insert,
  Backs-insert, Sorted-insert, Above-NotBelow, Sorted-middle,
}
use ymir_project.MapClass.NewNode.{
  count_level-le, raise_loop_lem, new_node-link, new_node-own, new_node-prev, new_node-node,
  new_node-own_node, set_prev-PrevSet,
}

module _ {K M : Type 0} where
  -- What link_in leaves of the memory for a new cell `c` between `xs` and `ys`.
  record Linked (m : Map K M) (xs : Cells K M) (c : Cell K M) (ys : Cells K M) (h : Memory K M)
      : Type 0 where
    own : (j : ℕ) → j ≤ c.level → h.link c.addr j ≡ m.memory.link (last_at j m.head xs) j
    old : (j : ℕ) → j ≤ c.level → h.link (last_at j m.head xs) j ≡ some c.addr
    others :
        (a : Ptr) (j : ℕ) → a ≢ c.addr → a ≢ last_at j m.head xs → h.link a j ≡ m.memory.link a j
    above : (a : Ptr) (j : ℕ) → a ≢ c.addr → c.level < j → h.link a j ≡ m.memory.link a j
    back : h.prev c.addr ≡ some (last_at 0 m.head xs)
    forth : h.prev (first_at 0 m.tail ys) ≡ some c.addr
    prevs : (a : Ptr) → a ≢ c.addr → a ≢ first_at 0 m.tail ys → h.prev a ≡ m.memory.prev a
    entry : h.node c.addr ≡ some (some c.entry)
    values : (a : Ptr) → a ≢ c.addr → h.node a ≡ m.memory.node a

  pub Backs-first :
      (prev : Ptr → Option Ptr) (u : Ptr) (xs ys : Cells K M) (tail : Ptr)
      → Backs prev u (xs ++ ys) tail
      → (x : Ptr) × (prev (first_at 0 tail ys) ≡ some x)
  Backs-first prev u [] [] tail b = (u, b)
  Backs-first prev u [] (y ∷ ys) tail b = rw (leb_le 0 y.level (omega arith)) (u, b.0)
  Backs-first prev u (x ∷ xs) ys tail b = Backs-first prev x.addr xs ys tail b.1

  module _ (o : KeyOrder K) where
    -- The end of insert, once `path` is filled up to the level of the new cell.
    relinks :
        (m : Map K M) (xs : Cells K M) (c : Cell K M) (ys : Cells K M) (path : List Ptr)
        → IsMap o m (xs ++ ys)
        → Apart c.addr m (xs ++ ys)
        → c.level ≤ levels
        → ((j : ℕ) → j ≤ c.level → get_elem? path j ≡ some (last_at j m.head xs))
        → (h : Memory K M) × Linked m xs c ys h
          × ((finish : Memory K M → Option (Map K M × (Ptr × Bool)))
              → (do
                h ←
                    splice
                      (suc c.level)
                      0
                      path
                      c.addr
                      (new_node m.memory c.addr c.level (some c.entry))
                u ← get_elem? path 0
                h ← set_prev h c.addr u
                q ← h.link c.addr 0
                h ← set_prev h q c.addr
                finish h)
                ≡ finish h)
    relinks m xs c ys path w a le g =
        let p = c.addr in
        let at : ℕ → Ptr = λ j. last_at j m.head xs in
        let q = first_at 0 m.tail ys in
        let h0 = new_node m.memory p c.level (some c.entry) in
        let ne : (j : ℕ) → p ≢ at j =
          λ j. last_at-ne j p m.head xs a.not_head (All-left (λ z. p ≢ z.addr) xs ys a.not_in) in
        let ne' : (j : ℕ) → at j ≢ p = λ j e. ne j (sym e) in
        let ends : (j : ℕ)
            → j ≤ levels
            → m.memory.link (at j) j ≡ some (first_at j (stop_at m.tail j) ys) =
          λ j b.
            Chain-first (stop_at m.tail j) j m.memory.link (at j) ys
              (Chain-drop (stop_at m.tail j) j m.memory.link m.head xs ys (w.chain j b)) in
        let start : (j : ℕ)
            → j ≤ levels
            → h0.link (at j) j ≡ some (first_at j (stop_at m.tail j) ys) =
          λ j b. new_node-link m.memory p c.level (some c.entry) (at j) j (ne' j) ∙ ends j b in
        let (h1, runs, s) =
          splice-Spliced (suc c.level) 0 path at p h0 (λ j. null)
            (λ j. first_at j (stop_at m.tail j) ys) (λ j x y. g j (omega arith))
            (λ j x y. start j (omega arith))
            (λ j x y. new_node-own m.memory p c.level (some c.entry) j (omega arith)) ne' in
        let q_ne : p ≢ q =
          first_at-ne 0 p m.tail ys a.not_tail (All-right (λ z. p ≢ z.addr) xs ys a.not_in) in
        let (h2, runs2, t) =
          set_prev-PrevSet h1 p (at 0) null
            (ap (λ f. f p) s.prev_same ∙ (new_node-own_node m.memory p c.level (some c.entry)).1) in
        let (x, was) = Backs-first m.memory.prev m.head xs ys m.tail w.backs in
        let old_prev : (b : Ptr) → b ≢ p → h2.prev b ≡ m.memory.prev b = λ b n.
          t.others b n
          ∙ ap (λ f. f b) s.prev_same
          ∙ new_node-prev m.memory p c.level (some c.entry) b n in
        let (h3, runs3, v) = set_prev-PrevSet h2 q p x (old_prev q (λ e. q_ne (sym e)) ∙ was) in
        let same : (b : Ptr) (j : ℕ) → h3.link b j ≡ h1.link b j =
          λ b j. ap (λ f. f b j) v.links ∙ ap (λ f. f b j) t.links in
        let own_link : h2.link p 0 ≡ some q =
          ap (λ f. f p 0) t.links
          ∙ s.at_new 0 (omega arith) (omega arith)
          ∙ start 0 (omega arith) in
        (
          h3,
          record {
            own = λ j b.
                same p j
                ∙ s.at_new j (omega arith) (omega arith)
                ∙ new_node-link m.memory p c.level (some c.entry) (at j) j (ne' j);
            old = λ j b. same (at j) j ∙ s.at_old j (omega arith) (omega arith);
            others = λ b j n n'.
                same b j
                ∙ s.others b j n n'
                ∙ new_node-link m.memory p c.level (some c.entry) b j n;
            above = λ b j n lt.
                same b j
                ∙ s.above b j (omega arith)
                ∙ new_node-link m.memory p c.level (some c.entry) b j n;
            back = v.others p q_ne ∙ t.own;
            forth = v.own;
            prevs = λ b n n'. v.others b n' ∙ old_prev b n;
            entry =
                ap (λ f. f p) v.values
                ∙ ap (λ f. f p) t.values
                ∙ ap (λ f. f p) s.node_same
                ∙ (new_node-own_node m.memory p c.level (some c.entry)).0;
            values = λ b n.
                ap (λ f. f b) v.values
                ∙ ap (λ f. f b) t.values
                ∙ ap (λ f. f b) s.node_same
                ∙ new_node-node m.memory p c.level (some c.entry) b n;
          },
          λ finish. rw (runs, g 0 (omega arith), runs2, own_link, runs3) refl,
        )

    -- The new cell stands between the smaller and the larger keys.
    Linked-IsMap :
        (m : Map K M) (xs : Cells K M) (c : Cell K M) (ys : Cells K M) (h : Memory K M)
        → IsMap o m (xs ++ ys)
        → Apart c.addr m (xs ++ ys)
        → c.level ≤ levels
        → Below o c.entry.key xs
        → Above o c.entry.key ys
        → Linked m xs c ys h
        → IsMap o
            (record m {
              memory = h;
              max = if ltb m.max c.level then c.level else m.max;
              size = m.size + 1;
            })
            (xs ++ (c ∷ ys))
    Linked-IsMap m xs c ys h w a le b ab l =
        let p = c.addr in
        let out_ys : NotIn p ys = All-right (λ z. p ≢ z.addr) xs ys a.not_in in
        let lows : Low (if ltb m.max c.level then c.level else m.max) (xs ++ ys) =
          All-map (λ z. z.level ≤ m.max)
            (λ z. z.level ≤ (if ltb m.max c.level then c.level else m.max)) (xs ++ ys)
            (λ z x. ground (arith, x)) w.low in
        record {
          chain = λ i le_i.
              let stop = stop_at m.tail i in
              let at = last_at i m.head xs in
              let tail_chain = Chain-drop stop i m.memory.link m.head xs ys (w.chain i le_i) in
              let at_ne : at ≢ p = λ e.
                last_at-ne i p m.head xs a.not_head (All-left (λ z. p ≢ z.addr) xs ys a.not_in)
                  (sym e) in
              let keep : (a : Ptr) → (NotIn a ys → ⊥) → h.link a i ≡ m.memory.link a i = λ x in_ys.
                l.others x i (λ e. in_ys (subst (λ z. NotIn z ys) (sym e) out_ys))
                  (λ e.
                    in_ys (
                      subst (λ z. NotIn z ys) (sym e) (last_at-NotIn i m.head xs ys w.distinct))) in
              Chain-replace stop i m.memory.link h.link p m.head xs ys (c ∷ ys) a.not_head
                (All-left (λ z. p ≢ z.addr) xs ys a.not_in) (Distinct-left m.head xs ys w.distinct)
                (λ x n n'. l.others x i n n')
                (elim (Bool-cases (leb i c.level)) [
                  | inl on ↦ rw on (
                    l.old i (ground (arith, on)),
                    Chain-same stop i m.memory.link h.link at p ys (l.own i (ground (arith, on)))
                        keep tail_chain,
                  )
                  | inr off ↦ rw off (
                      Chain-same stop i m.memory.link h.link at at ys
                        (l.above at i at_ne (ground (arith, off))) keep tail_chain)
                ])
                (w.chain i le_i);
          backs =
              Backs-insert m.memory.prev h.prev m.head xs c ys m.tail l.back l.forth l.prevs
                a.not_in a.not_tail w.tail_out w.distinct w.backs;
          nodes =
              All-insert (λ z. h.node z.addr ≡ some (some z.entry)) xs c ys
                (nodes_kept (xs ++ ys) w.nodes a.not_in) l.entry;
          tail_value = l.values m.tail (λ e. a.not_tail (sym e)) ∙ w.tail_value;
          tail_link =
              l.others m.tail 0 (λ e. a.not_tail (sym e))
                (last_at-ne 0 m.tail m.head xs (λ e. w.head_tail (sym e))
                  (All-left (λ z. m.tail ≢ z.addr) xs ys w.tail_out))
              ∙ w.tail_link;
          null_dead = l.values null (λ e. a.not_null (sym e)) ∙ w.null_dead;
          head_prev =
              l.prevs m.head (λ e. a.not_head (sym e))
                (first_at-ne 0 m.head m.tail ys w.head_tail (
                  All-right (λ z. m.head ≢ z.addr) xs ys
                    (Distinct-NotIn m.head (xs ++ ys) w.distinct)))
              ∙ w.head_prev;
          head_tail = w.head_tail;
          head_null = w.head_null;
          tail_null = w.tail_null;
          distinct = Distinct-insert m.head xs c ys a.not_head a.not_in w.distinct;
          null_out = All-insert (λ z. null ≢ z.addr) xs c ys w.null_out (λ e. a.not_null (sym e));
          tail_out = All-insert (λ z. m.tail ≢ z.addr) xs c ys w.tail_out (λ e. a.not_tail (sym e));
          sorted = Sorted-insert o xs c ys b ab w.sorted;
          low =
              All-insert (λ z. z.level ≤ (if ltb m.max c.level then c.level else m.max)) xs c ys
                lows (ground arith);
          max_le = ground (arith, w.max_le, le);
          size_eq = omega (arith, w.size_eq, length-append xs ys, length-append xs (c ∷ ys));
        }
      where
        nodes_kept : (cs : Cells K M) → Nodes m.memory.node cs → NotIn c.addr cs → Nodes h.node cs
        nodes_kept [] n out = tt
        nodes_kept (z ∷ zs) n out =
            (l.values z.addr (λ e. out.0 (sym e)) ∙ n.0, nodes_kept zs n.1 out.1)

    raised :
        (m : Map K M) (xs : Cells K M) (path : List Ptr) (level : ℕ)
        → Low m.max xs
        → length path ≡ levels + 1
        → level ≤ levels
        → ((j : ℕ) → j ≤ m.max → get_elem? path j ≡ some (last_at j m.head xs))
        → (path' : List Ptr) × ((if ltb m.max level
              then raise_loop (level - m.max) (m.max + 1) m.head path
              else some path)
            ≡ some path')
          × ((j : ℕ) → j ≤ level → get_elem? path' j ≡ some (last_at j m.head xs))
    raised m xs path level low long le g = elim (Bool-cases (ltb m.max level)) [
      | inr n ↦ (path, rw n refl, λ j b. g j (ground (arith, n, b)))
      | inl y ↦
          let lt : m.max < level = ground (arith, y) in
          let (path', runs, new, old) =
            raise_loop_lem (level - m.max) (m.max + 1) m.head path (omega arith) in
          (
            path',
            rw y runs,
            λ j b. elim (Bool-cases (leb j m.max)) [
              | inl in_use ↦ old j (ground (arith, in_use)) ∙ g j (ground (arith, in_use))
              | inr over ↦
                  let more : m.max < j = ground (arith, over) in
                  new j (omega arith) (omega arith)
                  ∙ ap some (sym (last_at-high j m.max m.head xs more low))
            ],
          )
    ]

    first_value :
        (m : Map K M) (k : K) (xs ys : Cells K M)
        → IsMap o m (xs ++ ys)
        → Above o k ys
        → (v : Option (Pair K M)) × (m.memory.node (first_at 0 m.tail ys) ≡ some v)
          × (has_key o k v ≡ false)
    first_value m k xs [] w ab = (none, w.tail_value, refl)
    first_value m k xs (y ∷ ys) w ab = (
      some y.entry,
      rw (leb_le 0 y.level (omega arith))
          (All-right (λ c. m.memory.node c.addr ≡ some (some c.entry)) xs (y ∷ ys) w.nodes).0,
      elim (Bool-cases (o.eq y.entry.key k)) [
        | inl e ↦ absurd (cc (ab.0, o.lt_irrefl k, ap (o.lt k) ((o.eq_iff y.entry.key k).0 e)))
        | inr e ↦ e
      ],
    )

    -- A key that is not there yet.
    pub insert-new :
        (p : Ptr) (coins : List Bool) (e : Pair K M) (m : Map K M) (xs ys : Cells K M)
        → IsMap o m (xs ++ ys)
        → Apart p m (xs ++ ys)
        → Below o e.key xs
        → Above o e.key ys
        → (m' : Map K M) × (insert o p coins e m ≡ some (m', (p, true)))
          × (m'.head ≡ m.head)
          × (m'.tail ≡ m.tail)
          × IsMap o m'
              (xs ++ (record { addr = p; level = count_level levels coins; entry = e } ∷ ys))
    unfolding insert link_in
    insert-new p coins e m xs ys w a b ab =
        let level = count_level levels coins in
        let le : level ≤ levels = count_level-le levels coins in
        let c : Cell K M = record { addr = p; level = level; entry = e } in
        let f = search-Found o m e.key xs ys w b (Above-NotBelow o e.key ys ab) in
        let (v, reads, differs) = first_value m e.key xs ys w ab in
        let (path, runs, g) =
          raised m xs f.path level (All-left (λ z. z.level ≤ m.max) xs ys w.low) f.long le
            f.filled in
        let (h, l, ends) = relinks m xs c ys path w a le g in
        (
          record m {
            memory = h;
            max = if ltb m.max level then level else m.max;
            size = m.size + 1;
          },
          rw (f.runs, reads, differs, runs)
              (ends (λ h. some (
                record m {
                  memory = h;
                  max = if ltb m.max level then level else m.max;
                  size = m.size + 1;
                },
                (p, true),
              ))),
          refl,
          refl,
          Linked-IsMap m xs c ys h w a le b ab l,
        )

    -- A key that is there already keeps its value.
    pub insert-old :
        (p : Ptr) (coins : List Bool) (e : Pair K M) (m : Map K M) (xs : Cells K M) (c : Cell K M)
        (ys : Cells K M)
        → IsMap o m (xs ++ (c ∷ ys))
        → o.eq c.entry.key e.key ≡ true
        → insert o p coins e m ≡ some (m, (c.addr, false))
    unfolding insert
    insert-old p coins e m xs c ys w same =
        let key : c.entry.key ≡ e.key = (o.eq_iff c.entry.key e.key).0 same in
        let (b, ab) = Sorted-middle o xs c ys w.sorted in
        let f = search-Found o m e.key xs (c ∷ ys) w (subst (λ k. Below o k xs) key b) (
          subst (λ k. NotBelow o k (c ∷ ys)) key
            (o.lt_irrefl c.entry.key, Above-NotBelow o c.entry.key ys ab)) in
        rw
          (
            f.runs,
            leb_le 0 c.level (omega arith),
            (All-right (λ z. m.memory.node z.addr ≡ some (some z.entry)) xs (c ∷ ys) w.nodes).0,
            same,
          )
          refl
