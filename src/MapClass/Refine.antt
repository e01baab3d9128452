-- ===== src/MapClass/Refine.antt =====
-- The operations of lxcd::map refine those of the association list of its entries.
use ymir_project.Base.{
  ◌≡◌, ◌≢◌, refl, sym, ap, subst, ◌∙◌, Bool, true, false, not, none, some, List, [], ◌∷◌, ◌++◌,
  append-nil, arith, ◌==◌, leb_le, ==_ne, ==_self, if◌then◌else◌,
}
use ymir_project.Buffer.{◌>>=◌}
use ymir_project.TaskQueue.{Ptr, null}
use ymir_project.MapClass.{
  Pair, Map, levels, count_level, insert, erase, entry_at, find_at_bottom, find, count, at,
}
use ymir_project.MapClass.Order.{KeyOrder}
use ymir_project.MapClass.Chain.{Cell, Cells, All-right, All-insert, NotIn}
use ymir_project.MapClass.Invariant.{Below, Above, Sorted, Apart, IsMap}
use ymir_project.MapClass.Search.{search-Found}
use ymir_project.MapClass.Cells.{Sorted-middle, Above-NotBelow, Above-differs}
use ymir_project.MapClass.Insert.{insert-new, insert-old}
use ymir_project.MapClass.Erase.{erase-old, erase-other, erase-behind}
use ymir_project.MapClass.AssocList.{
  entries, entries-append, entries-cons, with_entry, lookup, without_key, behind, with_entry-place,
  lookup-place, lookup-Above, found, between, last, where_is, defined, stored, entries-found,
  entries-between, entries-last,
}

module _ {K M : Type 0} (o : KeyOrder K) where
  bottom-found :
      (m : Map K M) (xs : Cells K M) (c : Cell K M) (ys : Cells K M)
      → IsMap o m (xs ++ (c ∷ ys))
      → (find_at_bottom o m c.entry.key ≡ some c.addr)
        × (m.memory.node c.addr ≡ some (some c.entry))
        × ((c.addr == null) ≡ false)
  unfolding find_at_bottom
  bottom-found m xs c ys w =
      let k = c.entry.key in
      let (b, a) = Sorted-middle o xs c ys w.sorted in
      let f = search-Found o m k xs (c ∷ ys) w b (o.lt_irrefl k, Above-NotBelow o k ys a) in
      let value =
        (All-right (λ z. m.memory.node z.addr ≡ some (some z.entry)) xs (c ∷ ys) w.nodes).0 in
      let not_null =
        ==_ne c.addr null
          (λ e. (All-right (λ z. null ≢ z.addr) xs (c ∷ ys) w.null_out).0 (sym e)) in
      let not_tail =
        ==_ne c.addr m.tail
          (λ e. (All-right (λ z. m.tail ≢ z.addr) xs (c ∷ ys) w.tail_out).0 (sym e)) in
      (
        rw
            (
              f.runs,
              leb_le 0 c.level (omega arith),
              not_tail,
              not_null,
              value,
              (o.eq_iff k k).1 refl,
            )
            refl,
        value,
        not_null,
      )

  bottom-between :
      (k : K) (m : Map K M) (xs : Cells K M) (y : Cell K M) (ys : Cells K M)
      → IsMap o m (xs ++ (y ∷ ys))
      → Below o k xs
      → Above o k (y ∷ ys)
      → find_at_bottom o m k ≡ some null
  unfolding find_at_bottom
  bottom-between k m xs y ys w b a =
      let f = search-Found o m k xs (y ∷ ys) w b (Above-NotBelow o k (y ∷ ys) a) in
      let value =
        (All-right (λ z. m.memory.node z.addr ≡ some (some z.entry)) xs (y ∷ ys) w.nodes).0 in
      let not_null =
        ==_ne y.addr null
          (λ e. (All-right (λ z. null ≢ z.addr) xs (y ∷ ys) w.null_out).0 (sym e)) in
      let not_tail =
        ==_ne y.addr m.tail
          (λ e. (All-right (λ z. m.tail ≢ z.addr) xs (y ∷ ys) w.tail_out).0 (sym e)) in
      rw
        (f.runs, leb_le 0 y.level (omega arith), not_tail, not_null, value, Above-differs o k y a.0)
        refl

  bottom-last :
      (k : K) (m : Map K M) (xs : Cells K M)
      → IsMap o m xs
      → Below o k xs
      → find_at_bottom o m k ≡ some null
  unfolding find_at_bottom
  bottom-last k m xs w b =
      let f = search-Found o m k xs [] (subst (IsMap o m) (sym (append-nil xs)) w) b tt in
      rw (f.runs, ==_self m.tail) refl

  -- What at, count and find answer for `k` on a map with the entries `es`.
  record Answers (m : Map K M) (k : K) (es : List (Pair K M)) : Type 0 where
    at_value : at o m k ≡ lookup o k es
    counted : count o m k ≡ some (if defined (lookup o k es) then 1 else 0)
    at_end : (do u ← find o m k; some (u == m.tail)) ≡ some (not (defined (lookup o k es)))
    dereferenced : (do u ← find o m k; e ← entry_at m u; some e.value) ≡ lookup o k es

  missing-Answers :
      (m : Map K M) (k : K) (cs : Cells K M)
      → IsMap o m cs
      → find_at_bottom o m k ≡ some null
      → lookup o k (entries cs) ≡ none
      → Answers m k (entries cs)
  unfolding at count find entry_at
  missing-Answers m k cs w e l = record {
    at_value = rw (e, w.null_dead, l) refl;
    counted = rw (e, l) refl;
    at_end = rw (e, l, ==_self m.tail) refl;
    dereferenced = rw (e, l, w.tail_value) refl;
  }

  found-Answers :
      (m : Map K M) (xs : Cells K M) (c : Cell K M) (ys : Cells K M)
      → IsMap o m (xs ++ (c ∷ ys))
      → Answers m c.entry.key (entries (xs ++ (c ∷ ys)))
  unfolding at count find entry_at
  found-Answers m xs c ys w =
      let (e, v, n) = bottom-found m xs c ys w in
      let l = (entries-found o xs c ys w.sorted).0 in
      let not_tail =
        ==_ne c.addr m.tail
          (λ z. (All-right (λ z. m.tail ≢ z.addr) xs (c ∷ ys) w.tail_out).0 (sym z)) in
      record {
        at_value = rw (e, v, l) refl;
        counted = rw (e, n, v, l, (o.eq_iff c.entry.key c.entry.key).1 refl) refl;
        at_end = rw (e, n, l, not_tail) refl;
        dereferenced = rw (e, n, v, l) refl;
      }

  -- at, count and find (compared with end(), and dereferenced) of a map answer what the lookup of
  -- the key in its association list does; at and a dereference fault when the key is not there.
  pub find_refines :
      (m : Map K M) (cs : Cells K M) (k : K)
      → IsMap o m cs
      → (at o m k ≡ lookup o k (entries cs))
        × (count o m k ≡ some (if defined (lookup o k (entries cs)) then 1 else 0))
        × ((do u ← find o m k; some (u == m.tail)) ≡ some (not (defined (lookup o k (entries cs)))))
        × ((do u ← find o m k; e ← entry_at m u; some e.value) ≡ lookup o k (entries cs))
  find_refines m cs k w =
      let a : Answers m k (entries cs) = elim (where_is o k cs w.sorted) [
        | found xs c ys e q ↦
            subst (λ z. Answers m z (entries cs)) q
              (subst (λ z. Answers m c.entry.key (entries z)) (sym e)
                (found-Answers m xs c ys (subst (IsMap o m) e w)))
        | between xs y ys e b h ↦
            missing-Answers m k cs w (bottom-between k m xs y ys (subst (IsMap o m) e w) b h) (
              subst (λ z. lookup o k (entries z) ≡ none) (sym e)
                (entries-between o k xs y ys b h).0)
        | last b ↦ missing-Answers m k cs w (bottom-last k m cs w b) (entries-last o k cs b).0
      ] in
      (a.at_value, a.counted, a.at_end, a.dereferenced)

  with_entry-Above :
      (e : Pair K M) (ys : Cells K M)
      → Above o e.key ys
      → with_entry o e (entries ys) ≡ e ∷ entries ys
  unfolding with_entry entries
  with_entry-Above e [] a = refl
  with_entry-Above e (y ∷ ys) a =
      rw ((Above-NotBelow o e.key (y ∷ ys) a).0, Above-differs o e.key y a.0) refl

  with_entry-same :
      (e : Pair K M) (c : Cell K M) (ys : Cells K M)
      → c.entry.key ≡ e.key
      → with_entry o e (entries (c ∷ ys)) ≡ entries (c ∷ ys)
  unfolding with_entry entries
  with_entry-same e c ys key =
      rw
        (
          subst (λ k. o.lt c.entry.key k ≡ false) key (o.lt_irrefl c.entry.key),
          (o.eq_iff c.entry.key e.key).1 key,
        )
        refl

  pub record Inserted (p : Ptr) (coins : List Bool) (e : Pair K M) (m : Map K M) (cs : Cells K M)
      : Type 0 where
    pub result : Map K M
    pub cells : Cells K M
    pub node : Ptr
    pub runs :
        insert o p coins e m ≡ some (result, (node, not (defined (lookup o e.key (entries cs)))))
    pub valid : IsMap o result cells
    pub holds : entries cells ≡ with_entry o e (entries cs)
    pub value : entry_at result node ≡ some (stored e (lookup o e.key (entries cs)))
    pub apart : (a : Ptr) → a ≢ p → Apart a m cs → Apart a result cells

  insert-absent :
      (p : Ptr) (coins : List Bool) (e : Pair K M) (m : Map K M) (cs xs ys : Cells K M)
      → cs ≡ xs ++ ys
      → IsMap o m cs
      → Apart p m cs
      → Below o e.key xs
      → Above o e.key ys
      → Inserted p coins e m cs
  unfolding entry_at stored
  insert-absent p coins e m cs xs ys eq w a b ab =
      let c : Cell K M = record { addr = p; level = count_level levels coins; entry = e } in
      let (m', runs, head_same, tail_same, w') =
        insert-new o p coins e m xs ys (subst (IsMap o m) eq w) (subst (Apart p m) eq a) b ab in
      let absent : lookup o e.key (entries cs) ≡ none =
        subst (λ z. lookup o e.key (entries z) ≡ none) (sym eq)
          (rw (entries-append xs ys, lookup-place o e.key xs (entries ys) b)
            (lookup-Above o e.key ys ab)) in
      record {
        result = m';
        cells = xs ++ (c ∷ ys);
        node = p;
        runs = rw absent runs;
        valid = w';
        holds =
            subst (λ z. entries (xs ++ (c ∷ ys)) ≡ with_entry o e (entries z)) (sym eq)
              (rw
                (
                  entries-append xs ys,
                  with_entry-place o e xs (entries ys) b,
                  with_entry-Above e ys ab,
                )
                (entries-append xs (c ∷ ys) ∙ ap (λ r. entries xs ++ r) (entries-cons c ys)));
        value =
            rw
              (
                absent,
                (All-right (λ z. m'.memory.node z.addr ≡ some (some z.entry)) xs (c ∷ ys)
                    w'.nodes).0,
              )
              refl;
        apart = λ x ne d. record {
          not_null = d.not_null;
          not_head = λ z. d.not_head (z ∙ head_same);
          not_tail = λ z. d.not_tail (z ∙ tail_same);
          not_in = All-insert (λ z. x ≢ z.addr) xs c ys (subst (NotIn x) eq d.not_in) ne;
        };
      }

  insert-present :
      (p : Ptr) (coins : List Bool) (e : Pair K M) (m : Map K M) (xs : Cells K M) (c : Cell K M)
      (ys : Cells K M)
      → IsMap o m (xs ++ (c ∷ ys))
      → c.entry.key ≡ e.key
      → Inserted p coins e m (xs ++ (c ∷ ys))
  unfolding entry_at stored
  insert-present p coins e m xs c ys w key =
      let there : lookup o e.key (entries (xs ++ (c ∷ ys))) ≡ some c.entry.value =
        subst (λ z. lookup o z (entries (xs ++ (c ∷ ys))) ≡ some c.entry.value) key
          (entries-found o xs c ys w.sorted).0 in
      let (b, a) = Sorted-middle o xs c ys w.sorted in
      record {
        result = m;
        cells = xs ++ (c ∷ ys);
        node = c.addr;
        runs = rw there (insert-old o p coins e m xs c ys w ((o.eq_iff c.entry.key e.key).1 key));
        valid = w;
        holds = sym (
            rw
              (
                entries-append xs (c ∷ ys),
                with_entry-place o e xs (entries (c ∷ ys)) (subst (λ k. Below o k xs) key b),
              )
              (ap (λ r. entries xs ++ r) (with_entry-same e c ys key)));
        value =
            rw
              (
                there,
                (All-right (λ z. m.memory.node z.addr ≡ some (some z.entry)) xs (c ∷ ys) w.nodes).0,
              )
              (ap (λ k. some (record { key = k; value = c.entry.value })) key);
        apart = λ x ne d. d;
      }

  pub insert-Inserted :
      (p : Ptr) (coins : List Bool) (e : Pair K M) (m : Map K M) (cs : Cells K M)
      → IsMap o m cs
      → Apart p m cs
      → Inserted p coins e m cs
  insert-Inserted p coins e m cs w a = elim (where_is o e.key cs w.sorted) [
    | found xs c ys eq q ↦
        subst (Inserted p coins e m) (sym eq)
          (insert-present p coins e m xs c ys (subst (IsMap o m) eq w) q)
    | between xs y ys eq b ab ↦ insert-absent p coins e m cs xs (y ∷ ys) eq w a b ab
    | last b ↦ insert-absent p coins e m cs cs [] (sym (append-nil cs)) w a b tt
  ]

  -- insert on a map, with an address that is not in use, answers a map whose association list has
  -- the entry at its place, or is the same when the key is there; it says whether it inserted.
  pub insert_refines :
      (p : Ptr) (coins : List Bool) (e : Pair K M) (m : Map K M) (cs : Cells K M)
      → IsMap o m cs
      → Apart p m cs
      → (m' : Map K M) × (cs' : Cells K M) × (u : Ptr) × (insert o p coins e m
          ≡ some (m', (u, not (defined (lookup o e.key (entries cs))))))
        × IsMap o m' cs'
        × (entries cs' ≡ with_entry o e (entries cs))
        × (entry_at m' u ≡ some (stored e (lookup o e.key (entries cs))))
  insert_refines p coins e m cs w a =
      let i = insert-Inserted p coins e m cs w a in
      (i.result, i.cells, i.node, i.runs, i.valid, i.holds, i.value)

  -- erase of a key that some key of the map is not smaller than answers a map whose association
  -- list has lost the entry with that key, or is the same when the key is not there.
  pub erase_refines :
      (k : K) (m : Map K M) (cs : Cells K M)
      → IsMap o m cs
      → behind o k (entries cs) ≡ false
      → (m' : Map K M) × (cs' : Cells K M) × (erase o k m ≡ some m')
        × IsMap o m' cs'
        × (entries cs' ≡ without_key o k (entries cs))
  erase_refines k m cs w h = elim (where_is o k cs w.sorted) [
    | found xs c ys e q ↦
        let (m', runs, w', freed) = erase-old o m xs c ys (subst (IsMap o m) e w) in
        (
          m',
          xs ++ ys,
          subst (λ z. erase o z m ≡ some m') q runs,
          w',
          sym (
              subst (λ z. without_key o k (entries z) ≡ entries (xs ++ ys)) (sym e)
                (subst (λ z. without_key o z (entries (xs ++ (c ∷ ys))) ≡ entries (xs ++ ys)) q
                  (entries-found o xs c ys (subst (Sorted o) e w.sorted)).1)),
        )
    | between xs y ys e b a ↦ (
      m,
      cs,
      erase-other o k m xs y ys (subst (IsMap o m) e w) b a,
      w,
      subst (λ z. entries z ≡ without_key o k (entries z)) (sym e)
          (sym (entries-between o k xs y ys b a).1),
    )
    | last b ↦ absurd (cc (h, (entries-last o k cs b).2))
  ]

  -- erase of a key that all keys of a map are smaller than faults: it compares the key with that
  -- of the tail, which has no value.
  pub erase-past_end :
      (k : K) (m : Map K M) (cs : Cells K M)
      → IsMap o m cs
      → behind o k (entries cs) ≡ true
      → erase o k m ≡ none
  erase-past_end k m cs w h = elim (where_is o k cs w.sorted) [
    | found xs c ys e q ↦ absurd (
        cc (
          h,
          subst (λ z. behind o k (entries z) ≡ false) (sym e)
              (subst (λ z. behind o z (entries (xs ++ (c ∷ ys))) ≡ false) q
                (entries-found o xs c ys (subst (Sorted o) e w.sorted)).2),
        ))
    | between xs y ys e b a ↦ absurd (
        cc (
          h,
          subst (λ z. behind o k (entries z) ≡ false) (sym e) (entries-between o k xs y ys b a).2,
        ))
    | last b ↦ erase-behind o k m cs w b
  ]
