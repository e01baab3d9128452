-- ===== src/MapClass/Erase.antt =====
-- erase of lxcd::map takes the cell of the key out on every level and frees its node.
use ymir_project.Base.{
  ℕ, zero, suc, ◌-◌, ◌≤◌, ◌<◌, ◌≡◌, ◌≢◌, refl, sym, subst, ◌∙◌, inl, inr, none, some, [], ◌∷◌, ◌++◌,
  arith, leb, leb_le, length-append, append-nil, Bool-cases,
}
use ymir_project.Buffer.{◌>>=◌}
use ymir_project.TaskQueue.{Ptr, null}
use ymir_project.MapClass.{Memory, Map, levels, shrink, take_out, erase}
use ymir_project.MapClass.Order.{KeyOrder}
use ymir_project.MapClass.Chain.{
  Cell, Cells, All-left, All-right, All-remove, All-both, NotIn, last_at, last_at-ne, first_at,
  Chain, Chain-drop, Chain-first, Chain-same, Chain-replace,
}
use ymir_project.MapClass.Invariant.{stop_at, Low, Below, Above, IsMap}
use ymir_project.MapClass.Search.{search-Found}
use ymir_project.MapClass.Cells.{
  Distinct-left, Distinct-NotIn, Distinct-remove, Distinct-out, last_at-NotIn, first_at-ne,
  Backs-remove, Sorted-remove, Sorted-middle, Above-NotBelow, Above-differs,
}
use ymir_project.MapClass.Unlink.{Unlinked, unlinks, shrink-Low}

module _ {K M : Type 0} (o : KeyOrder K) where
  -- The cells around the one that is gone.
  Unlinked-IsMap :
      (m : Map K M) (xs : Cells K M) (c : Cell K M) (ys : Cells K M) (h : Memory K M) (max : ℕ)
      → IsMap o m (xs ++ (c ∷ ys))
      → Unlinked m xs c ys h
      → max ≤ m.max
      → Low max (xs ++ ys)
      → ((i : ℕ) → i ≤ levels → Chain (stop_at m.tail i) i h.link m.head (xs ++ ys))
      → IsMap o (record m { memory = h; max = max; size = m.size - 1 }) (xs ++ ys)
  Unlinked-IsMap m xs c ys h max w l le low chains =
      let q = c.addr in
      let out = Distinct-out m.head xs c ys w.distinct in
      let heads = Distinct-NotIn m.head (xs ++ (c ∷ ys)) w.distinct in
      let head_out = All-right (λ z. m.head ≢ z.addr) xs (c ∷ ys) heads in
      let tail_in = (All-right (λ z. m.tail ≢ z.addr) xs (c ∷ ys) w.tail_out).0 in
      record {
        chain = chains;
        backs =
            Backs-remove m.memory.prev h.prev m.head xs c ys m.tail l.forth l.prevs
              (λ z. tail_in (sym z)) (All-remove (λ z. m.tail ≢ z.addr) xs c ys w.tail_out)
              w.distinct w.backs;
        nodes =
            All-both (λ z. m.memory.node z.addr ≡ some (some z.entry)) (λ z. q ≢ z.addr)
              (λ z. h.node z.addr ≡ some (some z.entry)) (xs ++ ys)
              (λ z e n. l.values z.addr (λ x. n (sym x)) ∙ e)
              (All-remove (λ z. m.memory.node z.addr ≡ some (some z.entry)) xs c ys w.nodes) out;
        tail_value = l.values m.tail tail_in ∙ w.tail_value;
        tail_link =
            l.others m.tail 0 tail_in (
              last_at-ne 0 m.tail m.head xs (λ e. w.head_tail (sym e))
                (All-left (λ z. m.tail ≢ z.addr) xs (c ∷ ys) w.tail_out))
            ∙ w.tail_link;
        null_dead =
            l.values null (All-right (λ z. null ≢ z.addr) xs (c ∷ ys) w.null_out).0 ∙ w.null_dead;
        head_prev =
            l.prevs m.head head_out.0 (first_at-ne 0 m.head m.tail ys w.head_tail head_out.1)
            ∙ w.head_prev;
        head_tail = w.head_tail;
        head_null = w.head_null;
        tail_null = w.tail_null;
        distinct = Distinct-remove m.head xs c ys w.distinct;
        null_out = All-remove (λ z. null ≢ z.addr) xs c ys w.null_out;
        tail_out = All-remove (λ z. m.tail ≢ z.addr) xs c ys w.tail_out;
        sorted = Sorted-remove o xs c ys w.sorted;
        low = low;
        max_le = omega (arith, le, w.max_le);
        size_eq = omega (arith, w.size_eq, length-append xs ys, length-append xs (c ∷ ys));
      }

  Unlinked-chain :
      (m : Map K M) (xs : Cells K M) (c : Cell K M) (ys : Cells K M) (h : Memory K M)
      → IsMap o m (xs ++ (c ∷ ys))
      → Unlinked m xs c ys h
      → (i : ℕ) → i ≤ levels
      → Chain (stop_at m.tail i) i h.link m.head (xs ++ ys)
  Unlinked-chain m xs c ys h w l i le =
      let q = c.addr in
      let stop = stop_at m.tail i in
      let at = last_at i m.head xs in
      let out = Distinct-out m.head xs c ys w.distinct in
      let out_xs : NotIn q xs = All-left (λ z. q ≢ z.addr) xs ys out in
      let out_ys : NotIn q ys = All-right (λ z. q ≢ z.addr) xs ys out in
      let q_head : q ≢ m.head = λ z.
        (All-right (λ z. m.head ≢ z.addr) xs (c ∷ ys)
            (Distinct-NotIn m.head (xs ++ (c ∷ ys)) w.distinct)).0
          (sym z) in
      let mid = Chain-drop stop i m.memory.link m.head xs (c ∷ ys) (w.chain i le) in
      let at_ys : NotIn at ys = (last_at-NotIn i m.head xs (c ∷ ys) w.distinct).1 in
      let keep : (a : Ptr) → (NotIn a ys → ⊥) → h.link a i ≡ m.memory.link a i = λ x in_ys.
        l.others x i (λ e. in_ys (subst (λ z. NotIn z ys) (sym e) out_ys))
          (λ e. in_ys (subst (λ z. NotIn z ys) (sym e) at_ys)) in
      Chain-replace stop i m.memory.link h.link q m.head xs (c ∷ ys) ys q_head out_xs
        (Distinct-left m.head xs (c ∷ ys) w.distinct) (λ a n n'. l.others a i n n')
        (elim (Bool-cases (leb i c.level)) [
          | inl on ↦
              Chain-same stop i m.memory.link h.link q at ys (l.old i (ground (arith, on))) keep
                (rw on at mid).1
          | inr off ↦
              Chain-same stop i m.memory.link h.link at at ys
                (l.above at i (λ e. last_at-ne i q m.head xs q_head out_xs (sym e))
                  (ground (arith, off)))
                keep (rw off at mid)
        ])
        (w.chain i le)

  pub erase-old :
      (m : Map K M) (xs : Cells K M) (c : Cell K M) (ys : Cells K M)
      → IsMap o m (xs ++ (c ∷ ys))
      → (m' : Map K M) × (erase o c.entry.key m ≡ some m')
        × IsMap o m' (xs ++ ys)
        × (m'.memory.node c.addr ≡ none)
  unfolding erase take_out
  erase-old m xs c ys w =
      let (b, ab) = Sorted-middle o xs c ys w.sorted in
      let f =
        search-Found o m c.entry.key xs (c ∷ ys) w b
          (o.lt_irrefl c.entry.key, Above-NotBelow o c.entry.key ys ab) in
      let (h, l, runs) = unlinks o m xs c ys f.path w f.filled in
      let chains = Unlinked-chain m xs c ys h w l in
      let (max, shrinks, le, low) =
        shrink-Low h m.head (xs ++ ys) m.max
          (λ j in_use. (
            first_at j (stop_at m.tail j) (xs ++ ys),
            Chain-first (stop_at m.tail j) j h.link m.head (xs ++ ys)
                (chains j (omega (arith, in_use, w.max_le))),
            above_bottom j,
          ))
          (All-remove (λ z. null ≢ z.addr) xs c ys w.null_out)
          (All-remove (λ z. z.level ≤ m.max) xs c ys w.low) in
      (
        record m { memory = h; max = max; size = m.size - 1 },
        rw
            (
              f.runs,
              leb_le 0 c.level (omega arith),
              (All-right (λ z. m.memory.node z.addr ≡ some (some z.entry)) xs (c ∷ ys) w.nodes).0,
              (o.eq_iff c.entry.key c.entry.key).1 refl,
            )
            (runs (λ h. do
              max ← shrink h m.head m.max
              some (record m { memory = h; max = max; size = m.size - 1 }))
              ∙ rw shrinks refl),
        Unlinked-IsMap m xs c ys h max w l le low chains,
        l.freed,
      )
    where
      above_bottom :
          (j : ℕ) → 0 < j → first_at j (stop_at m.tail j) (xs ++ ys) ≡ first_at j null (xs ++ ys)
      above_bottom zero lt = absurd (omega arith)
      above_bottom (suc j) lt = refl

  -- A key that is not there, with a larger one behind it.
  pub erase-other :
      (k : K) (m : Map K M) (xs : Cells K M) (y : Cell K M) (ys : Cells K M)
      → IsMap o m (xs ++ (y ∷ ys))
      → Below o k xs
      → Above o k (y ∷ ys)
      → erase o k m ≡ some m
  unfolding erase
  erase-other k m xs y ys w b ab =
      let f = search-Found o m k xs (y ∷ ys) w b (Above-NotBelow o k (y ∷ ys) ab) in
      rw
        (
          f.runs,
          leb_le 0 y.level (omega arith),
          (All-right (λ z. m.memory.node z.addr ≡ some (some z.entry)) xs (y ∷ ys) w.nodes).0,
          Above-differs o k y ab.0,
        )
        refl

  -- A key above all others: the value of the tail is null.
  pub erase-behind :
      (k : K) (m : Map K M) (xs : Cells K M) → IsMap o m xs → Below o k xs → erase o k m ≡ none
  unfolding erase
  erase-behind k m xs w b =
      let f = search-Found o m k xs [] (subst (IsMap o m) (sym (append-nil xs)) w) b tt in
      rw (f.runs, w.tail_value) refl
