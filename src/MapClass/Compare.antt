-- ===== src/MapClass/Compare.antt =====
-- The comparisons of two lxcd::maps, on their association lists.
use ymir_project.Base.{
  ℕ, zero, suc, ◌≤◌, ◌≡◌, refl, sym, ap, ◌∙◌, Bool, true, false, some, List, [], ◌∷◌, arith, ◌==◌,
  ltb, leb_le, ==_ne, ==_self, if◌then◌else◌, length, length-map, Bool-cases, inl, inr,
}
use ymir_project.TaskQueue.{Ptr, null}
use ymir_project.MapClass.{Pair, Map, begin_of, end_of, forward, entry_at}
use ymir_project.MapClass.Order.{KeyOrder}
use ymir_project.MapClass.Whole.{equal_loop, map_eq, less_loop, map_lt}
use ymir_project.MapClass.Chain.{Cell, Cells, NotIn, Chain, Chain-first, first_at}
use ymir_project.MapClass.Invariant.{Nodes, IsMap}
use ymir_project.MapClass.AssocList.{entries}

module _ {K M : Type 0} where
  -- Two lists entry by entry, up to the end of the shorter one.
  unfoldable pub none_differs :
      (Pair K M → Pair K M → Bool) → List (Pair K M) → List (Pair K M) → Bool
  none_differs differ [] ys = true
  none_differs differ (x ∷ xs) [] = true
  none_differs differ (x ∷ xs) (y ∷ ys) =
      let rest = none_differs differ xs ys in if differ x y then false else rest

  unfoldable pub keys_less : (K → K → Bool) → List (Pair K M) → List (Pair K M) → Bool
  keys_less lt [] ys = false
  keys_less lt (x ∷ xs) [] = false
  keys_less lt (x ∷ xs) (y ∷ ys) =
      let rest = keys_less lt xs ys in
      if lt x.key y.key then true else if lt y.key x.key then false else rest

  -- An iterator at the first of the cells that are left.
  record At (m : Map K M) (u : Ptr) (cs : Cells K M) : Type 0 where
    from : Ptr
    chain : Chain m.tail 0 m.memory.link from cs
    nodes : Nodes m.memory.node cs
    tail_out : NotIn m.tail cs
    null_out : NotIn null cs
    here : u ≡ first_at 0 m.tail cs

  At-end : (m : Map K M) (u : Ptr) → At m u [] → (u == end_of m) ≡ true
  unfolding end_of
  At-end m u a = rw a.here (==_self m.tail)

  At-cell :
      (m : Map K M) (u : Ptr) (c : Cell K M) (cs : Cells K M)
      → At m u (c ∷ cs)
      → ((u == end_of m) ≡ false)
        × (entry_at m u ≡ some c.entry)
        × (v : Ptr) × (forward m u ≡ some v)
        × At m v cs
  unfolding end_of entry_at forward
  At-cell m u c cs a =
      let on = leb_le 0 c.level (omega arith) in
      let here : u ≡ c.addr = a.here ∙ rw on refl in
      let next = (rw on at a.chain).1 in
      (
        rw here (==_ne c.addr m.tail (λ e. a.tail_out.0 (sym e))),
        rw (here, a.nodes.0) refl,
        first_at 0 m.tail cs,
        rw (here, ==_ne c.addr null (λ e. a.null_out.0 (sym e)))
            (Chain-first m.tail 0 m.memory.link c.addr cs next),
        record {
          from = c.addr;
          chain = next;
          nodes = a.nodes.1;
          tail_out = a.tail_out.1;
          null_out = a.null_out.1;
          here = refl;
        },
      )

  equal_loop_lem :
      (differ : Pair K M → Pair K M → Bool) (n : ℕ) (a b : Map K M) (u v : Ptr) (es fs : Cells K M)
      → length es ≤ n
      → At a u es
      → At b v fs
      → equal_loop differ (suc n) a u b v ≡ some (none_differs differ (entries es) (entries fs))
  unfolding equal_loop none_differs entries
  equal_loop_lem differ n a b u v [] fs le p q = rw (At-end a u p) refl
  equal_loop_lem differ n a b u v (x ∷ es) [] le p q =
      rw ((At-cell a u x es p).0, At-end b v q) refl
  equal_loop_lem differ zero a b u v (x ∷ es) (y ∷ fs) le p q = absurd (omega arith)
  equal_loop_lem differ (suc n) a b u v (x ∷ es) (y ∷ fs) le p q =
      let (pe, pv, u', pf, p') = At-cell a u x es p in
      let (qe, qv, v', qf, q') = At-cell b v y fs q in
      rw (pe, qe, pv, qv)
        (elim (Bool-cases (differ x.entry y.entry)) [
          | inl d ↦ rw d refl
          | inr d ↦ rw (d, pf, qf) (equal_loop_lem differ n a b u' v' es fs (omega arith) p' q')
        ])

module _ {K M : Type 0} (o : KeyOrder K) where
  begin-At :
      (m : Map K M) (cs : Cells K M) → IsMap o m cs → (u : Ptr) × (begin_of m ≡ some u) × At m u cs
  unfolding begin_of
  begin-At m cs w = (
    first_at 0 m.tail cs,
    Chain-first m.tail 0 m.memory.link m.head cs (w.chain 0 (omega arith)),
    record {
      from = m.head;
      chain = w.chain 0 (omega arith);
      nodes = w.nodes;
      tail_out = w.tail_out;
      null_out = w.null_out;
      here = refl;
    },
  )

  -- size() is the number of the entries.
  pub size-entries : (m : Map K M) (cs : Cells K M) → IsMap o m cs → m.size ≡ length (entries cs)
  unfolding entries
  size-entries m cs w = w.size_eq ∙ sym (length-map {0, 0} (λ c. c.entry) cs)

  -- operator== of two maps ends, and is true exactly when they have es many entries, and entry by
  -- entry these do not differ.
  pub map_eq-entries :
      (differ : Pair K M → Pair K M → Bool) (a b : Map K M) (es fs : Cells K M)
      → IsMap o a es
      → IsMap o b fs
      → map_eq differ a b
        ≡ some (
            if length (entries es) == length (entries fs)
            then none_differs differ (entries es) (entries fs)
            else false)
  unfolding map_eq
  map_eq-entries differ a b es fs w v =
      let (u, e, p) = begin-At a es w in
      let (u', e', q) = begin-At b fs v in
      let run : map_eq differ a b
          ≡ some
              (if a.size == b.size then none_differs differ (entries es) (entries fs) else false) =
        elim (Bool-cases (a.size == b.size)) [
          | inr n ↦ rw n refl
          | inl y ↦
              rw (y, e, e')
                (equal_loop_lem differ a.size a b u u' es fs (omega (arith, w.size_eq)) p q)
        ] in
      run
      ∙ ap
          (λ n. some (if n == b.size then none_differs differ (entries es) (entries fs) else false))
          (size-entries a es w)
      ∙ ap
          (λ n. some (
            if length (entries es) == n
            then none_differs differ (entries es) (entries fs)
            else false))
          (size-entries b fs v)

  less_loop_lem :
      (n : ℕ) (a b : Map K M) (u v : Ptr) (es fs : Cells K M)
      → length es ≤ n
      → At a u es
      → At b v fs
      → less_loop o (suc n) a u b v ≡ some (keys_less o.lt (entries es) (entries fs))
  unfolding less_loop keys_less entries
  less_loop_lem n a b u v [] fs le p q = rw (At-end a u p) refl
  less_loop_lem n a b u v (x ∷ es) [] le p q = rw ((At-cell a u x es p).0, At-end b v q) refl
  less_loop_lem zero a b u v (x ∷ es) (y ∷ fs) le p q = absurd (omega arith)
  less_loop_lem (suc n) a b u v (x ∷ es) (y ∷ fs) le p q =
      let (pe, pv, u', pf, p') = At-cell a u x es p in
      let (qe, qv, v', qf, q') = At-cell b v y fs q in
      rw (pe, qe, pv, qv)
        (elim (Bool-cases (o.lt x.entry.key y.entry.key)) [
          | inl d ↦ rw d refl
          | inr d ↦ rw d (elim (Bool-cases (o.lt y.entry.key x.entry.key)) [
            | inl f ↦ rw f refl
            | inr f ↦ rw (f, pf, qf) (less_loop_lem n a b u' v' es fs (omega arith) p' q')
          ])
        ])

  -- operator< of two maps ends: the one with fewer entries is less, and of two of one size the one
  -- with the smaller key where the keys first differ, whatever the values are.
  pub map_lt-entries :
      (a b : Map K M) (es fs : Cells K M)
      → IsMap o a es
      → IsMap o b fs
      → map_lt o a b
        ≡ some (
            if ltb (length (entries es)) (length (entries fs))
            then true
            else if ltb (length (entries fs)) (length (entries es))
            then false
            else keys_less o.lt (entries es) (entries fs))
  unfolding map_lt
  map_lt-entries a b es fs w v =
      let (u, e, p) = begin-At a es w in
      let (u', e', q) = begin-At b fs v in
      let answer : ℕ → ℕ → Bool = λ n k.
        if ltb n k
        then true
        else if ltb k n
        then false
        else keys_less o.lt (entries es) (entries fs) in
      let run : map_lt o a b ≡ some (answer a.size b.size) = elim (Bool-cases (ltb a.size b.size)) [
        | inl y ↦ rw y refl
        | inr n ↦ rw n (elim (Bool-cases (ltb b.size a.size)) [
          | inl y ↦ rw y refl
          | inr k ↦
              rw (k, e, e') (less_loop_lem a.size a b u u' es fs (omega (arith, w.size_eq)) p q)
        ])
      ] in
      run
      ∙ ap (λ n. some (answer n b.size)) (size-entries a es w)
      ∙ ap (λ n. some (answer (length (entries es)) n)) (size-entries b fs v)
