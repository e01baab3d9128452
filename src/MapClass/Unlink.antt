-- ===== src/MapClass/Unlink.antt =====
-- What erase of lxcd::map leaves of the memory.
use ymir_project.Base.{
  ℕ, zero, suc, ◌≤◌, ◌<◌, ◌≡◌, ◌≢◌, refl, sym, ap, subst, ◌∙◌, inl, inr, Bool, true, false, Option,
  none, some, List, [], ◌∷◌, ◌++◌, arith, ◌==◌, leb_le, leb_gt, ==_ne, ==_self, ==_iff,
  if◌then◌else◌, ◌&&◌, append_assoc, get_elem?, Bool-cases,
}
use ymir_project.Buffer.{◌>>=◌}
use ymir_project.TaskQueue.{Ptr, null}
use ymir_project.MapClass.{Memory, Map, levels, set_link, set_prev, delete_node, unsplice, shrink}
use ymir_project.MapClass.Order.{KeyOrder}
use ymir_project.MapClass.Chain.{
  Cell, Cells, All-left, All-right, NotIn, last_at, last_at-ne, first_at, Chain, Chain-drop,
  Chain-first,
}
use ymir_project.MapClass.Invariant.{stop_at, Backs, Low, IsMap}
use ymir_project.MapClass.Splice.{unsplice-Unspliced}
use ymir_project.MapClass.Cells.{Distinct-NotIn, Distinct-out, first_at-ne, first_at-none, Backs-at}
use ymir_project.MapClass.NewNode.{set_prev-PrevSet}
use ymir_project.MapClass.Insert.{Backs-first}

module _ {K M : Type 0} where
  -- Setting a link to what it is.
  same_link :
      (h : Memory K M) (b : Bool) (a : Ptr) (t : Ptr)
      → h.link a 0 ≡ some t
      → (tail : Ptr) → (b ≡ true → t ≡ tail)
      → (h' : Memory K M) × ((if b then set_link h a 0 tail else some h) ≡ some h')
        × ((x : Ptr) (j : ℕ) → h'.link x j ≡ h.link x j)
        × (h'.prev ≡ h.prev)
        × (h'.node ≡ h.node)
  unfolding set_link
  same_link h false a t e tail f = (h, refl, λ x j. refl, refl, refl)
  same_link h true a t e tail f = (
    record h { link = λ b j. if a == b && 0 == j then some tail else h.link b j },
    rw e refl,
    λ x j. elim (Bool-cases (a == x)) [
      | inr n ↦ rw n refl
      | inl y ↦ elim (Bool-cases (0 == j)) [
        | inr n ↦ rw (y, n) refl
        | inl z ↦
            rw (y, z)
              (subst (λ i. some tail ≡ h.link x i) ((==_iff 0 j).0 z)
                (subst (λ x. some tail ≡ h.link x 0) ((==_iff a x).0 y)
                  (sym (e ∙ ap some (f refl)))))
      ]
    ],
    refl,
    refl,
  )

  delete_node-links :
      (h : Memory K M) (q a : Ptr)
      → a ≢ q
      → ((j : ℕ) → (delete_node h q).link a j ≡ h.link a j)
        × ((delete_node h q).prev a ≡ h.prev a)
        × ((delete_node h q).node a ≡ h.node a)
  unfolding delete_node
  delete_node-links h q a ne =
      let e = ==_ne q a (λ z. ne (sym z)) in (λ j. rw e refl, rw e refl, rw e refl)

  delete_node-freed : (h : Memory K M) (q : Ptr) → (delete_node h q).node q ≡ none
  unfolding delete_node
  delete_node-freed h q = rw (==_self q) refl

  -- What take_out leaves of the memory without the cell `c` between `xs` and `ys`.
  pub record Unlinked (m : Map K M) (xs : Cells K M) (c : Cell K M) (ys : Cells K M)
      (h : Memory K M) : Type 0 where
    pub old : (j : ℕ) → j ≤ c.level → h.link (last_at j m.head xs) j ≡ m.memory.link c.addr j
    pub others :
        (a : Ptr) (j : ℕ) → a ≢ c.addr → a ≢ last_at j m.head xs → h.link a j ≡ m.memory.link a j
    pub above : (a : Ptr) (j : ℕ) → a ≢ c.addr → c.level < j → h.link a j ≡ m.memory.link a j
    pub forth : h.prev (first_at 0 m.tail ys) ≡ some (last_at 0 m.head xs)
    pub prevs : (a : Ptr) → a ≢ c.addr → a ≢ first_at 0 m.tail ys → h.prev a ≡ m.memory.prev a
    pub values : (a : Ptr) → a ≢ c.addr → h.node a ≡ m.memory.node a
    pub freed : h.node c.addr ≡ none

  -- The highest level that is left.
  pub shrink-Low :
      (h : Memory K M) (head : Ptr) (cs : Cells K M) (i : ℕ)
      → ((j : ℕ) → j ≤ i → (x : Ptr) × (h.link head j ≡ some x) × (0 < j → x ≡ first_at j null cs))
      → NotIn null cs
      → Low i cs
      → (i' : ℕ) × (shrink h head i ≡ some i') × (i' ≤ i) × Low i' cs
  unfolding shrink
  shrink-Low h head cs zero f out low = (0, refl, omega arith, low)
  shrink-Low h head cs (suc i) f out low =
      let (x, e, g) = f (suc i) (omega arith) in
      elim (Bool-cases (x == null)) [
        | inr n ↦ (suc i, rw (e, n) refl, omega arith, low)
        | inl y ↦
            let (i', runs, le, low') =
              shrink-Low h head cs i (λ j b. f j (omega arith)) out
                (first_at-none i null cs out (sym (g (omega arith)) ∙ (==_iff x null).0 y)) in
            (i', rw (e, y) runs, omega arith, low')
      ]

  module _ (o : KeyOrder K) where
    pub unlinks :
        (m : Map K M) (xs : Cells K M) (c : Cell K M) (ys : Cells K M) (path : List Ptr)
        → IsMap o m (xs ++ (c ∷ ys))
        → ((j : ℕ) → j ≤ m.max → get_elem? path j ≡ some (last_at j m.head xs))
        → (h : Memory K M) × Unlinked m xs c ys h
          × ((finish : Memory K M → Option (Map K M))
              → (do
                h ← unsplice (suc m.max) 0 path c.addr m.memory
                x ← h.link c.addr 0
                b ← h.prev c.addr
                h ← set_prev h x b
                h ← if x == m.tail then set_link h b 0 m.tail else some h
                finish (delete_node h c.addr))
                ≡ finish h)
    unlinks m xs c ys path w g =
        let q = c.addr in
        let at : ℕ → Ptr = λ j. last_at j m.head xs in
        let out = Distinct-out m.head xs c ys w.distinct in
        let head_out =
          All-right (λ z. m.head ≢ z.addr) xs (c ∷ ys)
            (Distinct-NotIn m.head (xs ++ (c ∷ ys)) w.distinct) in
        let tail_out = All-right (λ z. m.tail ≢ z.addr) xs (c ∷ ys) w.tail_out in
        let ne : (j : ℕ) → at j ≢ q = λ j e.
          last_at-ne j q m.head xs (λ z. head_out.0 (sym z)) (All-left (λ z. q ≢ z.addr) xs ys out)
            (sym e) in
        let mid : (j : ℕ) → j ≤ levels → Chain (stop_at m.tail j) j m.memory.link (at j) (c ∷ ys) =
          λ j b. Chain-drop (stop_at m.tail j) j m.memory.link m.head xs (c ∷ ys) (w.chain j b) in
        let level : c.level ≤ m.max = (All-right (λ z. z.level ≤ m.max) xs (c ∷ ys) w.low).0 in
        let after : (j : ℕ)
            → j ≤ c.level
            → m.memory.link q j ≡ some (first_at j (stop_at m.tail j) ys) =
          λ j b.
            Chain-first (stop_at m.tail j) j m.memory.link q ys
              (rw (leb_le j c.level b) at (mid j (omega (arith, b, level, w.max_le)))).1 in
        let (h1, runs, s) =
          unsplice-Unspliced (suc m.max) 0 (suc c.level) path at q m.memory
            (λ j. first_at j (stop_at m.tail j) (c ∷ ys)) (λ j. first_at j (stop_at m.tail j) ys)
            (omega arith) (omega arith) (λ j a b. g j (omega arith))
            (λ j a b.
              Chain-first (stop_at m.tail j) j m.memory.link (at j) (c ∷ ys)
                (mid j (omega (arith, b, w.max_le))))
            (λ j a b. rw (leb_le j c.level (omega arith)) refl)
            (λ b e.
              first_at-ne (suc c.level) q null ys
                (λ z. (All-right (λ z. null ≢ z.addr) xs (c ∷ ys) w.null_out).0 (sym z))
                (All-right (λ z. q ≢ z.addr) xs ys out)
                (sym (rw (leb_gt (suc c.level) c.level (omega arith)) at e)))
            (λ j a b. after j (omega arith)) ne in
        let x = first_at 0 m.tail ys in
        let x_link : h1.link q 0 ≡ some x =
          s.others q 0 (λ e. ne 0 (sym e)) ∙ after 0 (omega arith) in
        let x_ne : x ≢ q = λ e.
          first_at-ne 0 q m.tail ys (λ z. tail_out.0 (sym z))
            (All-right (λ z. q ≢ z.addr) xs ys out) (sym e) in
        let b_link : h1.prev q ≡ some (at 0) =
          ap (λ f. f q) s.prev_same ∙ Backs-at m.memory.prev m.head xs c ys m.tail w.backs in
        let (y, was) = Backs-later m xs c ys w.backs in
        let (h2, runs2, t) = set_prev-PrevSet h1 x (at 0) y (ap (λ f. f x) s.prev_same ∙ was) in
        let link_at : h2.link (at 0) 0 ≡ some x =
          ap (λ f. f (at 0) 0) t.links
          ∙ s.at_old 0 (omega arith) (omega arith)
          ∙ after 0 (omega arith) in
        let (h3, runs3, links, prevs, values) =
          same_link h2 (x == m.tail) (at 0) x link_at m.tail (λ e. (==_iff x m.tail).0 e) in
        let link : (a : Ptr) (j : ℕ) → a ≢ q → (delete_node h3 q).link a j ≡ h1.link a j =
          λ a j n. (delete_node-links h3 q a n).0 j ∙ links a j ∙ ap (λ f. f a j) t.links in
        let prev : (a : Ptr) → a ≢ q → (delete_node h3 q).prev a ≡ h2.prev a =
          λ a n. (delete_node-links h3 q a n).1 ∙ ap (λ f. f a) prevs in
        (
          delete_node h3 q,
          record {
            old = λ j b. link (at j) j (ne j) ∙ s.at_old j (omega arith) (omega arith);
            others = λ a j n n'. link a j n ∙ s.others a j n';
            above = λ a j n lt. link a j n ∙ s.above a j (omega arith);
            forth = prev x x_ne ∙ t.own;
            prevs = λ a n n'. prev a n ∙ t.others a n' ∙ ap (λ f. f a) s.prev_same;
            values = λ a n.
                (delete_node-links h3 q a n).2
                ∙ ap (λ f. f a) values
                ∙ ap (λ f. f a) t.values
                ∙ ap (λ f. f a) s.node_same;
            freed = delete_node-freed h3 q;
          },
          λ finish. rw (runs, x_link, b_link, runs2, runs3) refl,
        )
      where
        Backs-later :
            (m : Map K M) (xs : Cells K M) (c : Cell K M) (ys : Cells K M)
            → Backs m.memory.prev m.head (xs ++ (c ∷ ys)) m.tail
            → (y : Ptr) × (m.memory.prev (first_at 0 m.tail ys) ≡ some y)
        Backs-later m xs c ys b =
            Backs-first m.memory.prev m.head (xs ++ (c ∷ [])) ys m.tail (
              subst (λ z. Backs m.memory.prev m.head z m.tail) (sym (append_assoc xs (c ∷ []) ys))
                b)
