-- ===== src/MapClass/Splice.antt =====
-- What the loops of insert and erase change in the links: on each level, those of two nodes.
use ymir_project.Base.{
  ℕ, zero, suc, ◌+◌, ◌≤◌, ◌<◌, ◌≡◌, ◌≢◌, refl, sym, subst, ◌∙◌, inl, inr, Option, some, List, ◌&&◌,
  arith, ◌==◌, ==_ne, ==_self, ==_iff, ltb, if◌then◌else◌, Bool-cases, get_elem?,
}
use ymir_project.TaskQueue.{Ptr}
use ymir_project.MapClass.{Memory, set_link, splice, unsplice}

-- One store to a link.
linked : (Ptr → ℕ → Option Ptr) → Ptr → ℕ → Ptr → Ptr → ℕ → Option Ptr
linked link a i p b j = if a == b && i == j then some p else link b j

linked-at :
    (link : Ptr → ℕ → Option Ptr) (a : Ptr) (i : ℕ) (p : Ptr) → linked link a i p a i ≡ some p
unfolding linked
linked-at link a i p = rw (==_self a, ==_self i) refl

linked-node :
    (link : Ptr → ℕ → Option Ptr) (a : Ptr) (i : ℕ) (p b : Ptr) (j : ℕ)
    → b ≢ a
    → linked link a i p b j ≡ link b j
unfolding linked
linked-node link a i p b j ne = rw (==_ne a b (λ e. ne (sym e))) refl

linked-level :
    (link : Ptr → ℕ → Option Ptr) (a : Ptr) (i : ℕ) (p b : Ptr) (j : ℕ)
    → j ≢ i
    → linked link a i p b j ≡ link b j
unfolding linked
linked-level link a i p b j ne = elim (Bool-cases (a == b)) [
  | inl y ↦ rw (y, ==_ne i j (λ e. ne (sym e))) refl
  | inr n ↦ rw n refl
]

module _ {K M : Type 0} where
  abbrev with_link : Memory K M → (Ptr → ℕ → Option Ptr) → Memory K M
  with_link h link = record { link = link; prev = h.prev; node = h.node }

  set_link_lem :
      (h : Memory K M) (a : Ptr) (i : ℕ) (x p : Ptr)
      → h.link a i ≡ some x
      → set_link h a i p ≡ some (with_link h (linked h.link a i p))
  unfolding set_link linked
  set_link_lem h a i x p e = rw e refl

  -- The node `p` stands behind the nodes `at j` on the levels from `i` to `i + n`.
  pub record Spliced (n i : ℕ) (at : ℕ → Ptr) (p : Ptr) (h h' : Memory K M) : Type 0 where
    pub at_new : (j : ℕ) → i ≤ j → j < i + n → h'.link p j ≡ h.link (at j) j
    pub at_old : (j : ℕ) → i ≤ j → j < i + n → h'.link (at j) j ≡ some p
    pub others : (a : Ptr) (j : ℕ) → a ≢ p → a ≢ at j → h'.link a j ≡ h.link a j
    pub below : (a : Ptr) (j : ℕ) → j < i → h'.link a j ≡ h.link a j
    pub above : (a : Ptr) (j : ℕ) → i + n ≤ j → h'.link a j ≡ h.link a j
    pub prev_same : h'.prev ≡ h.prev
    pub node_same : h'.node ≡ h.node

  pub splice-Spliced :
      (n i : ℕ) (path : List Ptr) (at : ℕ → Ptr) (p : Ptr) (h : Memory K M) (old : ℕ → Ptr)
      (next : ℕ → Ptr)
      → ((j : ℕ) → i ≤ j → j < i + n → get_elem? path j ≡ some (at j))
      → ((j : ℕ) → i ≤ j → j < i + n → h.link (at j) j ≡ some (next j))
      → ((j : ℕ) → i ≤ j → j < i + n → h.link p j ≡ some (old j))
      → ((j : ℕ) → at j ≢ p)
      → (h' : Memory K M) × (splice n i path p h ≡ some h') × Spliced n i at p h h'
  unfolding splice
  splice-Spliced zero i path at p h old next g l q ne = (
    h,
    refl,
    record {
      at_new = λ j a b. absurd (omega arith);
      at_old = λ j a b. absurd (omega arith);
      others = λ a j x y. refl;
      below = λ a j x. refl;
      above = λ a j x. refl;
      prev_same = refl;
      node_same = refl;
    },
  )
  splice-Spliced (suc n) i path at p h old next g l q ne =
      let link1 = linked h.link p i (next i) in
      let h1 = with_link h link1 in
      let link2 = linked link1 (at i) i p in
      let h2 = with_link h1 link2 in
      let keep : (a : Ptr) (j : ℕ) → i < j → link2 a j ≡ h.link a j = λ a j lt.
        linked-level link1 (at i) i p a j (λ e. absurd (omega arith))
        ∙ linked-level h.link p i (next i) a j (λ e. absurd (omega arith)) in
      let at_i : link1 (at i) i ≡ some (next i) =
        linked-node h.link p i (next i) (at i) i (ne i) ∙ l i (omega arith) (omega arith) in
      let (h', runs, s) =
        splice-Spliced n (suc i) path at p h2 old next (λ j a b. g j (omega arith) (omega arith))
          (λ j a b. keep (at j) j a ∙ l j (omega arith) (omega arith))
          (λ j a b. keep p j a ∙ q j (omega arith) (omega arith)) ne in
      (
        h',
        rw
            (
              g i (omega arith) (omega arith),
              l i (omega arith) (omega arith),
              set_link_lem h p i (old i) (next i) (q i (omega arith) (omega arith)),
              set_link_lem h1 (at i) i (next i) p at_i,
            )
            runs,
        record {
          at_new = λ j a b. elim (Bool-cases (j == i)) [
            | inl y ↦
                subst (λ x. h'.link p x ≡ h.link (at x) x) (sym ((==_iff j i).0 y))
                  (s.below p i (omega arith)
                    ∙ linked-node link1 (at i) i p p i (λ e. ne i (sym e))
                    ∙ linked-at h.link p i (next i)
                    ∙ sym (l i (omega arith) (omega arith)))
            | inr no_eq ↦
                s.at_new j (ground (arith, no_eq, a)) (omega arith)
                ∙ keep (at j) j (ground (arith, no_eq, a))
          ];
          at_old = λ j a b. elim (Bool-cases (j == i)) [
            | inl y ↦
                subst (λ x. h'.link (at x) x ≡ some p) (sym ((==_iff j i).0 y))
                  (s.below (at i) i (omega arith) ∙ linked-at link1 (at i) i p)
            | inr no_eq ↦ s.at_old j (ground (arith, no_eq, a)) (omega arith)
          ];
          others = λ a j x y. s.others a j x y ∙ elim (Bool-cases (j == i)) [
            | inl e ↦
                linked-node link1 (at i) i p a j (subst (λ z. a ≢ at z) ((==_iff j i).0 e) y)
                ∙ linked-node h.link p i (next i) a j x
            | inr e ↦
                linked-level link1 (at i) i p a j (λ z. absurd (ground (arith, z, e)))
                ∙ linked-level h.link p i (next i) a j (λ z. absurd (ground (arith, z, e)))
          ];
          below = λ a j x.
              s.below a j (omega arith)
              ∙ linked-level link1 (at i) i p a j (λ e. absurd (omega arith))
              ∙ linked-level h.link p i (next i) a j (λ e. absurd (omega arith));
          above = λ a j x. s.above a j (omega arith) ∙ keep a j (omega arith);
          prev_same = s.prev_same;
          node_same = s.node_same;
        },
      )

  -- On the levels from `i` to `e` the links that led to `q` lead to where its own did.
  pub record Unspliced (i e : ℕ) (at : ℕ → Ptr) (q : Ptr) (h h' : Memory K M) : Type 0 where
    pub at_old : (j : ℕ) → i ≤ j → j < e → h'.link (at j) j ≡ h.link q j
    pub others : (a : Ptr) (j : ℕ) → a ≢ at j → h'.link a j ≡ h.link a j
    pub below : (a : Ptr) (j : ℕ) → j < i → h'.link a j ≡ h.link a j
    pub above : (a : Ptr) (j : ℕ) → e ≤ j → h'.link a j ≡ h.link a j
    pub prev_same : h'.prev ≡ h.prev
    pub node_same : h'.node ≡ h.node

  Unspliced-none :
      (i e : ℕ) (at : ℕ → Ptr) (q : Ptr) (h : Memory K M) → e ≤ i → Unspliced i e at q h h
  Unspliced-none i e at q h le = record {
    at_old = λ j a b. absurd (omega arith);
    others = λ a j x. refl;
    below = λ a j x. refl;
    above = λ a j x. refl;
    prev_same = refl;
    node_same = refl;
  }

  Unspliced-more :
      (i e : ℕ) (at : ℕ → Ptr) (q y : Ptr) (h h' : Memory K M)
      → h.link q i ≡ some y
      → i < e
      → Unspliced (suc i) e at q (with_link h (linked h.link (at i) i y)) h'
      → Unspliced i e at q h h'
  Unspliced-more i e at q y h h' l lt s =
      let keep : (a : Ptr) (j : ℕ) → i < j → linked h.link (at i) i y a j ≡ h.link a j =
        λ a j x. linked-level h.link (at i) i y a j (λ z. absurd (omega arith)) in
      record {
        at_old = λ j a b. elim (Bool-cases (j == i)) [
          | inl z ↦
              subst (λ x. h'.link (at x) x ≡ h.link q x) (sym ((==_iff j i).0 z))
                (s.below (at i) i (omega arith) ∙ linked-at h.link (at i) i y ∙ sym l)
          | inr z ↦ s.at_old j (ground (arith, z, a)) b ∙ keep q j (ground (arith, z, a))
        ];
        others = λ a j x. s.others a j x ∙ elim (Bool-cases (j == i)) [
          | inl z ↦ linked-node h.link (at i) i y a j (subst (λ w. a ≢ at w) ((==_iff j i).0 z) x)
          | inr z ↦ linked-level h.link (at i) i y a j (λ w. absurd (ground (arith, w, z)))
        ];
        below = λ a j x.
            s.below a j (omega arith)
            ∙ linked-level h.link (at i) i y a j (λ z. absurd (omega arith));
        above = λ a j x. s.above a j x ∙ keep a j (omega arith);
        prev_same = s.prev_same;
        node_same = s.node_same;
      }

  pub unsplice-Unspliced :
      (n i e : ℕ) (path : List Ptr) (at : ℕ → Ptr) (q : Ptr) (h : Memory K M) (next after : ℕ → Ptr)
      → i ≤ e
      → e ≤ i + n
      → ((j : ℕ) → i ≤ j → j < i + n → get_elem? path j ≡ some (at j))
      → ((j : ℕ) → i ≤ j → j < i + n → h.link (at j) j ≡ some (next j))
      → ((j : ℕ) → i ≤ j → j < e → next j ≡ q)
      → (e < i + n → next e ≢ q)
      → ((j : ℕ) → i ≤ j → j < e → h.link q j ≡ some (after j))
      → ((j : ℕ) → at j ≢ q)
      → (h' : Memory K M) × (unsplice n i path q h ≡ some h') × Unspliced i e at q h h'
  unfolding unsplice
  unsplice-Unspliced zero i e path at q h next after le ge g l hit miss own ne =
      (h, refl, Unspliced-none i e at q h (omega arith))
  unsplice-Unspliced (suc n) i e path at q h next after le ge g l hit miss own ne =
      elim (Bool-cases (ltb i e)) [
        | inr stop ↦
            let same : i ≡ e = ground (arith, stop, le) in
            let far : next i ≢ q = subst (λ x. next x ≢ q) (sym same) (miss (omega arith)) in
            (
              h,
              rw
                  (
                    g i (omega arith) (omega arith),
                    l i (omega arith) (omega arith),
                    ==_ne (next i) q far,
                  )
                  refl,
              Unspliced-none i e at q h (omega arith),
            )
        | inl go ↦
            let lt : i < e = ground (arith, go) in
            let y = after i in
            let h1 = with_link h (linked h.link (at i) i y) in
            let keep : (a : Ptr) (j : ℕ) → i < j → linked h.link (at i) i y a j ≡ h.link a j =
              λ a j x. linked-level h.link (at i) i y a j (λ z. absurd (omega arith)) in
            let (h', runs, s) =
              unsplice-Unspliced n (suc i) e path at q h1 next after (omega arith) (omega arith)
                (λ j a b. g j (omega arith) (omega arith))
                (λ j a b. keep (at j) j a ∙ l j (omega arith) (omega arith))
                (λ j a b. hit j (omega arith) b) (λ x. miss (omega arith))
                (λ j a b. keep q j a ∙ own j (omega arith) b) ne in
            (
              h',
              rw
                  (
                    g i (omega arith) (omega arith),
                    l i (omega arith) (omega arith),
                    hit i (omega arith) lt,
                    ==_self q,
                    own i (omega arith) lt,
                    set_link_lem h (at i) i (next i) y (l i (omega arith) (omega arith)),
                  )
                  runs,
              Unspliced-more i e at q y h h' (own i (omega arith) lt) lt s,
            )
      ]
