-- ===== src/MapClass/Cells.antt =====
-- The parts of the invariant that speak of the cells, when one cell comes or goes.
use ymir_project.Base.{
  ℕ, suc, ◌<◌, ◌≡◌, ◌≢◌, refl, sym, ap, ◌∙◌, inl, inr, true, false, Option, some, [], ◌∷◌, ◌++◌,
  arith, leb, leb_le, leb_gt, Bool-cases,
}
use ymir_project.TaskQueue.{Ptr}
use ymir_project.MapClass.Order.{KeyOrder}
use ymir_project.MapClass.Chain.{
  Cell, Cells, All, All-left, All-right, All-insert, All-remove, All-map, All-both, NotIn, Distinct,
  Distinct-skip, last_at, first_at,
}
use ymir_project.MapClass.Invariant.{Backs, Low, Below, NotBelow, Above, Sorted}

module _ {K M : Type 0} where
  pub Distinct-left : (u : Ptr) (xs ys : Cells K M) → Distinct u (xs ++ ys) → Distinct u xs
  Distinct-left u [] ys d = tt
  Distinct-left u (x ∷ xs) ys d =
      (d.0, All-left (λ c. u ≢ c.addr) xs ys d.1, Distinct-left x.addr xs ys d.2)

  pub Distinct-NotIn : (u : Ptr) (cs : Cells K M) → Distinct u cs → NotIn u cs
  Distinct-NotIn u [] d = tt
  Distinct-NotIn u (c ∷ cs) d = (d.0, d.1)

  -- The last cell of a first part is none of the others.
  pub last_at-NotIn :
      (i : ℕ) (u : Ptr) (xs ys : Cells K M) → Distinct u (xs ++ ys) → NotIn (last_at i u xs) ys
  last_at-NotIn i u [] ys d = Distinct-NotIn u ys d
  last_at-NotIn i u (x ∷ xs) ys d = elim (Bool-cases (leb i x.level)) [
    | inl on ↦ rw on (last_at-NotIn i x.addr xs ys d.2)
    | inr off ↦ rw off (last_at-NotIn i u xs ys (Distinct-skip u x (xs ++ ys) d))
  ]

  pub last_at-high :
      (i max : ℕ) (u : Ptr) (xs : Cells K M) → max < i → Low max xs → last_at i u xs ≡ u
  last_at-high i max u [] lt low = refl
  last_at-high i max u (x ∷ xs) lt low =
      rw (leb_gt i x.level (omega (arith, lt, low.0))) (last_at-high i max u xs lt low.1)

  pub first_at-ne :
      (i : ℕ) (a stop : Ptr) (ys : Cells K M) → a ≢ stop → NotIn a ys → a ≢ first_at i stop ys
  first_at-ne i a stop [] ne n = ne
  first_at-ne i a stop (y ∷ ys) ne n = elim (Bool-cases (leb i y.level)) [
    | inl on ↦ rw on n.0
    | inr off ↦ rw off (first_at-ne i a stop ys ne n.1)
  ]

  pub Distinct-insert :
      (u : Ptr) (xs : Cells K M) (c : Cell K M) (ys : Cells K M)
      → c.addr ≢ u
      → NotIn c.addr (xs ++ ys)
      → Distinct u (xs ++ ys)
      → Distinct u (xs ++ (c ∷ ys))
  Distinct-insert u [] c [] ne out d = (λ e. ne (sym e), tt, tt)
  Distinct-insert u [] c (y ∷ ys) ne out d = (λ e. ne (sym e), (d.0, d.1), (out.0, out.1, d.2))
  Distinct-insert u (x ∷ xs) c ys ne out d = (
    d.0,
    All-insert (λ z. u ≢ z.addr) xs c ys d.1 (λ e. ne (sym e)),
    Distinct-insert x.addr xs c ys out.0 out.1 d.2,
  )

  pub Distinct-remove :
      (u : Ptr) (xs : Cells K M) (c : Cell K M) (ys : Cells K M)
      → Distinct u (xs ++ (c ∷ ys))
      → Distinct u (xs ++ ys)
  Distinct-remove u [] c ys d = Distinct-skip u c ys d
  Distinct-remove u (x ∷ xs) c ys d =
      (d.0, All-remove (λ z. u ≢ z.addr) xs c ys d.1, Distinct-remove x.addr xs c ys d.2)

  -- The cell that is taken out is none of the others.
  pub Distinct-out :
      (u : Ptr) (xs : Cells K M) (c : Cell K M) (ys : Cells K M)
      → Distinct u (xs ++ (c ∷ ys))
      → NotIn c.addr (xs ++ ys)
  Distinct-out u [] c ys d = Distinct-NotIn c.addr ys d.2
  Distinct-out u (x ∷ xs) c ys d =
      let apart =
        All-right (λ z. x.addr ≢ z.addr) xs (c ∷ ys) (Distinct-NotIn x.addr (xs ++ (c ∷ ys)) d.2) in
      (λ e. apart.0 (sym e), Distinct-out x.addr xs c ys d.2)

  -- Back links that agree at the cells and at the tail are the same chain.
  Backs-same :
      (prev prev' : Ptr → Option Ptr) (u : Ptr) (cs : Cells K M) (tail : Ptr)
      → prev' tail ≡ prev tail
      → All (λ c. prev' c.addr ≡ prev c.addr) cs
      → Backs prev u cs tail
      → Backs prev' u cs tail
  Backs-same prev prev' u [] tail e a b = e ∙ b
  Backs-same prev prev' u (c ∷ cs) tail e a b =
      (a.0 ∙ b.0, Backs-same prev prev' c.addr cs tail e a.1 b.1)

  pub Backs-insert :
      (prev prev' : Ptr → Option Ptr) (u : Ptr) (xs : Cells K M) (c : Cell K M) (ys : Cells K M)
      (tail : Ptr)
      → prev' c.addr ≡ some (last_at 0 u xs)
      → prev' (first_at 0 tail ys) ≡ some c.addr
      → ((a : Ptr) → a ≢ c.addr → a ≢ first_at 0 tail ys → prev' a ≡ prev a)
      → NotIn c.addr (xs ++ ys)
      → c.addr ≢ tail
      → NotIn tail (xs ++ ys)
      → Distinct u (xs ++ ys)
      → Backs prev u (xs ++ ys) tail
      → Backs prev' u (xs ++ (c ∷ ys)) tail
  Backs-insert prev prev' u [] c [] tail e f same out ne tail_out d b = (e, f)
  Backs-insert prev prev' u [] c (y ∷ ys) tail e f same out ne tail_out d b =
      let first : first_at 0 tail (y ∷ ys) ≡ y.addr = rw (leb_le 0 y.level (omega arith)) refl in
      let keep : (a : Ptr) → a ≢ c.addr → a ≢ y.addr → prev' a ≡ prev a =
        λ a p q. same a p (λ z. q (z ∙ first)) in
      (
        e,
        (
          ap prev' (sym first) ∙ f,
          Backs-same prev prev' y.addr ys tail (keep tail (λ z. ne (sym z)) tail_out.0)
              (All-both (λ z. c.addr ≢ z.addr) (λ z. y.addr ≢ z.addr)
                (λ z. prev' z.addr ≡ prev z.addr) ys
                (λ z p q. keep z.addr (λ w. p (sym w)) (λ w. q (sym w))) out.1
                (Distinct-NotIn y.addr ys d.2))
              b.1,
        ),
      )
  Backs-insert prev prev' u (x ∷ xs) c ys tail e f same out ne tail_out d b =
      let on = leb_le 0 x.level (omega arith) in
      let last : last_at 0 u (x ∷ xs) ≡ last_at 0 x.addr xs = rw on refl in
      (
        same x.addr (λ z. out.0 (sym z))
              (first_at-ne 0 x.addr tail ys (λ z. tail_out.0 (sym z))
                (All-right (λ z. x.addr ≢ z.addr) xs ys (Distinct-NotIn x.addr (xs ++ ys) d.2)))
            ∙ b.0,
        Backs-insert prev prev' x.addr xs c ys tail (e ∙ ap some last) f same out.1 ne tail_out.1
            d.2 b.1,
      )

  pub Backs-at :
      (prev : Ptr → Option Ptr) (u : Ptr) (xs : Cells K M) (c : Cell K M) (ys : Cells K M)
      (tail : Ptr)
      → Backs prev u (xs ++ (c ∷ ys)) tail
      → prev c.addr ≡ some (last_at 0 u xs)
  Backs-at prev u [] c ys tail b = b.0
  Backs-at prev u (x ∷ xs) c ys tail b =
      rw (leb_le 0 x.level (omega arith)) (Backs-at prev x.addr xs c ys tail b.1)

  pub Backs-remove :
      (prev prev' : Ptr → Option Ptr) (u : Ptr) (xs : Cells K M) (c : Cell K M) (ys : Cells K M)
      (tail : Ptr)
      → prev' (first_at 0 tail ys) ≡ some (last_at 0 u xs)
      → ((a : Ptr) → a ≢ c.addr → a ≢ first_at 0 tail ys → prev' a ≡ prev a)
      → c.addr ≢ tail
      → NotIn tail (xs ++ ys)
      → Distinct u (xs ++ (c ∷ ys))
      → Backs prev u (xs ++ (c ∷ ys)) tail
      → Backs prev' u (xs ++ ys) tail
  Backs-remove prev prev' u [] c [] tail f same ne tail_out d b = f
  Backs-remove prev prev' u [] c (y ∷ ys) tail f same ne tail_out d b =
      let first : first_at 0 tail (y ∷ ys) ≡ y.addr = rw (leb_le 0 y.level (omega arith)) refl in
      let keep : (a : Ptr) → a ≢ c.addr → a ≢ y.addr → prev' a ≡ prev a =
        λ a p q. same a p (λ z. q (z ∙ first)) in
      (
        ap prev' (sym first) ∙ f,
        Backs-same prev prev' y.addr ys tail (keep tail (λ z. ne (sym z)) tail_out.0)
            (All-both (λ z. c.addr ≢ z.addr) (λ z. y.addr ≢ z.addr)
              (λ z. prev' z.addr ≡ prev z.addr) ys
              (λ z p q. keep z.addr (λ w. p (sym w)) (λ w. q (sym w))) d.2.1
              (Distinct-NotIn y.addr ys d.2.2))
            b.1.1,
      )
  Backs-remove prev prev' u (x ∷ xs) c ys tail f same ne tail_out d b =
      let on = leb_le 0 x.level (omega arith) in
      let last : last_at 0 u (x ∷ xs) ≡ last_at 0 x.addr xs = rw on refl in
      let apart =
        All-right (λ z. x.addr ≢ z.addr) xs (c ∷ ys) (Distinct-NotIn x.addr (xs ++ (c ∷ ys)) d.2) in
      (
        same x.addr apart.0 (first_at-ne 0 x.addr tail ys (λ z. tail_out.0 (sym z)) apart.1) ∙ b.0,
        Backs-remove prev prev' x.addr xs c ys tail (f ∙ ap some last) same ne tail_out.1 d.2 b.1,
      )

  -- No cell has the first level that leads from the head to null.
  pub first_at-none :
      (i : ℕ) (stop : Ptr) (cs : Cells K M)
      → NotIn stop cs
      → first_at (suc i) stop cs ≡ stop
      → Low i cs
  first_at-none i stop [] out e = tt
  first_at-none i stop (c ∷ cs) out e = elim (Bool-cases (leb (suc i) c.level)) [
    | inl on ↦ absurd (out.0 (sym (rw on at e)))
    | inr off ↦ (ground (arith, off), first_at-none i stop cs out.1 (rw off at e))
  ]

  module _ (o : KeyOrder K) where
    pub Sorted-insert :
        (xs : Cells K M) (c : Cell K M) (ys : Cells K M)
        → Below o c.entry.key xs
        → Above o c.entry.key ys
        → Sorted o (xs ++ ys)
        → Sorted o (xs ++ (c ∷ ys))
    Sorted-insert [] c ys b a s = (a, s)
    Sorted-insert (x ∷ xs) c ys b a s = (
      All-insert (λ z. o.lt x.entry.key z.entry.key ≡ true) xs c ys s.0 b.0,
      Sorted-insert xs c ys b.1 a s.1,
    )

    pub Sorted-remove :
        (xs : Cells K M) (c : Cell K M) (ys : Cells K M)
        → Sorted o (xs ++ (c ∷ ys))
        → Sorted o (xs ++ ys)
    Sorted-remove [] c ys s = s.1
    Sorted-remove (x ∷ xs) c ys s = (
      All-remove (λ z. o.lt x.entry.key z.entry.key ≡ true) xs c ys s.0,
      Sorted-remove xs c ys s.1,
    )

    -- Behind a cell with a larger key all keys are larger.
    pub Above-later :
        (k : K) (y : Cell K M) (ys : Cells K M)
        → o.lt k y.entry.key ≡ true
        → Above o y.entry.key ys
        → Above o k (y ∷ ys)
    Above-later k y ys lt a = (
      lt,
      All-map (λ z. o.lt y.entry.key z.entry.key ≡ true) (λ z. o.lt k z.entry.key ≡ true) ys
          (λ z more. o.lt_trans k y.entry.key z.entry.key lt more) a,
    )

    pub Sorted-right : (xs ys : Cells K M) → Sorted o (xs ++ ys) → Sorted o ys
    Sorted-right [] ys s = s
    Sorted-right (x ∷ xs) ys s = Sorted-right xs ys s.1

    pub Above-NotBelow : (k : K) (ys : Cells K M) → Above o k ys → NotBelow o k ys
    Above-NotBelow k ys a =
        All-map (λ y. o.lt k y.entry.key ≡ true) (λ y. o.lt y.entry.key k ≡ false) ys
          (λ y lt. elim (Bool-cases (o.lt y.entry.key k)) [
            | inl z ↦ absurd (cc (o.lt_trans k y.entry.key k lt z, o.lt_irrefl k))
            | inr z ↦ z
          ])
          a

    -- Sorted cells around one of them.
    pub Sorted-middle :
        (xs : Cells K M) (c : Cell K M) (ys : Cells K M)
        → Sorted o (xs ++ (c ∷ ys))
        → Below o c.entry.key xs × Above o c.entry.key ys
    Sorted-middle [] c ys s = (tt, s.0)
    Sorted-middle (x ∷ xs) c ys s =
        let (b, a) = Sorted-middle xs c ys s.1 in
        (((All-right (λ z. o.lt x.entry.key z.entry.key ≡ true) xs (c ∷ ys) s.0).0, b), a)

    pub Above-differs :
        (k : K) (y : Cell K M) → o.lt k y.entry.key ≡ true → o.eq y.entry.key k ≡ false
    Above-differs k y lt = elim (Bool-cases (o.eq y.entry.key k)) [
      | inl e ↦ absurd (cc (lt, o.lt_irrefl k, ap (o.lt k) ((o.eq_iff y.entry.key k).0 e)))
      | inr e ↦ e
    ]

    pub Below-differs :
        (k : K) (x : Cell K M) → o.lt x.entry.key k ≡ true → o.eq x.entry.key k ≡ false
    Below-differs k x lt = elim (Bool-cases (o.eq x.entry.key k)) [
      | inl e ↦ absurd (cc (lt, o.lt_irrefl k, ap (λ z. o.lt z k) ((o.eq_iff x.entry.key k).0 e)))
      | inr e ↦ e
    ]
