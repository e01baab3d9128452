-- ===== src/MapClass/AssocList.antt =====
-- The entries of an lxcd::map as an association list in the order of its keys.
use ymir_project.Base.{
  ◌≡◌, refl, sym, ap, inl, inr, Bool, true, false, Option, none, some, List, [], ◌∷◌, ◌++◌, map,
  map-append, if◌then◌else◌, ◌&&◌, Bool-cases,
}
use ymir_project.MapClass.{Pair}
use ymir_project.MapClass.Order.{KeyOrder}
use ymir_project.MapClass.Chain.{Cell, Cells}
use ymir_project.MapClass.Invariant.{Below, Above, Sorted}
use ymir_project.MapClass.Cells.{
  Sorted-middle, Above-later, Above-NotBelow, Above-differs, Below-differs,
}

abbrev pub defined : {M : Type 0} → Option M → Bool
defined none = false
defined (some v) = true

module _ {K M : Type 0} where
  unfoldable pub entries : Cells K M → List (Pair K M)
  entries cs = map (λ c. c.entry) cs

  pub entries-append : (xs ys : Cells K M) → entries (xs ++ ys) ≡ entries xs ++ entries ys
  unfolding entries
  entries-append xs ys = map-append (λ c. c.entry) xs ys

  pub entries-cons : (c : Cell K M) (cs : Cells K M) → entries (c ∷ cs) ≡ c.entry ∷ entries cs
  unfolding entries
  entries-cons c cs = refl

  -- The entry that is there after an insert.
  unfoldable pub stored : Pair K M → Option M → Pair K M
  stored e none = e
  stored e (some v) = record { key = e.key; value = v }

module _ {K M : Type 0} (o : KeyOrder K) where
  -- The association list with `e`; a value that is there stays.
  unfoldable pub with_entry : Pair K M → List (Pair K M) → List (Pair K M)
  with_entry e [] = e ∷ []
  with_entry e (x ∷ xs) =
      let rest = with_entry e xs in
      if o.lt x.key e.key then x ∷ rest else if o.eq x.key e.key then x ∷ xs else e ∷ x ∷ xs

  unfoldable pub lookup : K → List (Pair K M) → Option M
  lookup k [] = none
  lookup k (x ∷ xs) = let rest = lookup k xs in if o.eq x.key k then some x.value else rest

  unfoldable pub without_key : K → List (Pair K M) → List (Pair K M)
  without_key k [] = []
  without_key k (x ∷ xs) = let rest = without_key k xs in if o.eq x.key k then xs else x ∷ rest

  -- Whether all keys are smaller than `k`.
  unfoldable pub behind : K → List (Pair K M) → Bool
  behind k [] = true
  behind k (x ∷ xs) = o.lt x.key k && behind k xs

  pub with_entry-place :
      (e : Pair K M) (xs : Cells K M) (ys : List (Pair K M))
      → Below o e.key xs
      → with_entry e (entries xs ++ ys) ≡ entries xs ++ with_entry e ys
  unfolding with_entry entries
  with_entry-place e [] ys b = refl
  with_entry-place e (x ∷ xs) ys b = rw b.0 (ap (λ r. x.entry ∷ r) (with_entry-place e xs ys b.1))

  pub lookup-place :
      (k : K) (xs : Cells K M) (ys : List (Pair K M))
      → Below o k xs
      → lookup k (entries xs ++ ys) ≡ lookup k ys
  unfolding lookup entries
  lookup-place k [] ys b = refl
  lookup-place k (x ∷ xs) ys b = rw (Below-differs o k x b.0) (lookup-place k xs ys b.1)

  pub lookup-Above : (k : K) (ys : Cells K M) → Above o k ys → lookup k (entries ys) ≡ none
  unfolding lookup entries
  lookup-Above k [] a = refl
  lookup-Above k (y ∷ ys) a = rw (Above-differs o k y a.0) (lookup-Above k ys a.1)

  pub without_key-place :
      (k : K) (xs : Cells K M) (ys : List (Pair K M))
      → Below o k xs
      → without_key k (entries xs ++ ys) ≡ entries xs ++ without_key k ys
  unfolding without_key entries
  without_key-place k [] ys b = refl
  without_key-place k (x ∷ xs) ys b =
      rw (Below-differs o k x b.0) (ap (λ r. x.entry ∷ r) (without_key-place k xs ys b.1))

  pub without_key-Above :
      (k : K) (ys : Cells K M) → Above o k ys → without_key k (entries ys) ≡ entries ys
  unfolding without_key entries
  without_key-Above k [] a = refl
  without_key-Above k (y ∷ ys) a =
      rw (Above-differs o k y a.0) (ap (λ r. y.entry ∷ r) (without_key-Above k ys a.1))

  pub behind-place :
      (k : K) (xs : Cells K M) (ys : List (Pair K M))
      → Below o k xs
      → behind k (entries xs ++ ys) ≡ behind k ys
  unfolding behind entries
  behind-place k [] ys b = refl
  behind-place k (x ∷ xs) ys b = rw b.0 (behind-place k xs ys b.1)

  -- Where a key is, or would be.
  pub data Where (k : K) (cs : Cells K M) : Type 0 where
    found :
        (xs : Cells K M) (c : Cell K M) (ys : Cells K M)
        → cs ≡ xs ++ (c ∷ ys)
        → c.entry.key ≡ k
        → Where k cs
    between :
        (xs : Cells K M) (y : Cell K M) (ys : Cells K M)
        → cs ≡ xs ++ (y ∷ ys)
        → Below o k xs
        → Above o k (y ∷ ys)
        → Where k cs
    last : Below o k cs → Where k cs

  pub where_is : (k : K) (cs : Cells K M) → Sorted o cs → Where k cs
  where_is k [] s = last tt
  where_is k (c ∷ cs) s = elim (Bool-cases (o.lt c.entry.key k)) [
    | inr n ↦ elim (Bool-cases (o.eq c.entry.key k)) [
      | inl e ↦ found [] c cs refl ((o.eq_iff c.entry.key k).0 e)
      | inr e ↦ between [] c cs refl tt (Above-later o k c cs (o.lt_total c.entry.key k n e) s.0)
    ]
    | inl y ↦ elim (where_is k cs s.1) [
      | found xs d ys e q ↦ found (c ∷ xs) d ys (ap (λ r. c ∷ r) e) q
      | between xs d ys e b a ↦ between (c ∷ xs) d ys (ap (λ r. c ∷ r) e) (y, b) a
      | last b ↦ last (y, b)
    ]
  ]

  pub entries-found :
      (xs : Cells K M) (c : Cell K M) (ys : Cells K M)
      → Sorted o (xs ++ (c ∷ ys))
      → (lookup c.entry.key (entries (xs ++ (c ∷ ys))) ≡ some c.entry.value)
        × (without_key c.entry.key (entries (xs ++ (c ∷ ys))) ≡ entries (xs ++ ys))
        × (behind c.entry.key (entries (xs ++ (c ∷ ys))) ≡ false)
  unfolding lookup without_key behind
  entries-found xs c ys s =
      let k = c.entry.key in
      let (b, a) = Sorted-middle o xs c ys s in
      let self : o.eq k k ≡ true = (o.eq_iff k k).1 refl in
      (
        rw (entries-append xs (c ∷ ys), lookup-place k xs (entries (c ∷ ys)) b)
            (rw (entries-cons c ys, self) refl),
        rw (entries-append xs (c ∷ ys), without_key-place k xs (entries (c ∷ ys)) b)
            (rw (entries-cons c ys, self) (sym (entries-append xs ys))),
        rw (entries-append xs (c ∷ ys), behind-place k xs (entries (c ∷ ys)) b)
            (rw (entries-cons c ys, o.lt_irrefl k) refl),
      )

  pub entries-between :
      (k : K) (xs : Cells K M) (y : Cell K M) (ys : Cells K M)
      → Below o k xs
      → Above o k (y ∷ ys)
      → (lookup k (entries (xs ++ (y ∷ ys))) ≡ none)
        × (without_key k (entries (xs ++ (y ∷ ys))) ≡ entries (xs ++ (y ∷ ys)))
        × (behind k (entries (xs ++ (y ∷ ys))) ≡ false)
  unfolding behind
  entries-between k xs y ys b a = (
    rw (entries-append xs (y ∷ ys), lookup-place k xs (entries (y ∷ ys)) b)
        (lookup-Above k (y ∷ ys) a),
    rw
        (
          entries-append xs (y ∷ ys),
          without_key-place k xs (entries (y ∷ ys)) b,
          without_key-Above k (y ∷ ys) a,
        )
        refl,
    rw (entries-append xs (y ∷ ys), behind-place k xs (entries (y ∷ ys)) b)
        (rw (entries-cons y ys, (Above-NotBelow o k (y ∷ ys) a).0) refl),
  )

  pub entries-last :
      (k : K) (xs : Cells K M)
      → Below o k xs
      → (lookup k (entries xs) ≡ none)
        × (without_key k (entries xs) ≡ entries xs)
        × (behind k (entries xs) ≡ true)
  unfolding lookup without_key behind entries
  entries-last k [] b = (refl, refl, refl)
  entries-last k (x ∷ xs) b =
      let (l, w, h) = entries-last k xs b.1 in
      (
        rw (Below-differs o k x b.0) l,
        rw (Below-differs o k x b.0) (ap (λ r. x.entry ∷ r) w),
        rw (b.0) h,
      )
