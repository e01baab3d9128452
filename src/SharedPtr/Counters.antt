-- ===== src/SharedPtr/Counters.antt =====
-- The counters stand for what owns them: how share, reset and makeShared keep that.
use ymir_project.Base.{
  arith, ℕ, zero, suc, ◌+◌, ◌-◌, ◌^◌, ◌≤◌, ◌<◌, ◌≡◌, ◌≢◌, refl, sym, ap, subst, ◌∙◌, inl, inr, Bool,
  true, false, Option, none, some, List, [], ◌∷◌, ◌++◌, ◌==◌, ==_ne, length, length-set, eq_of,
  ne_of, get_elem?, set, ==_self, ltb_lt, get_elem?-set, get_elem?-set_ne, Bool-cases, Option-cases,
  length-append,
}
use ymir_project.Buffer.{◌>>=◌}
use ymir_project.SharedPtr.{
  SharedPtr, null_ptr, Store, from_pointer, make_shared, value_at, share, delete_object, drop_one,
  reset,
}
use ymir_project.SharedPtr.Owners.{points, own}

-- A counter that `n` pointers own, with its object: it is `n`, or both are deleted or not yet made.
abbrev pub Counted : Option (Option ℕ) → Option Bool → ℕ → Type 0
Counted (some (some (suc k))) (some true) n = n ≡ suc k
Counted (some none) (some false) n = n ≡ 0
Counted none none n = n ≡ 0
Counted _ _ n = ⊥

-- Every counter has as many owners as `owned` says.
abbrev pub Balanced : (owned : ℕ → ℕ) → Store → Type 0
Balanced owned st =
    ((c : ℕ) → Counted (get_elem? st.counts c) (get_elem? st.objects c) (owned c))
    × (length st.counts ≡ length st.objects)

-- The object of a pointer is the one that its counter counts for.
abbrev pub Paired : SharedPtr → Type 0
Paired p = p.data_ ≡ p.count

pub Balanced-ext :
    (o o' : ℕ → ℕ) (st : Store) → ((c : ℕ) → o c ≡ o' c) → Balanced o st → Balanced o' st
Balanced-ext o o' st e b =
    (λ c. subst (Counted (get_elem? st.counts c) (get_elem? st.objects c)) (e c) (b.0 c), b.1)

-- A counter that has an owner.
Counted-owned :
    (k : Option (Option ℕ)) (o : Option Bool) (n : ℕ)
    → 0 < n
    → Counted k o n
    → (k ≡ some (some n)) × (o ≡ some true)
Counted-owned (some (some (suc k))) (some true) n lt e = (ap (λ z. some (some z)) (sym e), refl)
Counted-owned (some (some (suc k))) (some false) n lt e = absurd e
Counted-owned (some (some (suc k))) none n lt e = absurd e
Counted-owned (some (some zero)) o n lt e = absurd e
Counted-owned (some none) (some false) n lt e = absurd (omega arith)
Counted-owned (some none) (some true) n lt e = absurd e
Counted-owned (some none) none n lt e = absurd e
Counted-owned none none n lt e = absurd (omega arith)
Counted-owned none (some b) n lt e = absurd e

module _ {A : Type 0} where
  pub get_elem?-past :
      (xs : List A) (y : A) (c : ℕ) → c ≡ length xs → get_elem? (xs ++ y ∷ []) c ≡ some y
  get_elem?-past [] y zero e = refl
  get_elem?-past [] y (suc c) e = absurd (omega arith)
  get_elem?-past (x ∷ xs) y zero e = absurd (omega arith)
  get_elem?-past (x ∷ xs) y (suc c) e = get_elem?-past xs y c (omega arith)

  get_elem?-other :
      (xs : List A) (y : A) (c : ℕ) → c ≢ length xs → get_elem? (xs ++ y ∷ []) c ≡ get_elem? xs c
  get_elem?-other [] y zero ne = absurd (ne refl)
  get_elem?-other [] y (suc c) ne = refl
  get_elem?-other (x ∷ xs) y zero ne = refl
  get_elem?-other (x ∷ xs) y (suc c) ne = get_elem?-other xs y c (λ e. ne (ap suc e))

  get_elem?-length : (xs : List A) (c : ℕ) → c ≡ length xs → get_elem? xs c ≡ none
  get_elem?-length [] c e = refl
  get_elem?-length (x ∷ xs) zero e = absurd (omega arith)
  get_elem?-length (x ∷ xs) (suc c) e = get_elem?-length xs c (omega arith)

  get_elem?-in : (xs : List A) (c : ℕ) (y : A) → get_elem? xs c ≡ some y → c < length xs
  get_elem?-in [] c y e = cc
  get_elem?-in (x ∷ xs) zero y e = omega arith
  get_elem?-in (x ∷ xs) (suc c) y e = omega (arith, get_elem?-in xs c y e)

-- The operation is no fault, and what it leaves has the property.
abbrev pub Succeeds : {A : Type 0} → (A → Type 0) → Option A → Type 0
Succeeds P none = ⊥
Succeeds P (some a) = P a

pub Succeeds-bind :
    {A B : Type 0} (Q : A → Type 0) (P : B → Type 0) (o : Option A) (k : A → Option B)
    → Succeeds Q o
    → ((a : A) → Q a → Succeeds P (k a))
    → Succeeds P (o >>= k)
Succeeds-bind Q P none k q next = absurd q
Succeeds-bind Q P (some a) k q next = next a q

pub Succeeds-map :
    {A : Type 0} (Q P : A → Type 0) (o : Option A)
    → Succeeds Q o
    → ((a : A) → Q a → P a)
    → Succeeds P o
Succeeds-map Q P none q next = q
Succeeds-map Q P (some a) q next = next a q

-- A new object, with the pointer that makeShared gives.
pub make_shared-Balanced :
    (owned : ℕ → ℕ) (st : Store)
    → Balanced owned st
    → Balanced (λ c. owned c + own c (make_shared st).0) (make_shared st).1
unfolding make_shared from_pointer
make_shared-Balanced owned st b = (
  λ c. elim (Bool-cases (length st.counts == c)) [
    | inl y ↦
        let e : c ≡ length st.counts = sym (eq_of (length st.counts) c y) in
        let f : c ≡ length st.objects = e ∙ b.1 in
        let zero_owned : owned c ≡ 0 =
          subst (λ k. Counted k none (owned c)) (get_elem?-length st.counts c e)
            (subst (λ o. Counted (get_elem? st.counts c) o (owned c))
              (get_elem?-length st.objects c f) (b.0 c)) in
        rw (y, get_elem?-past st.counts (some 1) c e, get_elem?-past st.objects true c f)
          (omega arith)
    | inr n ↦
        let e : c ≢ length st.counts = λ z. ne_of (length st.counts) c n (sym z) in
        let f : c ≢ length st.objects = λ z. e (z ∙ sym b.1) in
        let same : owned c + 0 ≡ owned c = omega arith in
        rw (n, get_elem?-other st.counts (some 1) c e, get_elem?-other st.objects true c f, same)
          (b.0 c)
  ],
  omega (
    arith,
    b.1,
    length-append {0} st.counts (some 1 ∷ []),
    length-append {0} st.objects (true ∷ []),
  ),
)

pub make_shared-Paired :
    (owned : ℕ → ℕ) (st : Store) → Balanced owned st → Paired (make_shared st).0
unfolding make_shared from_pointer
make_shared-Paired owned st b = ap some (sym b.1)

-- A counter of `n` owners gets one more or one less, but not the last.
recount :
    (owned : ℕ → ℕ) (st : Store) (d n : ℕ) (owned' : ℕ → ℕ)
    → Balanced owned st
    → get_elem? st.objects d ≡ some true
    → d < length st.counts
    → owned' d ≡ suc n
    → ((c : ℕ) → c ≢ d → owned' c ≡ owned c)
    → Balanced owned' (record st { counts = set st.counts d (some (suc n)) })
recount owned st d n owned' b alive lt new old = (
  λ c. elim (Bool-cases (c == d)) [
    | inl y ↦
        subst
          (λ z.
            Counted (get_elem? (set st.counts d (some (suc n))) z) (get_elem? st.objects z)
              (owned' z))
          (sym (eq_of c d y)) (rw (get_elem?-set st.counts d (some (suc n)) lt, alive) new)
    | inr z ↦
        rw (get_elem?-set_ne st.counts d c (some (suc n)) (ne_of c d z), old c (ne_of c d z))
          (b.0 c)
  ],
  length-set st.counts d (some (suc n)) ∙ b.1,
)

-- The last owner of a counter goes, and both cells with it.
uncount :
    (owned : ℕ → ℕ) (st : Store) (d : ℕ) (owned' : ℕ → ℕ)
    → Balanced owned st
    → d < length st.counts
    → owned' d ≡ 0
    → ((c : ℕ) → c ≢ d → owned' c ≡ owned c)
    → Balanced owned' (record { counts = set st.counts d none; objects = set st.objects d false })
uncount owned st d owned' b lt new old = (
  λ c. elim (Bool-cases (c == d)) [
    | inl y ↦
        subst
          (λ z.
            Counted (get_elem? (set st.counts d none) z) (get_elem? (set st.objects d false) z)
              (owned' z))
          (sym (eq_of c d y))
          (rw
            (
              get_elem?-set st.counts d none lt,
              get_elem?-set st.objects d false (omega (arith, b.1)),
            )
            new)
    | inr z ↦
        rw
          (
            get_elem?-set_ne st.counts d c none (ne_of c d z),
            get_elem?-set_ne st.objects d c false (ne_of c d z),
            old c (ne_of c d z),
          )
          (b.0 c)
  ],
  length-set st.counts d none ∙ b.1 ∙ sym (length-set st.objects d false),
)

points_self : (d : ℕ) → points d (some d) ≡ 1
points_self d = rw (==_self d) refl

points_other : (d c : ℕ) → c ≢ d → points c (some d) ≡ 0
points_other d c ne = rw (==_ne d c (λ z. ne (sym z))) refl

owned_count :
    (p : SharedPtr) (owned : ℕ → ℕ) (d : ℕ) → p.count ≡ some d → own d p ≤ owned d → 0 < owned d
owned_count p owned d e le = omega (arith, points_self d, ap (points d) e)

-- A pointer that is among the owners is copied without a fault, when the int does not overflow.
pub share-Balanced :
    (owned : ℕ → ℕ) (p : SharedPtr) (st : Store)
    → Balanced owned st
    → ((c : ℕ) → own c p ≤ owned c)
    → ((c : ℕ) → suc (owned c) < 2 ^ 31)
    → Succeeds (Balanced (λ c. owned c + own c p)) (share p st)
unfolding share value_at
share-Balanced owned p st b among small = elim (Option-cases p.count) [
  | inl e ↦ rw (share, e) (Balanced-ext owned (λ c. owned c + 0) st (λ c. omega arith) b)
  | inr there ↦
      let d = there.0 in
      let n = owned d in
      let held =
        Counted-owned (get_elem? st.counts d) (get_elem? st.objects d) n
          (owned_count p owned d there.1 (among d)) (b.0 d) in
      rw (share, there.1, held.0, ltb_lt (suc n) (2 ^ 31) (small d))
        (recount owned st d n (λ c. owned c + points c (some d)) b held.1
          (get_elem?-in st.counts d (some n) held.0) (omega (arith, points_self d))
          (λ c ne. omega (arith, points_other d c ne)))
]

drop_one-Balanced :
    (owned owned' : ℕ → ℕ) (st : Store) (d n : ℕ)
    → Balanced owned st
    → get_elem? st.counts d ≡ some (some n)
    → get_elem? st.objects d ≡ some true
    → 0 < n
    → suc (owned' d) ≡ n
    → ((c : ℕ) → c ≢ d → owned' c ≡ owned c)
    → Succeeds (Balanced owned') (drop_one d (some d) n st)
unfolding drop_one delete_object
drop_one-Balanced owned owned' st d zero b held alive lt new old = absurd (omega arith)
drop_one-Balanced owned owned' st d (suc zero) b held alive lt new old =
    rw alive
      (uncount owned st d owned' b (get_elem?-in st.counts d (some 1) held) (omega arith) old)
drop_one-Balanced owned owned' st d (suc (suc n)) b held alive lt new old =
    recount owned st d n owned' b alive (get_elem?-in st.counts d (some (suc (suc n))) held)
      (omega arith) old

-- A pointer that is among the owners is reset without a fault: it owns nothing then, and a counter
-- and an object that lose their last owner are deleted.
pub reset-Balanced :
    (owned : ℕ → ℕ) (p : SharedPtr) (st : Store)
    → Balanced owned st
    → Paired p
    → ((c : ℕ) → own c p ≤ owned c)
    → Succeeds (λ r. (r.0 ≡ null_ptr) × Balanced (λ c. owned c - own c p) r.1) (reset p st)
unfolding reset value_at null_ptr
reset-Balanced owned p st b pair among = elim (Option-cases p.count) [
  | inl e ↦
      rw (reset, e)
        (
          (λ i. record { count = e i; data_ = (pair ∙ e) i }),
          Balanced-ext owned (λ c. owned c - 0) st (λ c. omega arith) b,
        )
  | inr there ↦
      let d = there.0 in
      let n = owned d in
      let lt : 0 < n = owned_count p owned d there.1 (among d) in
      let held = Counted-owned (get_elem? st.counts d) (get_elem? st.objects d) n lt (b.0 d) in
      rw (reset, there.1, held.0, pair ∙ there.1)
        (Succeeds-bind (Balanced (λ c. owned c - points c (some d))) _ (drop_one d (some d) n st) _
          (drop_one-Balanced owned (λ c. owned c - points c (some d)) st d n b held.0 held.1 lt
            (omega (arith, points_self d)) (λ c ne. omega (arith, points_other d c ne)))
          (λ st' r. (refl, r)))
]
