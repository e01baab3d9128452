-- ===== src/MapClass/NewNode.antt =====
-- A new node of lxcd::map, its level, and stores to back links.
use ymir_project.Base.{
  ℕ, zero, suc, ◌+◌, ◌≤◌, ◌<◌, ◌≡◌, ◌≢◌, refl, sym, subst, ◌∙◌, inl, inr, Bool, true, false, Option,
  some, List, [], ◌∷◌, arith, ◌==◌, leb_le, ltb_lt, ==_ne, ==_self, ==_iff, if◌then◌else◌, length,
  length-set, get_elem?, set, get_elem?-set, get_elem?-set_ne, Bool-cases,
}
use ymir_project.VectorClass.{store}
use ymir_project.TaskQueue.{Ptr, null}
use ymir_project.MapClass.{Pair, Memory, set_prev, new_node, count_level, raise_loop}

pub count_level-le : (n : ℕ) (coins : List Bool) → count_level n coins ≤ n
unfolding count_level
count_level-le zero coins = omega arith
count_level-le (suc n) [] = omega arith
count_level-le (suc n) (true ∷ coins) = omega (arith, count_level-le n coins)
count_level-le (suc n) (false ∷ coins) = omega arith

pub store-in :
    (path : List Ptr) (i : ℕ) (v : Ptr) → i < length path → store path i v ≡ some (set path i v)
unfolding store
store-in path i v h = rw (ltb_lt i (length path) h) refl

-- The levels from `i` to `i + n` start at the head.
pub raise_loop_lem :
    (n i : ℕ) (head : Ptr) (path : List Ptr)
    → i + n ≤ length path
    → (path' : List Ptr) × (raise_loop n i head path ≡ some path')
      × ((j : ℕ) → i ≤ j → j < i + n → get_elem? path' j ≡ some head)
      × ((j : ℕ) → j < i → get_elem? path' j ≡ get_elem? path j)
unfolding raise_loop
raise_loop_lem zero i head path le = (path, refl, λ j a b. absurd (omega arith), λ j a. refl)
raise_loop_lem (suc n) i head path le =
    let (path', runs, new, old) =
      raise_loop_lem n (suc i) head (set path i head) (omega (arith, le, length-set path i head)) in
    (
      path',
      rw (store-in path i head (omega arith)) runs,
      λ j a b. elim (Bool-cases (j == i)) [
        | inl y ↦
            subst (λ x. get_elem? path' x ≡ some head) (sym ((==_iff j i).0 y))
              (old i (omega arith) ∙ get_elem?-set path i head (omega arith))
        | inr n ↦ new j (ground (arith, n, a)) (omega arith)
      ],
      λ j a. old j (omega arith) ∙ get_elem?-set_ne path i j head (λ e. absurd (omega arith)),
    )

module _ {K M : Type 0} where
  pub new_node-link :
      (h : Memory K M) (p : Ptr) (level : ℕ) (v : Option (Pair K M)) (a : Ptr) (j : ℕ)
      → a ≢ p
      → (new_node h p level v).link a j ≡ h.link a j
  unfolding new_node
  new_node-link h p level v a j ne = rw (==_ne p a (λ e. ne (sym e))) refl

  pub new_node-own :
      (h : Memory K M) (p : Ptr) (level : ℕ) (v : Option (Pair K M)) (j : ℕ)
      → j ≤ level
      → (new_node h p level v).link p j ≡ some null
  unfolding new_node
  new_node-own h p level v j le = rw (==_self p, leb_le j level le) refl

  pub new_node-prev :
      (h : Memory K M) (p : Ptr) (level : ℕ) (v : Option (Pair K M)) (a : Ptr)
      → a ≢ p
      → (new_node h p level v).prev a ≡ h.prev a
  unfolding new_node
  new_node-prev h p level v a ne = rw (==_ne p a (λ e. ne (sym e))) refl

  pub new_node-node :
      (h : Memory K M) (p : Ptr) (level : ℕ) (v : Option (Pair K M)) (a : Ptr)
      → a ≢ p
      → (new_node h p level v).node a ≡ h.node a
  unfolding new_node
  new_node-node h p level v a ne = rw (==_ne p a (λ e. ne (sym e))) refl

  pub new_node-own_node :
      (h : Memory K M) (p : Ptr) (level : ℕ) (v : Option (Pair K M))
      → ((new_node h p level v).node p ≡ some v) × ((new_node h p level v).prev p ≡ some null)
  unfolding new_node
  new_node-own_node h p level v = (rw (==_self p) refl, rw (==_self p) refl)

  -- One store to a back link.
  pub record PrevSet (h h' : Memory K M) (a p : Ptr) : Type 0 where
    pub own : h'.prev a ≡ some p
    pub others : (b : Ptr) → b ≢ a → h'.prev b ≡ h.prev b
    pub links : h'.link ≡ h.link
    pub values : h'.node ≡ h.node

  pub set_prev-PrevSet :
      (h : Memory K M) (a p x : Ptr)
      → h.prev a ≡ some x
      → (h' : Memory K M) × (set_prev h a p ≡ some h') × PrevSet h h' a p
  unfolding set_prev
  set_prev-PrevSet h a p x e = (
    record h { prev = λ b. if a == b then some p else h.prev b },
    rw e refl,
    record {
      own = rw (==_self a) refl;
      others = λ b ne. rw (==_ne a b (λ z. ne (sym z))) refl;
      links = refl;
      values = refl;
    },
  )
