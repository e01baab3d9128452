-- ===== src/MapClass.antt =====
-- lxcd::map of include_priv/utils/map.h: a skip list. The arrays of links, the back links and the
-- values are memory; `none` is an access outside of it.
pub mod Order
pub mod Whole
pub mod Chain
pub mod Invariant
pub mod Search
pub mod Splice
pub mod Cells
pub mod NewNode
pub mod Insert
pub mod Unlink
pub mod Erase
pub mod Create
pub mod AssocList
pub mod Refine
pub mod Destroy
pub mod Copy
pub mod Compare
pub mod Texts
use ymir_project.Base.{
  ℕ, zero, suc, ◌+◌, ◌-◌, Bool, true, false, Option, none, some, List, [], ◌∷◌, ◌==◌, ltb, leb,
  ◌&&◌, if◌then◌else◌, length, get_elem?, replicate,
}
use ymir_project.Buffer.{◌>>=◌}
use ymir_project.VectorClass.{store}
use ymir_project.TaskQueue.{Ptr, null}
use ymir_project.MapClass.Order.{KeyOrder}

-- pair<const K, M>
pub record Pair (K M : Type 0) : Type 0 where
  pub key : K
  pub value : M

-- _LEVELS
abbrev pub levels : ℕ
levels = 100

-- The fields of the nodes: an entry of _forward_links, _prev, and _value, which may be null.
pub record Memory (K M : Type 0) : Type 0 where
  pub link : Ptr → ℕ → Option Ptr
  pub prev : Ptr → Option Ptr
  pub node : Ptr → Option (Option (Pair K M))

pub record Map (K M : Type 0) : Type 0 where
  pub memory : Memory K M
  pub head : Ptr
  pub tail : Ptr
  pub max : ℕ
  pub size : ℕ

-- The coins that random_level throws before it stops, at most `n`.
unfoldable pub count_level : ℕ → List Bool → ℕ
count_level zero coins = 0
count_level (suc n) [] = 0
count_level (suc n) (c ∷ coins) = let more = count_level n coins in if c then suc more else 0

-- The rest of random_level: the new levels start at the head.
unfoldable pub raise_loop : ℕ → ℕ → Ptr → List Ptr → Option (List Ptr)
raise_loop zero i head updated = some updated
raise_loop (suc n) i head updated = do
  updated ← store updated i head
  raise_loop n (suc i) head updated

module _ {K M : Type 0} where
  unfoldable pub set_link : Memory K M → Ptr → ℕ → Ptr → Option (Memory K M)
  set_link h a i p = do
    _ ← h.link a i
    some (record h { link = λ b j. if a == b && i == j then some p else h.link b j })

  unfoldable pub set_prev : Memory K M → Ptr → Ptr → Option (Memory K M)
  set_prev h a p = do
    _ ← h.prev a
    some (record h { prev = λ b. if a == b then some p else h.prev b })

  -- Node(level) and Node(level, value), at the address that `new` answers.
  unfoldable pub new_node : Memory K M → Ptr → ℕ → Option (Pair K M) → Memory K M
  new_node h p level v = record {
    link = λ b j. if p == b then (if leb j level then some null else none) else h.link b j;
    prev = λ b. if p == b then some null else h.prev b;
    node = λ b. if p == b then some v else h.node b;
  }

  -- ~Node
  unfoldable pub delete_node : Memory K M → Ptr → Memory K M
  delete_node h p = record {
    link = λ b j. if p == b then none else h.link b j;
    prev = λ b. if p == b then none else h.prev b;
    node = λ b. if p == b then none else h.node b;
  }

  -- map_ctor, with the addresses of the head and the tail.
  unfoldable pub map_ctor : Memory K M → Ptr → Ptr → Option (Map K M)
  map_ctor h head tail = do
    let h = new_node (new_node h head levels none) tail levels none
    h ← set_link h head 0 tail
    h ← set_prev h tail head
    h ← set_prev h head null
    h ← set_link h tail 0 null
    some (record { memory = h; head = head; tail = tail; max = 0; size = 0 })

  -- Iterator: the address of a node. operator++ and operator--, and operator*.
  unfoldable pub forward : Map K M → Ptr → Option Ptr
  forward m u = if u == null then some u else m.memory.link u 0

  unfoldable pub backward : Map K M → Ptr → Option Ptr
  backward m u = if u == null then some u else m.memory.prev u

  unfoldable pub entry_at : Map K M → Ptr → Option (Pair K M)
  entry_at m u = do v ← m.memory.node u; v

  -- begin(), end(), rbegin(), rend()
  unfoldable pub begin_of : Map K M → Option Ptr
  begin_of m = m.memory.link m.head 0

  unfoldable pub end_of : Map K M → Ptr
  end_of m = m.tail

  unfoldable pub rbegin_of : Map K M → Option Ptr
  rbegin_of m = m.memory.prev m.tail

  unfoldable pub rend_of : Map K M → Ptr
  rend_of m = m.head

  -- size(), count(), empty()
  unfoldable pub is_empty : Map K M → Bool
  is_empty m = m.size == 0

  -- The loop of insert that links the new node in, `n` levels from `i`.
  unfoldable pub splice : ℕ → ℕ → List Ptr → Ptr → Memory K M → Option (Memory K M)
  splice zero i updated p h = some h
  splice (suc n) i updated p h = do
    u ← get_elem? updated i
    q ← h.link u i
    h ← set_link h p i q
    h ← set_link h u i p
    splice n (suc i) updated p h

  -- The loop of erase that takes a node out, up to the first level that does not lead to it.
  unfoldable pub unsplice : ℕ → ℕ → List Ptr → Ptr → Memory K M → Option (Memory K M)
  unsplice zero i updated q h = some h
  unsplice (suc n) i updated q h = do
    u ← get_elem? updated i
    x ← h.link u i
    if x == q
        then (do y ← h.link q i; h ← set_link h u i y; unsplice n (suc i) updated q h)
        else some h

  -- The loop of erase that lowers `_max` over empty levels.
  unfoldable pub shrink : Memory K M → Ptr → ℕ → Option ℕ
  shrink h head zero = some 0
  shrink h head (suc i) = do
    x ← h.link head (suc i)
    if x == null then shrink h head i else some (suc i)

module _ {K M : Type 0} (o : KeyOrder K) where
  -- Moves along level `i` while the next key is smaller; `stop` ends the level.
  unfoldable pub walk : ℕ → Memory K M → ℕ → Ptr → K → Ptr → Option Ptr
  walk zero h i stop k u = none
  walk (suc n) h i stop k u = do
    q ← h.link u i
    if q == stop then some u else (do
      v ← h.node q
      p ← v
      let rest = walk n h i stop k q
      if o.lt p.key k then rest else some u)

  -- The levels from `i` down to 1, with the array `_updated`.
  unfoldable pub descend : ℕ → Map K M → K → Ptr → List Ptr → Option (Ptr × List Ptr)
  descend zero m k u updated = some (u, updated)
  descend (suc i) m k u updated = do
    v ← walk (suc m.size) m.memory (suc i) null k u
    updated ← store updated (suc i) v
    descend i m k v updated

  -- The search of insert, erase and find_at_bottom (which keeps no array): `_updated`, and the node
  -- behind `_updated[0]`.
  unfoldable pub search : Map K M → K → Option (List Ptr × Ptr)
  search m k = do
    (u, updated) ← descend m.max m k m.head (replicate (levels + 1) null)
    u ← walk (suc m.size) m.memory 0 m.tail k u
    updated ← store updated 0 u
    q ← m.memory.link u 0
    some (updated, q)

  abbrev pub has_key : K → Option (Pair K M) → Bool
  has_key k none = false
  has_key k (some p) = o.eq p.key k

  -- The end of insert: the new node `p` is linked in, and back.
  unfoldable pub link_in : Map K M → List Ptr → Ptr → ℕ → Pair K M → Option (Map K M × (Ptr × Bool))
  link_in m updated p level e = do
    updated ←
        if ltb m.max level
        then raise_loop (level - m.max) (m.max + 1) m.head updated
        else some updated
    h ← splice (suc level) 0 updated p (new_node m.memory p level (some e))
    u ← get_elem? updated 0
    h ← set_prev h p u
    q ← h.link p 0
    h ← set_prev h q p
    some (
      record m { memory = h; max = if ltb m.max level then level else m.max; size = m.size + 1 },
      (p, true),
    )

  -- insert(value), with the address that `new` answers and the coins that are thrown.
  unfoldable pub insert : Ptr → List Bool → Pair K M → Map K M → Option (Map K M × (Ptr × Bool))
  insert p coins e m = do
    (updated, q) ← search m e.key
    v ← m.memory.node q
    if has_key e.key v
        then some (m, (q, false))
        else link_in m updated p (count_level levels coins) e

  -- The end of erase: the node `q` is taken out.
  unfoldable pub take_out : Map K M → List Ptr → Ptr → Option (Map K M)
  take_out m updated q = do
    h ← unsplice (suc m.max) 0 updated q m.memory
    x ← h.link q 0
    b ← h.prev q
    h ← set_prev h x b
    h ← if x == m.tail then set_link h b 0 m.tail else some h
    let h = delete_node h q
    max ← shrink h m.head m.max
    some (record m { memory = h; max = max; size = m.size - 1 })

  -- erase(key); it reads the value of the node that the search ends before, also of the tail.
  unfoldable pub erase : K → Map K M → Option (Map K M)
  erase k m = do
    (updated, q) ← search m k
    v ← m.memory.node q
    e ← v
    if o.eq e.key k then take_out m updated q else some m

  -- erase(Iterator)
  unfoldable pub erase_at : Ptr → Map K M → Option (Map K M)
  erase_at u m = do e ← entry_at m u; erase e.key m

  -- find_at_bottom: null when the key is not there.
  unfoldable pub find_at_bottom : Map K M → K → Option Ptr
  find_at_bottom m k = do
    (_, q) ← search m k
    if q == m.tail
        then some null
        else if q == null
        then some null
        else (do v ← m.memory.node q; e ← v; some (if o.eq e.key k then q else null))

  -- find(key): end() when the key is not there.
  unfoldable pub find : Map K M → K → Option Ptr
  find m k = do q ← find_at_bottom m k; some (if q == null then m.tail else q)

  -- count(key)
  unfoldable pub count : Map K M → K → Option ℕ
  count m k = do
    q ← find_at_bottom m k
    if q == null then some 0 else (do v ← m.memory.node q; some (if has_key k v then 1 else 0))

  -- at(key), which reads through the null pointer when the key is not there.
  unfoldable pub at : Map K M → K → Option M
  at m k = do q ← find_at_bottom m k; e ← entry_at m q; some e.value

  -- operator[](key), which inserts M() for a key that is not there.
  unfoldable pub index : Ptr → List Bool → M → K → Map K M → Option (Map K M × Ptr)
  index p coins blank k m = do
    q ← find_at_bottom m k
    if q == null
        then (do (m', it) ← insert p coins (record { key = k; value = blank }) m; some (m', it.0))
        else some (m, q)
