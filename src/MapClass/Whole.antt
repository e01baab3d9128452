-- ===== src/MapClass/Whole.antt =====
-- The operations of lxcd::map on whole maps: copies, assignment, destruction and comparison, and
-- the reverse iterator. Each map has the memory of its own nodes.
use ymir_project.Base.{
  ℕ, zero, suc, ◌+◌, Bool, true, false, not, Option, none, some, List, [], ◌∷◌, ◌==◌, ltb,
  if◌then◌else◌,
}
use ymir_project.Buffer.{◌>>=◌}
use ymir_project.TaskQueue.{Ptr, null}
use ymir_project.MapClass.{
  Pair, Memory, Map, delete_node, map_ctor, begin_of, end_of, forward, entry_at, find_at_bottom,
  insert,
}
use ymir_project.MapClass.Order.{KeyOrder}

-- What `new` and the coins of random_level answer in the inserts to come.
abbrev pub News : Type 0
News = List (Ptr × List Bool)

module _ {K M : Type 0} where
  -- The loop of ~map and of operator= that frees every node from `u` on.
  unfoldable pub destroy_loop : ℕ → Memory K M → Ptr → Option (Memory K M)
  destroy_loop zero h u = none
  destroy_loop (suc n) h u =
      if u == null then some h else (do q ← h.link u 0; destroy_loop n (delete_node h u) q)

  -- ~map
  unfoldable pub destroy : Map K M → Option (Memory K M)
  destroy m = destroy_loop (m.size + 3) m.memory m.head

  -- ReverseIterator: ++ and the prefix --, and the postfix --, which moves the other way.
  unfoldable pub reverse_next : Map K M → Ptr → Option Ptr
  reverse_next m u = if u == null then some u else m.memory.prev u

  unfoldable pub reverse_back : Map K M → Ptr → Option Ptr
  reverse_back m u = if u == null then some u else m.memory.link u 0

  unfoldable pub reverse_back_postfix : Map K M → Ptr → Option (Ptr × Ptr)
  reverse_back_postfix m u =
      if u == null then some (u, u) else (do v ← m.memory.prev u; some (u, v))

  -- Iterator::operator++(int) and operator--(int): the iterator as it was, and as it is.
  unfoldable pub forward_postfix : Map K M → Ptr → Option (Ptr × Ptr)
  forward_postfix m u = if u == null then some (u, u) else (do v ← m.memory.link u 0; some (u, v))

  unfoldable pub backward_postfix : Map K M → Ptr → Option (Ptr × Ptr)
  backward_postfix m u = if u == null then some (u, u) else (do v ← m.memory.prev u; some (u, v))

  -- The loop of operator==, which asks the entries whether they differ.
  unfoldable pub equal_loop :
      (Pair K M → Pair K M → Bool) → ℕ → Map K M → Ptr → Map K M → Ptr → Option Bool
  equal_loop differ zero a u b v = none
  equal_loop differ (suc n) a u b v =
      if u == end_of a then some true else if v == end_of b then some true else (do
        x ← entry_at a u
        y ← entry_at b v
        if differ x y
            then some false
            else (do u ← forward a u; v ← forward b v; equal_loop differ n a u b v))

  -- operator==
  unfoldable pub map_eq : (Pair K M → Pair K M → Bool) → Map K M → Map K M → Option Bool
  map_eq differ a b =
      if not (a.size == b.size)
      then some false
      else (do u ← begin_of a; v ← begin_of b; equal_loop differ (suc a.size) a u b v)

module _ {K M : Type 0} (o : KeyOrder K) where
  -- The loop of operator<, which compares the keys alone.
  unfoldable pub less_loop : ℕ → Map K M → Ptr → Map K M → Ptr → Option Bool
  less_loop zero a u b v = none
  less_loop (suc n) a u b v =
      if u == end_of a then some false else if v == end_of b then some false else (do
        x ← entry_at a u
        y ← entry_at b v
        if o.lt x.key y.key
            then some true
            else if o.lt y.key x.key
            then some false
            else (do u ← forward a u; v ← forward b v; less_loop n a u b v))

  -- operator<
  unfoldable pub map_lt : Map K M → Map K M → Option Bool
  map_lt a b =
      if ltb a.size b.size
      then some true
      else if ltb b.size a.size
      then some false
      else (do u ← begin_of a; v ← begin_of b; less_loop (suc a.size) a u b v)

  -- insert(range_beg, range_end), and the constructor from a list.
  unfoldable pub insert_range : List (Pair K M) → News → Map K M → Option (Map K M)
  insert_range [] news m = some m
  insert_range (e ∷ es) [] m = none
  insert_range (e ∷ es) (a ∷ news) m = do (m, _) ← insert o a.0 a.1 e m; insert_range es news m

  -- The loop of the copy constructor and of operator=: the entries of `src` from the node `u` on.
  unfoldable pub copy_loop : ℕ → Map K M → Ptr → News → Map K M → Option (Map K M)
  copy_loop zero src u news m = none
  copy_loop (suc n) src u [] m = if u == src.tail then some m else none
  copy_loop (suc n) src u (a ∷ news) m = if u == src.tail then some m else (do
    e ← entry_at src u
    (m, _) ← insert o a.0 a.1 e m
    u ← src.memory.link u 0
    copy_loop n src u news m)

  -- map(const map&)
  unfoldable pub copy_ctor : Map K M → Memory K M → Ptr → Ptr → News → Option (Map K M)
  copy_ctor src h head tail news = do
    m ← map_ctor h head tail
    u ← src.memory.link src.head 0
    copy_loop (suc src.size) src u news m

  -- operator= of another map.
  unfoldable pub assign : Map K M → Map K M → Ptr → Ptr → News → Option (Map K M)
  assign src m head tail news = do
    h ← destroy m
    m ← map_ctor h head tail
    u ← src.memory.link src.head 0
    copy_loop (suc src.size) src u news m

  -- operator[](key) const
  unfoldable pub index_const : M → Map K M → K → Option M
  index_const blank m k = do
    q ← find_at_bottom o m k
    if q == null then some blank else (do e ← entry_at m q; some e.value)
