-- ===== src/MapClass/Create.antt =====
-- A new lxcd::map, and the end of one.
use ymir_project.Base.{
  ℕ, zero, suc, ◌≤◌, ◌≡◌, ◌≢◌, refl, sym, none, some, [], arith, ◌==◌, leb_le, ==_ne, ==_self,
  if◌then◌else◌, ◌&&◌,
}
use ymir_project.TaskQueue.{Ptr, null}
use ymir_project.MapClass.{Memory, Map, levels, new_node, set_link, set_prev, map_ctor}
use ymir_project.MapClass.Order.{KeyOrder}
use ymir_project.MapClass.Invariant.{stop_at, IsMap}

module _ {K M : Type 0} where
  abbrev after_link : Memory K M → Ptr → ℕ → Ptr → Memory K M
  after_link h a i p = record h { link = λ b j. if a == b && i == j then some p else h.link b j }

  abbrev after_prev : Memory K M → Ptr → Ptr → Memory K M
  after_prev h a p = record h { prev = λ b. if a == b then some p else h.prev b }

  set_link_runs :
      (h : Memory K M) (a : Ptr) (i : ℕ) (x p : Ptr)
      → h.link a i ≡ some x
      → set_link h a i p ≡ some (after_link h a i p)
  unfolding set_link
  set_link_runs h a i x p e = rw e refl

  set_prev_runs :
      (h : Memory K M) (a x p : Ptr) → h.prev a ≡ some x → set_prev h a p ≡ some (after_prev h a p)
  unfolding set_prev
  set_prev_runs h a x p e = rw e refl

  -- The memory behind map_ctor.
  abbrev created : Memory K M → Ptr → Ptr → Memory K M
  created h head tail =
      after_link
        (after_prev
          (after_prev
            (after_link (new_node (new_node h head levels none) tail levels none) head 0 tail) tail
            head)
          head null)
        tail 0 null

module _ {K M : Type 0} (o : KeyOrder K) where
  -- map() with two fresh addresses succeeds, and the new map is a skip list with no cells.
  pub map_ctor-IsMap :
      (h : Memory K M) (head tail : Ptr)
      → head ≢ null
      → tail ≢ null
      → head ≢ tail
      → h.node null ≡ none
      → (m : Map K M) × (map_ctor h head tail ≡ some m)
        × IsMap o m []
        × (m.head ≡ head)
        × (m.tail ≡ tail)
  unfolding map_ctor new_node
  map_ctor-IsMap h head tail hn tn ne dead =
      let ht = ==_ne head tail ne in
      let th = ==_ne tail head (λ e. ne (sym e)) in
      let h0 = new_node (new_node h head levels none) tail levels none in
      let h1 = after_link h0 head 0 tail in
      let h2 = after_prev h1 tail head in
      let h3 = after_prev h2 head null in
      (
        record { memory = created h head tail; head = head; tail = tail; max = 0; size = 0 },
        rw
            (
              set_link_runs h0 head 0 null tail (rw (th, ==_self head) refl),
              set_prev_runs h1 tail null head (rw (==_self tail) refl),
              set_prev_runs h2 head null null (rw (th, ==_self head) refl),
              set_link_runs h3 tail 0 null null (rw (ht, ==_self tail) refl),
            )
            refl,
        record {
          chain = λ i le. top i le;
          backs = rw (ht, ==_self tail) refl;
          nodes = tt;
          tail_value = rw (==_self tail) refl;
          null_dead = rw (==_ne tail null tn, ==_ne head null hn) dead;
          head_prev = rw (==_self head) refl;
          head_tail = ne;
          head_null = hn;
          tail_null = tn;
          tail_link = rw (==_self tail) refl;
          distinct = tt;
          null_out = tt;
          tail_out = tt;
          sorted = tt;
          low = tt;
          max_le = omega arith;
          size_eq = refl;
        },
        refl,
        refl,
      )
    where
      top : (i : ℕ) → i ≤ levels → (created h head tail).link head i ≡ some (stop_at tail i)
      top zero le = rw (==_ne tail head (λ e. ne (sym e)), ==_self head) refl
      top (suc i) le =
          rw
            (
              ==_ne tail head (λ e. ne (sym e)),
              ==_self head,
              ==_ne 0 (suc i) (λ e. absurd (omega (arith, e))),
              leb_le (suc i) levels le,
            )
            refl
