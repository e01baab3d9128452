-- ===== src/MapClass/Destroy.antt =====
-- ~map frees the nodes of an lxcd::map.
use ymir_project.Base.{
  ℕ, zero, suc, ◌+◌, ◌≤◌, ◌≡◌, ◌≢◌, refl, sym, ◌∙◌, none, some, [], ◌∷◌, arith, ◌==◌, leb_le, ==_ne,
  ==_self, length, Bool-cases, inl, inr,
}
use ymir_project.TaskQueue.{Ptr, null}
use ymir_project.MapClass.{Memory, Map, delete_node}
use ymir_project.MapClass.Order.{KeyOrder}
use ymir_project.MapClass.Whole.{destroy_loop, destroy}
use ymir_project.MapClass.Chain.{Cells, Links, All, NotIn, Distinct, Chain}
use ymir_project.MapClass.Invariant.{Apart, IsMap}

module _ {K M : Type 0} where
  freed_node :
      (h : Memory K M) (q a : Ptr)
      → ((delete_node h q).node q ≡ none)
        × (h.node a ≡ none → (delete_node h q).node a ≡ none)
        × (a ≢ q → (delete_node h q).node a ≡ h.node a)
        × (a ≢ q → (delete_node h q).link a 0 ≡ h.link a 0)
  unfolding delete_node
  freed_node h q a = (
    rw (==_self q) refl,
    λ e. elim (Bool-cases (q == a)) [ inl y ↦ rw y refl | inr n ↦ rw n e ],
    λ ne. rw (==_ne q a (λ z. ne (sym z))) refl,
    λ ne. rw (==_ne q a (λ z. ne (sym z))) refl,
  )

  -- The nodes from `u` over the cells to the tail are freed, and no other.
  pub record Destroyed (u : Ptr) (cs : Cells K M) (tail : Ptr) (h h' : Memory K M) : Type 0 where
    pub first : h'.node u ≡ none
    pub cells : All (λ c. h'.node c.addr ≡ none) cs
    pub last : h'.node tail ≡ none
    pub stays_free : (a : Ptr) → h.node a ≡ none → h'.node a ≡ none
    pub others : (a : Ptr) → a ≢ u → NotIn a cs → a ≢ tail → h'.node a ≡ h.node a

  -- On the bottom level every cell follows the one before it.
  abbrev pub Row : Links → Ptr → Cells K M → Ptr → Type 0
  Row link u [] tail = (link u 0 ≡ some tail) × (link tail 0 ≡ some null)
  Row link u (c ∷ cs) tail = (link u 0 ≡ some c.addr) × Row link c.addr cs tail

  pub Chain-Row :
      (link : Links) (u : Ptr) (cs : Cells K M) (tail : Ptr)
      → link tail 0 ≡ some null
      → Chain tail 0 link u cs
      → Row link u cs tail
  Chain-Row link u [] tail e ch = (ch, e)
  Chain-Row link u (c ∷ cs) tail e ch =
      let r = rw (leb_le 0 c.level (omega arith)) at ch in
      (r.0, Chain-Row link c.addr cs tail e r.1)

  Row-same :
      (h : Memory K M) (q u : Ptr) (cs : Cells K M) (tail : Ptr)
      → u ≢ q
      → NotIn q cs
      → tail ≢ q
      → Row h.link u cs tail
      → Row (delete_node h q).link u cs tail
  Row-same h q u [] tail ne out tq r =
      ((freed_node h q u).3 ne ∙ r.0, (freed_node h q tail).3 tq ∙ r.1)
  Row-same h q u (c ∷ cs) tail ne out tq r =
      ((freed_node h q u).3 ne ∙ r.0, Row-same h q c.addr cs tail (λ e. out.0 (sym e)) out.1 tq r.1)

  pub destroys :
      (n : ℕ) (h : Memory K M) (u : Ptr) (cs : Cells K M) (tail : Ptr)
      → length cs + 3 ≤ n
      → u ≢ null
      → tail ≢ null
      → tail ≢ u
      → NotIn null cs
      → NotIn tail cs
      → Distinct u cs
      → Row h.link u cs tail
      → (h' : Memory K M) × (destroy_loop n h u ≡ some h') × Destroyed u cs tail h h'
  unfolding destroy_loop
  destroys zero h u cs tail le un tn tu null_out tail_out d r = absurd (omega arith)
  destroys (suc zero) h u cs tail le un tn tu null_out tail_out d r = absurd (omega arith)
  destroys (suc (suc zero)) h u cs tail le un tn tu null_out tail_out d r = absurd (omega arith)
  destroys (suc (suc (suc n))) h u [] tail le un tn tu null_out tail_out d r =
      let h1 = delete_node h u in
      let h2 = delete_node h1 tail in
      (
        h2,
        rw (==_ne u null un, r.0, ==_ne tail null tn, (freed_node h u tail).3 tu, r.1) refl,
        record {
          first = (freed_node h1 tail u).1 (freed_node h u u).0;
          cells = tt;
          last = (freed_node h1 tail tail).0;
          stays_free = λ a e. (freed_node h1 tail a).1 ((freed_node h u a).1 e);
          others = λ a ne out nt. (freed_node h1 tail a).2 nt ∙ (freed_node h u a).2 ne;
        },
      )
  destroys (suc (suc (suc n))) h u (c ∷ cs) tail le un tn tu null_out tail_out d r =
      let h1 = delete_node h u in
      let (h', runs, s) =
        destroys (suc (suc n)) h1 c.addr cs tail (omega (arith, le)) (λ e. null_out.0 (sym e)) tn
          tail_out.0 null_out.1 tail_out.1 d.2
          (Row-same h u c.addr cs tail (λ e. d.0 (sym e)) d.1 tu r.1) in
      (
        h',
        rw (==_ne u null un, r.0) runs,
        record {
          first = s.stays_free u (freed_node h u u).0;
          cells = (s.first, s.cells);
          last = s.last;
          stays_free = λ a e. s.stays_free a ((freed_node h u a).1 e);
          others = λ a ne out nt. s.others a out.0 out.1 nt ∙ (freed_node h u a).2 ne;
        },
      )

module _ {K M : Type 0} (o : KeyOrder K) where
  -- ~map ends, and frees the head, the tail and the node of every cell of the map; what is at an
  -- address apart from them is as it was.
  pub destroy-freed :
      (m : Map K M) (cs : Cells K M) (a : Ptr)
      → IsMap o m cs
      → Apart a m cs
      → (h : Memory K M) × (destroy m ≡ some h)
        × (h.node m.head ≡ none)
        × All (λ c. h.node c.addr ≡ none) cs
        × (h.node m.tail ≡ none)
        × (h.node a ≡ m.memory.node a)
  unfolding destroy
  destroy-freed m cs a w p =
      let (h, runs, s) =
        destroys (m.size + 3) m.memory m.head cs m.tail (omega (arith, w.size_eq)) w.head_null
          w.tail_null (λ e. w.head_tail (sym e)) w.null_out w.tail_out w.distinct
          (Chain-Row m.memory.link m.head cs m.tail w.tail_link (w.chain 0 (omega arith))) in
      (h, runs, s.first, s.cells, s.last, s.others a p.not_head p.not_in p.not_tail)
