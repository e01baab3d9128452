-- ===== src/MapClass/Copy.antt =====
-- A copy of an lxcd::map, and an assigned one, hold what the source holds.
use ymir_project.Base.{
  ℕ, zero, suc, ◌+◌, ◌≤◌, ◌≡◌, ◌≢◌, refl, sym, ap, subst, ◌∙◌, none, some, List, [], ◌∷◌, ◌++◌,
  arith, leb_le, ==_ne, ==_self, length, append-nil, append_assoc, inl, inr, length-map,
  Option-cases,
}
use ymir_project.Buffer.{◌>>=◌}
use ymir_project.TaskQueue.{Ptr, null}
use ymir_project.MapClass.{Pair, Memory, Map, entry_at, insert}
use ymir_project.MapClass.Order.{KeyOrder}
use ymir_project.MapClass.Whole.{News, insert_range, copy_loop, copy_ctor, assign, destroy}
use ymir_project.MapClass.Chain.{Cells, NotIn, Chain, Chain-first, first_at}
use ymir_project.MapClass.Invariant.{Nodes, Sorted, Apart, IsMap}
use ymir_project.MapClass.Cells.{Sorted-middle}
use ymir_project.MapClass.Create.{map_ctor-IsMap}
use ymir_project.MapClass.AssocList.{entries, entries-append, with_entry, with_entry-place}
use ymir_project.MapClass.Refine.{insert-Inserted}
use ymir_project.MapClass.Destroy.{destroys, Chain-Row}

abbrev pub Unlike : Ptr → News → Type 0
Unlike p [] = Unit {0}
Unlike p (a ∷ news) = (a.0 ≢ p) × Unlike p news

-- The addresses to come for the copy whose head and tail are known.
abbrev pub Spare : Ptr → Ptr → News → Type 0
Spare head tail [] = Unit {0}
Spare head tail (a ∷ news) =
    (a.0 ≢ null) × (a.0 ≢ head) × (a.0 ≢ tail) × Unlike a.0 news × Spare head tail news

module _ {K M : Type 0} where
  -- The addresses to come are not in use, and differ.
  abbrev pub Fresh : News → Map K M → Cells K M → Type 0
  Fresh [] m cs = Unit {0}
  Fresh (a ∷ news) m cs = Apart a.0 m cs × Unlike a.0 news × Fresh news m cs

  Fresh-later :
      (p : Ptr) (news : News) (m m' : Map K M) (cs cs' : Cells K M)
      → ((a : Ptr) → a ≢ p → Apart a m cs → Apart a m' cs')
      → Unlike p news
      → Fresh news m cs
      → Fresh news m' cs'
  Fresh-later p [] m m' cs cs' f u h = tt
  Fresh-later p (a ∷ news) m m' cs cs' f u h =
      (f a.0 u.0 h.0, h.1, Fresh-later p news m m' cs cs' f u.1 h.2)

  Spare-Fresh :
      (head tail : Ptr) (news : News) (m : Map K M)
      → m.head ≡ head
      → m.tail ≡ tail
      → Spare head tail news
      → Fresh news m []
  Spare-Fresh head tail [] m eh et s = tt
  Spare-Fresh head tail (a ∷ news) m eh et s = (
    record {
      not_null = s.0;
      not_head = λ z. s.1 (z ∙ eh);
      not_tail = λ z. s.2 (z ∙ et);
      not_in = tt;
    },
    s.3,
    Spare-Fresh head tail news m eh et s.4,
  )

module _ {K M : Type 0} (o : KeyOrder K) where
  -- The association list with several entries more.
  unfoldable pub with_entries : List (Pair K M) → List (Pair K M) → List (Pair K M)
  with_entries [] es = es
  with_entries (x ∷ xs) es = with_entries xs (with_entry o x es)

  -- insert over a range, with fresh addresses enough, adds its entries in order to the association
  -- list of a map.
  pub insert_range_refines :
      (es : List (Pair K M)) (news : News) (m : Map K M) (cs : Cells K M)
      → IsMap o m cs
      → Fresh news m cs
      → length es ≤ length news
      → (m' : Map K M) × (cs' : Cells K M) × (insert_range o es news m ≡ some m')
        × IsMap o m' cs'
        × (entries cs' ≡ with_entries es (entries cs))
  unfolding insert_range with_entries
  insert_range_refines [] news m cs w f le = (m, cs, refl, w, refl)
  insert_range_refines (e ∷ es) [] m cs w f le = absurd (omega arith)
  insert_range_refines (e ∷ es) (a ∷ news) m cs w f le =
      let i = insert-Inserted o a.0 a.1 e m cs w f.0 in
      let (m', cs', runs, w', same) =
        insert_range_refines es news i.result i.cells i.valid
          (Fresh-later a.0 news m i.result cs i.cells i.apart f.1 f.2) (omega arith) in
      (m', cs', rw i.runs runs, w', same ∙ ap (with_entries es) i.holds)

  -- The copying loop is an insert over the entries that are left.
  copies :
      (n : ℕ) (src : Map K M) (u : Ptr) (ys : Cells K M) (news : News) (m : Map K M)
      → Chain src.tail 0 src.memory.link u ys
      → Nodes src.memory.node ys
      → NotIn src.tail ys
      → length ys ≤ n
      → length ys ≤ length news
      → copy_loop o (suc n) src (first_at 0 src.tail ys) news m ≡ insert_range o (entries ys) news m
  unfolding copy_loop insert_range entry_at entries
  copies n src u [] [] m ch v out le en = rw (==_self src.tail) refl
  copies n src u [] (a ∷ news) m ch v out le en = rw (==_self src.tail) refl
  copies n src u (y ∷ ys) [] m ch v out le en = absurd (omega arith)
  copies zero src u (y ∷ ys) (a ∷ news) m ch v out le en = absurd (omega arith)
  copies (suc n) src u (y ∷ ys) (a ∷ news) m ch v out le en =
      let on = leb_le 0 y.level (omega arith) in
      let next = (rw on at ch).1 in
      rw
        (
          on,
          ==_ne y.addr src.tail (λ e. out.0 (sym e)),
          v.0,
          Chain-first src.tail 0 src.memory.link y.addr ys next,
        )
        (elim (Option-cases (insert o a.0 a.1 y.entry m)) [
          | inl e ↦ rw e refl
          | inr r ↦
              rw r.1 (copies n src y.addr ys news r.0.0 next v.1 out.1 (omega arith) (omega arith))
        ])

  with_entries-Sorted :
      (zs ys : Cells K M)
      → Sorted o (zs ++ ys)
      → with_entries (entries ys) (entries zs) ≡ entries (zs ++ ys)
  unfolding with_entries entries with_entry
  with_entries-Sorted zs [] s = ap entries (sym (append-nil zs))
  with_entries-Sorted zs (y ∷ ys) s =
      let step : with_entry o y.entry (entries zs) ≡ entries (zs ++ (y ∷ [])) =
        ap (with_entry o y.entry) (sym (append-nil (entries zs)))
        ∙ with_entry-place o y.entry zs [] (Sorted-middle o zs y ys s).0
        ∙ sym (entries-append zs (y ∷ [])) in
      let parts = append_assoc zs (y ∷ []) ys in
      ap (with_entries (entries ys)) step
      ∙ with_entries-Sorted (zs ++ (y ∷ [])) ys (subst (Sorted o) (sym parts) s)
      ∙ ap entries parts

  -- The shared end of the copy constructor and of operator=.
  copy-Copied :
      (src m : Map K M) (cs : Cells K M) (news : News)
      → IsMap o src cs
      → IsMap o m []
      → Fresh news m []
      → length cs ≤ length news
      → (copy : Map K M) × (cells : Cells K M) × ((do
        u ← src.memory.link src.head 0
        copy_loop o (suc src.size) src u news m)
          ≡ some copy)
        × IsMap o copy cells
        × (entries cells ≡ entries cs)
  unfolding entries
  copy-Copied src m cs news w e f le =
      let (m', cs', runs, w', same) =
        insert_range_refines (entries cs) news m [] e f
          (omega (arith, le, length-map {0, 0} (λ c. c.entry) cs)) in
      let start = w.chain 0 (omega arith) in
      (
        m',
        cs',
        rw (Chain-first src.tail 0 src.memory.link src.head cs start) (
            copies src.size src src.head cs news m start w.nodes w.tail_out
              (omega (arith, w.size_eq)) le
            ∙ runs),
        w',
        same ∙ with_entries-Sorted [] cs w.sorted,
      )

  -- map(const map&) of a map, with fresh addresses enough, succeeds, and the copy is a map with the
  -- same entries.
  pub copy_ctor_refines :
      (src : Map K M) (cs : Cells K M) (h : Memory K M) (head tail : Ptr) (news : News)
      → IsMap o src cs
      → head ≢ null
      → tail ≢ null
      → head ≢ tail
      → h.node null ≡ none
      → Spare head tail news
      → length cs ≤ length news
      → (copy : Map K M) × (cells : Cells K M) × (copy_ctor o src h head tail news ≡ some copy)
        × IsMap o copy cells
        × (entries cells ≡ entries cs)
  unfolding copy_ctor
  copy_ctor_refines src cs h head tail news w hn tn ne dead f le =
      let (m, made, e, head_is, tail_is) = map_ctor-IsMap o h head tail hn tn ne dead in
      let (copy, cells, runs, w', same) =
        copy-Copied src m cs news w e (Spare-Fresh head tail news m head_is tail_is f) le in
      (copy, cells, rw made runs, w', same)

  -- operator= between two maps, with fresh addresses enough, ends, and the map assigned to has the
  -- entries of the source.
  pub assign_refines :
      (src m : Map K M) (cs ms : Cells K M) (head tail : Ptr) (news : News)
      → IsMap o src cs
      → IsMap o m ms
      → head ≢ null
      → tail ≢ null
      → head ≢ tail
      → Spare head tail news
      → length cs ≤ length news
      → (copy : Map K M) × (cells : Cells K M) × (assign o src m head tail news ≡ some copy)
        × IsMap o copy cells
        × (entries cells ≡ entries cs)
  unfolding assign destroy
  assign_refines src m cs ms head tail news w v hn tn ne f le =
      let (h, runs, s) =
        destroys (m.size + 3) m.memory m.head ms m.tail (omega (arith, v.size_eq)) v.head_null
          v.tail_null (λ e. v.head_tail (sym e)) v.null_out v.tail_out v.distinct
          (Chain-Row m.memory.link m.head ms m.tail v.tail_link (v.chain 0 (omega arith))) in
      let (made, new, e, head_is, tail_is) =
        map_ctor-IsMap o h head tail hn tn ne (s.stays_free null v.null_dead) in
      let (copy, cells, copied, w', same) =
        copy-Copied src made cs news w e (Spare-Fresh head tail news made head_is tail_is f) le in
      (copy, cells, rw (runs, new) copied, w', same)
