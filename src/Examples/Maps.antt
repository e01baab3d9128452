-- ===== src/Examples/Maps.antt =====
-- The theorems on lxcd::map at a map from text to numbers that grows entry by entry.
use ymir_project.Base.{
  ℕ, ◌≡◌, ◌≢◌, refl, ap, ◌∙◌, true, false, not, some, none, List, [], ◌∷◌, arith, ◌==◌,
  if◌then◌else◌, length, length-map, ◌≤◌,
}
use ymir_project.Buffer.{◌>>=◌}
use ymir_project.TaskQueue.{Ptr}
use ymir_project.StringClass.{text_lt, text_eq}
use ymir_project.MapClass.{Pair, Memory, Map, map_ctor, insert, erase, find, at, count, entry_at}
use ymir_project.MapClass.Whole.{assign, destroy}
use ymir_project.MapClass.Chain.{Cells, All}
use ymir_project.MapClass.Invariant.{Apart, IsMap}
use ymir_project.MapClass.Create.{map_ctor-IsMap}
use ymir_project.MapClass.AssocList.{
  entries, with_entry, lookup, without_key, behind, defined, stored,
}
use ymir_project.MapClass.Refine.{
  insert-Inserted, Inserted, insert_refines, erase_refines, erase-past_end, find_refines,
}
use ymir_project.MapClass.Destroy.{destroy-freed}
use ymir_project.MapClass.Copy.{Spare, assign_refines}
use ymir_project.MapClass.Texts.{text_order}

abbrev dead : Memory (List ℕ) ℕ
dead = record { link = λ a i. none; prev = λ a. none; node = λ a. none }

abbrev entry_a : Pair (List ℕ) ℕ
entry_a = record { key = 97 ∷ []; value = 5 }

abbrev entry_b : Pair (List ℕ) ℕ
entry_b = record { key = 98 ∷ []; value = 7 }

abbrev entry_c : Pair (List ℕ) ℕ
entry_c = record { key = 99 ∷ []; value = 9 }

empty_map :
    (m : Map (List ℕ) ℕ) × (map_ctor dead 1 2 ≡ some m)
    × IsMap text_order m []
    × (m.head ≡ 1)
    × (m.tail ≡ 2)
empty_map =
    map_ctor-IsMap text_order dead 1 2 (λ e. absurd (omega arith)) (λ e. absurd (omega arith))
      (λ e. absurd (omega arith)) refl

unused-Apart : (a : Ptr) → a ≢ 0 → a ≢ 1 → a ≢ 2 → Apart a empty_map.0 []
unused-Apart a z h t = record {
  not_null = z;
  not_head = λ e. h (e ∙ empty_map.3);
  not_tail = λ e. t (e ∙ empty_map.4);
  not_in = tt;
}

three-Apart : Apart 3 empty_map.0 []
three-Apart =
    unused-Apart 3 (λ e. absurd (omega arith)) (λ e. absurd (omega arith))
      (λ e. absurd (omega arith))

four-Apart : Apart 4 empty_map.0 []
four-Apart =
    unused-Apart 4 (λ e. absurd (omega arith)) (λ e. absurd (omega arith))
      (λ e. absurd (omega arith))

five-Apart : Apart 5 empty_map.0 []
five-Apart =
    unused-Apart 5 (λ e. absurd (omega arith)) (λ e. absurd (omega arith))
      (λ e. absurd (omega arith))

one : Inserted text_order 3 (true ∷ false ∷ []) entry_b empty_map.0 []
one =
    insert-Inserted text_order 3 (true ∷ false ∷ []) entry_b empty_map.0 [] empty_map.2 three-Apart

two : Inserted text_order 4 [] entry_a one.result one.cells
two =
    insert-Inserted text_order 4 [] entry_a one.result one.cells one.valid
      (one.apart 4 (λ e. absurd (omega arith)) four-Apart)

two-entries : entries two.cells ≡ entry_a ∷ entry_b ∷ []
unfolding with_entry entries text_lt text_eq
two-entries = two.holds ∙ ap (with_entry text_order entry_a) one.holds

five_more-Apart : Apart 5 two.result two.cells
five_more-Apart =
    two.apart 5 (λ e. absurd (omega arith)) (one.apart 5 (λ e. absurd (omega arith)) five-Apart)

insert_refines_example :
    (m' : Map (List ℕ) ℕ) × (cs' : Cells (List ℕ) ℕ) × (u : Ptr) × (insert text_order 5
        (true ∷ true ∷ [])
        entry_c
        two.result
      ≡ some (m', (u, not (defined (lookup text_order entry_c.key (entries two.cells))))))
    × IsMap text_order m' cs'
    × (entries cs' ≡ with_entry text_order entry_c (entries two.cells))
    × (entry_at m' u ≡ some (stored entry_c (lookup text_order entry_c.key (entries two.cells))))
insert_refines_example =
    insert_refines text_order 5 (true ∷ true ∷ []) entry_c two.result two.cells two.valid
      five_more-Apart

two-not_behind : behind text_order (97 ∷ []) (entries two.cells) ≡ false
unfolding behind text_lt
two-not_behind = rw two-entries refl

two-behind : behind text_order (99 ∷ []) (entries two.cells) ≡ true
unfolding behind text_lt
two-behind = rw two-entries refl

erase_refines_example :
    (m' : Map (List ℕ) ℕ) × (cs' : Cells (List ℕ) ℕ) × (erase text_order (97 ∷ []) two.result
      ≡ some m')
    × IsMap text_order m' cs'
    × (entries cs' ≡ without_key text_order (97 ∷ []) (entries two.cells))
erase_refines_example =
    erase_refines text_order (97 ∷ []) two.result two.cells two.valid two-not_behind

erase-past_end_example : erase text_order (99 ∷ []) two.result ≡ none
erase-past_end_example =
    erase-past_end text_order (99 ∷ []) two.result two.cells two.valid two-behind

find_refines_example :
    (at text_order two.result (98 ∷ []) ≡ lookup text_order (98 ∷ []) (entries two.cells))
    × (count text_order two.result (98 ∷ [])
        ≡ some (if defined (lookup text_order (98 ∷ []) (entries two.cells)) then 1 else 0))
    × ((do u ← find text_order two.result (98 ∷ []); some (u == two.result.tail))
        ≡ some (not (defined (lookup text_order (98 ∷ []) (entries two.cells)))))
    × ((do u ← find text_order two.result (98 ∷ []); e ← entry_at two.result u; some e.value)
        ≡ lookup text_order (98 ∷ []) (entries two.cells))
find_refines_example = find_refines text_order two.result two.cells (98 ∷ []) two.valid

destroy-freed_example :
    (h : Memory (List ℕ) ℕ) × (destroy two.result ≡ some h)
    × (h.node two.result.head ≡ none)
    × All (λ c. h.node c.addr ≡ none) two.cells
    × (h.node two.result.tail ≡ none)
    × (h.node 5 ≡ two.result.memory.node 5)
destroy-freed_example = destroy-freed text_order two.result two.cells 5 two.valid five_more-Apart

two-length : length two.cells ≤ 2
unfolding entries
two-length = omega (arith, length-map {0, 0} (λ c. c.entry) two.cells, ap length two-entries)

spare : Spare 6 7 ((8, true ∷ []) ∷ (9, []) ∷ [])
spare = (
  λ e. absurd (omega arith),
  λ e. absurd (omega arith),
  λ e. absurd (omega arith),
  (λ e. absurd (omega arith), tt),
  (λ e. absurd (omega arith), λ e. absurd (omega arith), λ e. absurd (omega arith), tt, tt),
)

assign_refines_example :
    (copy : Map (List ℕ) ℕ) × (cells : Cells (List ℕ) ℕ) × (assign text_order two.result one.result
        6 7
        ((8, true ∷ []) ∷ (9, []) ∷ [])
      ≡ some copy)
    × IsMap text_order copy cells
    × (entries cells ≡ entries two.cells)
assign_refines_example =
    assign_refines text_order two.result one.result two.cells one.cells 6 7
      ((8, true ∷ []) ∷ (9, []) ∷ []) two.valid one.valid (λ e. absurd (omega arith))
      (λ e. absurd (omega arith)) (λ e. absurd (omega arith)) spare two-length
