-- ===== src/DlList/Tests.antt =====
-- The list at concrete inputs.
use mathlib.Core.List.{Perm}
use os_lab_nachos.Base.{
  ◌+◌, ℕ, ◌≡◌, refl, none, some, true, List, [], ◌∷◌, arith, ◌==◌, if◌then◌else◌,
}
use os_lab_nachos.Base.Exec.{Returns, ok, fault, null_pointer, and_then}
use os_lab_nachos.Base.Int.{inc, dec}
use os_lab_nachos.DlList.Heap.{null, Element, Heap, DlList, place, modify}
use os_lab_nachos.DlList.{
  prepend, append, remove, destroy, sorted_insert, sorted_remove, show_elements,
  show_elements_reverse, find, prepend_body, append_body, insert_body, walk,
}
use os_lab_nachos.DlList.Chain.{Cell, Holds}
use os_lab_nachos.DlList.Insert.{inserted, sorted_insert_lem}
use os_lab_nachos.DlList.Ends.{prepended, appended, prepend_lem, append_lem}
use os_lab_nachos.DlList.Remove.{remove_lem, remove_null_key}
use os_lab_nachos.DlList.SortedRemove.{without, item_at, sorted_remove_lem, sorted_remove_alone}
use os_lab_nachos.DlList.Show.{show_lem}
use os_lab_nachos.DlList.Sorted.{IsSorted, sorted_insert-IsSorted, ends-IsSorted}

abbrev element : ℕ → ℕ → ℕ → ℕ → Element
element n p k v = record { next = n; prev = p; key = k; item = v }

abbrev memory : Heap
memory a =
    if a == 1 then some (element 2 0 10 71) else if a == 2 then some (element 0 1 30 72) else none

abbrev pair : DlList
pair = record { cells = memory; fresh = 3; first = 1; last = 2; lock = none }

abbrev pair_cells : List Cell
pair_cells =
    record { address = 1; key = 10; item = 71 } ∷ record { address = 2; key = 30; item = 72 } ∷ []

abbrev pair_entries : List (ℕ × ℕ)
pair_entries = (71, 10) ∷ (72, 30) ∷ []

pair-Holds : Holds pair pair_entries
pair-Holds = (
  pair_cells,
  record {
    linked = (refl, (refl, tt));
    first = refl;
    last = refl;
    distinct = (refl, (refl, tt));
    below = omega arith;
    count = omega arith;
  },
  refl,
)

abbrev alone : DlList
alone = record {
  cells = λ a. if a == 1 then some (element 0 0 10 71) else none;
  fresh = 2;
  first = 1;
  last = 1;
  lock = none;
}

alone-Holds : Holds alone ((71, 10) ∷ [])
alone-Holds = (
  record { address = 1; key = 10; item = 71 } ∷ [],
  record {
    linked = (refl, tt);
    first = refl;
    last = refl;
    distinct = (refl, tt);
    below = omega arith;
    count = omega arith;
  },
  refl,
)

pair-IsSorted : IsSorted pair_entries
pair-IsSorted = omega arith

-- Ten, twenty, thirty and the keys that the two ends make up.
script_runs :
    Returns
      (λ shown _. shown ≡ (75, dec 10) ∷ (71, 10) ∷ (73, 20) ∷ (72, 30) ∷ (74, inc 30) ∷ [])
      (and_then (sorted_insert 1 73 20 pair) (λ _ d.
        and_then (append 1 74 d) (λ _ d. and_then (prepend 1 75 d) (λ _. show_elements (λ v. v)))))
unfolding sorted_insert insert_body find append append_body prepend prepend_body show_elements walk
    place modify
script_runs = refl

sorted_insert_lem_run :
    Returns
      (λ _ d'. Holds d' (inserted 73 20 pair_entries) × (d'.lock ≡ none))
      (sorted_insert 1 73 20 pair)
sorted_insert_lem_run = sorted_insert_lem 1 73 20 pair pair_entries pair-Holds refl

sorted_insert-IsSorted_example :
    Returns
      (λ _ d'.
        (l' : List (ℕ × ℕ)) × Holds d' l'
        × IsSorted l'
        × Perm l' ((73, 20) ∷ pair_entries)
        × (d'.lock ≡ none))
      (sorted_insert 1 73 20 pair)
sorted_insert-IsSorted_example =
    sorted_insert-IsSorted 1 73 20 pair pair_entries pair-Holds refl pair-IsSorted

prepend_lem_run :
    Returns (λ _ d'. Holds d' (prepended 73 pair_entries) × (d'.lock ≡ none)) (prepend 1 73 pair)
prepend_lem_run = prepend_lem 1 73 pair pair_entries pair-Holds refl

append_lem_run :
    Returns (λ _ d'. Holds d' (appended 73 pair_entries) × (d'.lock ≡ none)) (append 1 73 pair)
append_lem_run = append_lem 1 73 pair pair_entries pair-Holds refl

ends-IsSorted_run :
    Returns
      (λ _ d'. Holds d' (prepended 73 pair_entries) × IsSorted (prepended 73 pair_entries))
      (prepend 1 73 pair)
ends-IsSorted_run =
    (ends-IsSorted 1 73 pair pair_entries pair-Holds refl pair-IsSorted).0 (omega arith)

remove_lem_run :
    Returns
      (λ r d'. ((r ≡ (71, 10)) × Holds d' ((72, 30) ∷ [])) × (d'.lock ≡ none))
      (remove 1 true pair)
remove_lem_run = remove_lem 1 pair pair_entries pair-Holds refl

remove_null_key_example : destroy 1 5 pair ≡ fault null_pointer (record pair { lock = some 1 })
remove_null_key_example = (remove_null_key 1 pair (71, 10) ((72, 30) ∷ []) 4 pair-Holds refl).1

sorted_remove_lem_example :
    Returns
      (λ r d'.
        ((r ≡ item_at 30 pair_entries) × Holds d' (without 30 pair_entries)) × (d'.lock ≡ none))
      (sorted_remove 1 30 pair)
sorted_remove_lem_example = sorted_remove_lem 1 30 pair pair_entries pair-Holds refl (λ v e. cc)

sorted_remove_alone_example :
    sorted_remove 1 10 alone ≡ fault null_pointer (record alone { first = null; lock = some 1 })
sorted_remove_alone_example = sorted_remove_alone 1 71 10 alone alone-Holds refl

show_lem_example :
    (show_elements (λ v. v + 1) pair ≡ ok ((72, 10) ∷ (73, 30) ∷ []) pair)
    × (show_elements_reverse (λ v. v + 1) pair ≡ ok ((73, 30) ∷ (72, 10) ∷ []) pair)
show_lem_example = show_lem (λ v. v + 1) pair pair_entries pair-Holds (omega arith)
