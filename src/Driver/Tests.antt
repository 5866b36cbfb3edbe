-- ===== src/Driver/Tests.antt =====
-- The driver at a concrete input.
use mathlib.Core.List.{Perm}
use os_lab_nachos.Base.{ℕ, ◌≡◌, refl, List, [], ◌∷◌, arith, length}
use os_lab_nachos.Base.Exec.{Returns, and_then}
use os_lab_nachos.DlList.Heap.{init}
use os_lab_nachos.DlList.Chain.{Holds}
use os_lab_nachos.DlList.Sorted.{IsSorted}
use os_lab_nachos.Driver.{random_generate_list, remove_from_head, all_drawn, generate_then_remove}

abbrev rounds : List (ℕ × ℕ)
rounds = (1500, 27) ∷ (20, 3) ∷ (499, 0) ∷ []

init-Holds : Holds init []
unfolding init
init-Holds = (
  [],
  record { linked = tt; first = refl; last = refl; distinct = tt; below = tt; count = omega arith },
  refl,
)

init_free : init.lock ≡ os_lab_nachos.Base.none
unfolding init
init_free = refl

generate_then_remove_example :
    Returns
      (λ printed d'. IsSorted printed × Perm printed (all_drawn 65 1 rounds []) × Holds d' [])
      (and_then (random_generate_list 65 1 rounds init) (λ _. remove_from_head 65 1 3 []))
generate_then_remove_example =
    generate_then_remove 65 1 rounds init (omega arith) init-Holds init_free
