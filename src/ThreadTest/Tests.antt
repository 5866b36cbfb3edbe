-- ===== src/ThreadTest/Tests.antt =====
-- The thread tests at concrete inputs.
use os_lab_nachos.Base.{
  ◌*◌, ◌/◌, ℕ, ◌≡◌, refl, none, some, List, [], ◌∷◌, arith, replicate, length-replicate, ◌⊎◌, inr,
  zero, suc, ltb, if◌then◌else◌,
}
use os_lab_nachos.Base.Exec.{ok, fault, out_of_bounds}
use os_lab_nachos.Base.Int.{pos, negsuc}
use os_lab_nachos.Base.Text.{codes, decimal}
use os_lab_nachos.Options.{defaults}
use os_lab_nachos.Options.Settings.{Pair, pair, line}
use os_lab_nachos.ThreadTest.{Kernel, main, new_dllist, fork, dllist_producer, dllist_consumer}
use os_lab_nachos.ThreadTest.Body.{dllist_producer, dllist_consumer}
use os_lab_nachos.ThreadTest.Forks.{threads_of, main-pair, main_over, producers}
use os_lab_nachos.ThreadTest.ListTest
use os_lab_nachos.ThreadTest.ListTest.{Round, produces, consumes, Kept, run, run-produced}
use os_lab_nachos.ThreadTest.TableTest.{race, race_lem, emptied}
use os_lab_nachos.ThreadTest.RiderTest
use os_lab_nachos.ThreadTest.RiderTest.{Report, finish_all}
use os_lab_nachos.ThreadTest.RiderTest.Summary
use os_lab_nachos.ThreadTest.RiderTest.Summary.{finish_all-printed}
use os_lab_nachos.ThreadTest.BufferTest.{produce, consume, Returned, produce-or-consume}
use os_lab_nachos.DlList.Heap
use os_lab_nachos.DlList.Chain.{Holds}
use os_lab_nachos.Table.{Table}
use os_lab_nachos.Buffer
use os_lab_nachos.Buffer.Fifo.{init-IsValid}
use os_lab_nachos.Buffer.Contents

abbrev kernel : Kernel
kernel = record { options = defaults; actions = [] }

main-pair_run :
    main (line [] (pair Pair.dllist 1 1)) kernel
    ≡ ok [] (record {
      options = record { testnum = pos 2; producersnum = pos 1; consumersnum = pos 1 };
      actions = threads_of Pair.dllist 1 1;
    })
main-pair_run = main-pair [] Pair.dllist 1 1 defaults (omega arith) (omega arith)

threads_text :
    threads_of Pair.dllist 1 1
    ≡ new_dllist
      ∷ fork (codes "producer thread 0") dllist_producer 0
      ∷ fork (codes "consumer thread 0") dllist_consumer 0
      ∷ []
unfolding decimal
threads_text = refl

main_over_example :
    main (line [] (pair Pair.table 4 51)) kernel
    ≡ fault out_of_bounds (record {
      options = record { testnum = pos 3; producersnum = pos 4; consumersnum = pos 51 };
      actions = if ltb 50 4 then producers Pair.table 50 else threads_of Pair.table 4 50;
    })
main_over_example =
    main_over [] Pair.table 4 51 defaults (omega arith) (omega arith) (inr (omega arith))

-- an empty list
init-Holds : Holds Heap.init []
unfolding Heap.init
init-Holds = (
  [],
  record { linked = tt; first = refl; last = refl; distinct = tt; below = tt; count = omega arith },
  refl,
)

init_free : Heap.init.lock ≡ none
unfolding Heap.init
init_free = refl

abbrev rounds : List Round
rounds = produces 1 65 500 3 ∷ produces 2 65 20 4 ∷ consumes 3 ∷ []

run-produced_example :
    ListTest.Outcome
      (ListTest.enough 0 rounds)
      (ListTest.produced rounds [])
      (run rounds [] Heap.init)
run-produced_example =
    run-produced rounds Heap.init (omega arith, (omega arith, tt)) init-Holds init_free

abbrev table : Table
table = record { table_size = 2; lock = none; base = some 70 ∷ none ∷ [] }

race_lem_example : race 1 2 3 none 2 80 (negsuc 4) table ≡ ok (70, 70, 0) (emptied 1 table refl 0)
race_lem_example =
    race_lem 1 2 3 none table (record { filled = refl }) refl 70 80 (negsuc 4)
      (omega arith, omega arith, refl, λ j low high. absurd (omega arith))

abbrev riders : List (ℕ × ℕ)
riders = replicate 20 (5, 12)

riders-Within : Summary.Within 0 2147483644 riders
riders-Within = within 20
  where
    within : (n : ℕ) → Summary.Within 0 2147483644 (replicate n (5, 12))
    within zero = tt
    within (suc n) = (omega arith, omega arith, within n)

-- numbers in hundredths, with division cut off
abbrev hundredths : RiderTest.Floats
hundredths = record { Float = ℕ; to_float = λ n. n * 100; divide = λ a b. a * 100 / b }

finish_all-printed_example :
    (r : Report hundredths) × ((finish_all hundredths riders (RiderTest.init hundredths)).printed
      ≡ r ∷ [])
    × (r.average ≡ 700)
    × Summary.Within r.shortest r.longest riders
    × Summary.Occurs r.longest riders
    × Summary.Occurs r.shortest riders
finish_all-printed_example =
    finish_all-printed hundredths riders (length-replicate {A = ℕ × ℕ} 20 (5, 12)) riders-Within
      (omega arith)

abbrev buffer : Buffer.Buffer
buffer = Buffer.init 1000 (replicate 1000 0)

buffer_new : Contents.IsValid buffer × (Contents.contents buffer ≡ []) × (buffer.lock ≡ none)
buffer_new = init-IsValid 1000 (replicate 1000 0) (length-replicate {A = ℕ} 1000 0) (omega arith)

buffer_large : buffer.max_size ≡ 1000
unfolding Buffer.init
buffer_large = refl

produce-or-consume_run : Returned (produce 1 7 buffer) ⊎ Returned (consume 2 3 buffer)
produce-or-consume_run = produce-or-consume buffer buffer_new.0 buffer_new.2 buffer_large 1 2 7 3
