-- ===== src/Alarm/Tests.antt =====
-- The alarm over a list of DlList.antt at a concrete input.
use mathlib.Core.List.{Perm}
use os_lab_nachos.Base.{
  ℕ, ◌≡◌, ◌+◌, refl, arith, none, some, List, [], ◌∷◌, length, true, false, if◌then◌else◌, ◌==◌,
}
use os_lab_nachos.Base.Exec.{Returns, Sleeps}
use os_lab_nachos.Base.Int.{int}
use os_lab_nachos.DlList.Heap.{Heap, DlList}
use os_lab_nachos.DlList.Chain.{Cell}
use os_lab_nachos.DlList.Insert.{inserted}
use os_lab_nachos.DlList.Remove.{NoNull}
use os_lab_nachos.DlList.Sorted.{IsSorted}
use os_lab_nachos.Alarm.{Alarm, due_time, pause, check_if_due, timer_interrupt_handler}
use os_lab_nachos.Alarm.Queue.{SortedQueue, Free, list_queue}
use os_lab_nachos.Alarm.Wake.{Drained, pause_lem, check_if_due_lem, timer_interrupt_handler_lem}
use os_lab_nachos.Alarm.OnTime.{due_items, later, AllTimes, check_if_due-on_time}

-- threads 7 and 8, due at the times 10 and 30
abbrev entries : List (ℕ × ℕ)
entries = (7, int 10) ∷ (8, int 30) ∷ []

abbrev memory : Heap
memory a =
    if a == 1
    then some (record { next = 2; prev = 0; key = int 10; item = 7 })
    else if a == 2
    then some (record { next = 0; prev = 1; key = int 30; item = 8 })
    else none

abbrev waiting_list : DlList
waiting_list = record { cells = memory; fresh = 3; first = 1; last = 2; lock = none }

abbrev cells : List Cell
cells =
    record { address = 1; key = int 10; item = 7 }
    ∷ record { address = 2; key = int 30; item = 8 }
    ∷ []

waiting_list-Free : Free waiting_list entries
waiting_list-Free = (
  (
    cells,
    record {
      linked = (refl, (refl, tt));
      first = refl;
      last = refl;
      distinct = (refl, (refl, tt));
      below = omega arith;
      count = omega arith;
    },
    refl,
  ),
  refl,
)

abbrev Q : SortedQueue
Q = list_queue 1

abbrev alarm : Alarm Q
alarm = record { queue = waiting_list; waiters = 2; ready = []; forked = 1 }

entries-NoNull : NoNull entries
entries-NoNull = omega arith

entries-IsSorted : IsSorted entries
entries-IsSorted = omega arith

entries-AllTimes : AllTimes entries
entries-AllTimes = omega arith

-- At time 20 only the first thread is due.
one_due : (due_items (int 20) entries ≡ 7 ∷ []) × (later (int 20) entries ≡ (8, int 30) ∷ [])
one_due = (refl, refl)

check_if_due_lem_run :
    Returns (λ _ a'. Drained Q (int 20) entries alarm a') (check_if_due Q (int 20) alarm)
check_if_due_lem_run =
    check_if_due_lem Q (int 20) entries alarm waiting_list-Free entries-NoNull (omega arith)

pause_lem_run :
    Sleeps
      (λ a'.
        Free a'.queue (inserted 9 (due_time 100 (int 5) 2) entries)
        × (a'.waiters ≡ 3)
        × (a'.ready ≡ [])
        × (a'.forked ≡ 1))
      (pause Q 9 100 (int 5) 2 alarm)
pause_lem_run = pause_lem Q 9 100 (int 5) 2 entries alarm waiting_list-Free

timer_interrupt_handler_lem_run :
    Returns
      (λ yields a'. (yields ≡ true) × Drained Q (int 20) entries alarm a')
      (timer_interrupt_handler Q 1 false (int 20) alarm)
timer_interrupt_handler_lem_run =
    timer_interrupt_handler_lem Q 1 false (int 20) entries alarm waiting_list-Free entries-NoNull
      (omega arith)

check_if_due-on_time_example :
    Returns
      (λ _ a'.
        (rest : List (ℕ × ℕ)) × Free a'.queue rest
        × IsSorted rest
        × Perm rest (later (int 20) entries)
        × (a'.ready ≡ due_items (int 20) entries)
        × (a'.waiters + length (due_items (int 20) entries) ≡ 2))
      (check_if_due Q (int 20) alarm)
check_if_due-on_time_example =
    check_if_due-on_time Q (int 20) entries alarm waiting_list-Free entries-NoNull (omega arith)
      (omega arith) entries-AllTimes entries-IsSorted
