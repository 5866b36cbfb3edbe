-- ===== src/Barrier/Tests.antt =====
-- The event barrier at concrete inputs.
use os_lab_nachos.Base.{ℕ, ◌≡◌, ◌+◌, ◌%◌, ◌^◌, refl, true, false, Option, none, arith}
use os_lab_nachos.Base.Exec.{ok, asleep}
use os_lab_nachos.Base.Int.{int, inc}
use os_lab_nachos.Monitor.{Condition, broadcast, block}
use os_lab_nachos.Barrier.{EventBarrier, init, wait, wait_woken, signal, complete, waiters}
use os_lab_nachos.Barrier.Calls.{barrier, wait_lem, signal_lem, complete_lem}
use os_lab_nachos.Barrier.Runs.{
  Run, Reach, start, later, wait_sleeps, wait_woken_returns, signal_sleeps, waiters-counts,
}

abbrev counted : ℕ → ℕ → Condition
counted n k = record { block_num = n; wakeups = k }

abbrev run : EventBarrier → ℕ → ℕ → ℕ → ℕ → Run
run b w p c s = record { barrier = b; waiting = w; passed = p; completing = c; signaling = s }

-- Two threads wait, and the barrier is signalled.
two_wait : Reach (run (barrier (int 2) (counted 0 2) (counted 1 0) true) 2 0 0 1)
unfolding init wait signal
two_wait =
    later (later (later start (wait_sleeps 1 refl)) (wait_sleeps 2 refl)) (signal_sleeps 3 refl)

one_passes : Reach (run (barrier (int 2) (counted 0 1) (counted 1 0) true) 1 1 0 1)
unfolding wait_woken
one_passes = later two_wait (wait_woken_returns 1 (omega arith) refl)

waiters-counts_example :
    (◌≡◌ {A = Option ℕ} none none)
    × (waiters (barrier (int 2) (counted 0 1) (counted 1 0) true) ≡ int 2 % 2 ^ 32)
    × (0 + 1 ≡ 1)
    × (1 + 0 ≡ 0 + 1)
waiters-counts_example = waiters-counts one_passes

-- With nobody waiting, `Signal` sleeps until a later thread completes.
lonely_signal : signal 3 init ≡ asleep (barrier (int 0) (counted 0 0) (counted 1 0) true)
unfolding init signal
lonely_signal = refl

signal_lem_run :
    signal 3 (barrier (int 2) (counted 2 0) (counted 0 0) false)
    ≡ asleep (barrier (int 2) (counted 0 2) (counted 1 0) true)
unfolding broadcast block
signal_lem_run = signal_lem 3 (int 2) (counted 2 0) (counted 0 0) false

open_lets_in :
    wait 4 (barrier (int 2) (counted 2 0) (counted 0 0) true)
    ≡ ok tt (barrier (inc (int 2)) (counted 2 0) (counted 0 0) true)
open_lets_in = wait_lem 4 (int 2) (counted 2 0) (counted 0 0) true

complete_lem_run :
    complete 4 (barrier (int 1) (counted 0 0) (counted 1 0) true)
    ≡ ok tt (barrier (int 0) (counted 0 0) (counted 0 1) true)
unfolding broadcast
complete_lem_run = complete_lem 4 (int 1) (counted 0 0) (counted 1 0) true
