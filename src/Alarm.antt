-- ===== src/Alarm.antt =====
-- class Alarm (threads/Alarm.h, threads/Alarm.cc) and its timer interrupt (threads/system.cc), over a
-- queue of which only the contract is known. A thread is its address, and 0 is NULL; times are ints
-- in the form of Base/Int.antt.
pub mod Queue
pub mod Due
pub mod Wake
pub mod OnTime
mod Tests
use os_lab_nachos.Base.{
  ℕ, zero, suc, ◌+◌, ◌-◌, ◌*◌, ◌%◌, ◌^◌, Bool, true, false, List, [], ◌∷◌, ◌++◌, arith, leb, not,
  ◌==◌, if◌then◌else◌,
}
use os_lab_nachos.Base.Exec.{Cmd, ok, asleep, out_of_fuel, pure, stop, lift, ◌>>=◌, ◌>>◌}
use Queue.{SortedQueue}

-- `duetime - stats->totalTicks <= 0`
unfoldable pub is_due : ℕ → ℕ → Bool
is_due duetime now = leb ((duetime + 2 ^ 31 + 2 ^ 32 - now) % 2 ^ 32) (2 ^ 31)

-- `stats->totalTicks + TimerTicks * howLong`, from the time `now`
abbrev pub due_time : ℕ → ℕ → ℕ → ℕ
due_time timer_ticks now how_long = (now + timer_ticks * how_long) % 2 ^ 32

-- What `check` does when it runs: it yields while somebody waits, and then finishes.
pub data Turn : Type 0 where
  yields finishes : Turn

module _ (Q : SortedQueue) where
  open Q use {State, insert, remove}

  -- `ready` lists the threads handed to `ReadyToRun`, `forked` counts the loop threads started.
  pub record Alarm : Type 0 where
    pub queue : State
    pub waiters : ℕ
    pub ready : List ℕ
    pub forked : ℕ

module _ (Q : SortedQueue) where
  open Q use {State, insert, remove}

  abbrev pub queueing : {A : Type 0} → Cmd State A → Cmd (Alarm Q) A
  queueing = lift (λ a. a.queue) (λ q a. record a { queue = q })

  -- `Alarm::Alarm`, with an empty queue
  unfoldable pub init : State → Alarm Q
  init q = record { queue = q; waiters = 0; ready = []; forked = 0 }

  -- `Alarm::Pause`, up to the call of `Sleep`
  unfoldable pub pause : (me timer_ticks now how_long : ℕ) → Cmd (Alarm Q) (Unit {0})
  pause me timer_ticks now how_long a =
      let counted = record a { waiters = a.waiters + 1 } in
      let started =
        if counted.waiters == 1 then record counted { forked = a.forked + 1 } else counted in
      (queueing (insert me (due_time timer_ticks now how_long)) >> asleep) started

  -- `waiters--; scheduler->ReadyToRun(thread)`
  abbrev pub wake : ℕ → Cmd (Alarm Q) (Unit {0})
  wake thread a = ok tt (record a { waiters = a.waiters - 1; ready = a.ready ++ thread ∷ [] })

  -- the loop of `CheckIfDue`
  unfoldable pub due_loop : ℕ → ℕ → ℕ → ℕ → Cmd (Alarm Q) (Unit {0})
  due_loop zero now thread duetime = stop out_of_fuel
  due_loop (suc fuel) now thread duetime =
      let again = (do
        wake thread
        (next, duetime') ← queueing remove
        due_loop fuel now next duetime') in
      if thread == 0
      then pure tt
      else if is_due duetime now
      then again
      else queueing (insert thread duetime)

  -- `Alarm::CheckIfDue`. No more threads are queued than `waiters` counts, which bounds the loop.
  unfoldable pub check_if_due : (now : ℕ) → Cmd (Alarm Q) (Unit {0})
  unfolding due_loop
  check_if_due now a =
      (do (thread, duetime) ← queueing remove; due_loop (a.waiters + 1) now thread duetime) a

  -- one round of `check`
  unfoldable pub check : Alarm Q → Turn
  check a = if not (a.waiters == 0) then yields else finishes

  -- `TimerInterruptHandler`; the value says whether it asks for a yield on return.
  unfoldable pub timer_interrupt_handler : (dummy : ℕ) (idle : Bool) (now : ℕ) → Cmd (Alarm Q) Bool
  unfolding check_if_due
  timer_interrupt_handler dummy idle now =
      if dummy == 1
      then (do check_if_due now; pure (not idle))
      else if dummy == 0
      then (do check_if_due now; pure false)
      else pure false
