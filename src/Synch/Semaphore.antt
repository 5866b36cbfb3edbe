-- ===== src/Synch/Semaphore.antt =====
-- class Semaphore (threads/synch.cc), and the runs of threads that use one. `ready` lists the threads
-- that `V` handed to the scheduler and that have not looked at the value again.
pub mod Runs
use os_lab_nachos.Base.{
  ℕ, ◌≡◌, ◌+◌, ◌-◌, Option, none, some, List, [], ◌∷◌, ◌++◌, arith, ◌==◌, if◌then◌else◌,
}
use os_lab_nachos.Base.Exec.{Cmd, ok, asleep}
use os_lab_nachos.Synch.Queue.{ThreadQueue}

module _ (Q : ThreadQueue) where
  pub record Semaphore : Type 0 where
    pub value : ℕ
    pub queue : Q.State
    pub ready : List ℕ

module _ (Q : ThreadQueue) where
  -- `Semaphore::Semaphore`
  unfoldable pub init : ℕ → Semaphore Q
  init initial_value = record { value = initial_value; queue = Q.empty; ready = [] }

  -- One round of the loop of `Semaphore::P`, from its test: it takes a unit, or queues its thread and
  -- sleeps. A thread that has been woken starts with the next round.
  unfoldable pub p : ℕ → Cmd (Semaphore Q) (Unit {0})
  p me s =
      if s.value == 0
      then asleep (record s { queue = Q.append me s.queue })
      else ok tt (record s { value = s.value - 1 })

  -- `if (thread != NULL) scheduler->ReadyToRun(thread)`
  abbrev pub hand_on : Option ℕ → Semaphore Q → Semaphore Q
  hand_on none s = s
  hand_on (some t) s = record s { ready = s.ready ++ t ∷ [] }

  -- `Semaphore::V`
  unfoldable pub v : Cmd (Semaphore Q) (Unit {0})
  v s =
      let (thread, queue') = Q.remove s.queue in
      let handed = hand_on thread (record s { queue = queue' }) in
      ok tt (record handed { value = s.value + 1 })
