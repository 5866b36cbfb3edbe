-- ===== src/Synch/Condition.antt =====
-- class Condition (threads/synch.cc) with the lock that its callers pass to it.
pub mod Refine
pub mod Lost
pub mod Runs
use os_lab_nachos.Base.{ℕ, zero, suc, ◌+◌, ◌-◌, ltb, if◌then◌else◌}
use os_lab_nachos.Base.Exec.{Cmd, ok, out_of_fuel, pure, stop, lift, assert, ◌>>=◌, ◌>>◌}
use os_lab_nachos.Synch.Queue.{ThreadQueue}
use os_lab_nachos.Synch.Semaphore.{Semaphore, p, v, init as init_semaphore}
use os_lab_nachos.Synch.Lock.{Lock, acquire, release, is_held_by_current_thread}

module _ (Q : ThreadQueue) where
  pub record Condition : Type 0 where
    pub sem : Semaphore Q
    pub inte : Semaphore Q
    pub block_num : ℕ
    pub condition_lock : Lock Q

module _ (Q : ThreadQueue) where
  abbrev pub on_lock : Cmd (Lock Q) (Unit {0}) → Cmd (Condition Q) (Unit {0})
  on_lock = lift (λ c. c.condition_lock) (λ l c. record c { condition_lock = l })

  abbrev pub on_sem : Cmd (Semaphore Q) (Unit {0}) → Cmd (Condition Q) (Unit {0})
  on_sem = lift (λ c. c.sem) (λ s c. record c { sem = s })

  -- `ASSERT(conditionLock->isHeldByCurrentThread())`
  abbrev pub assert_held : ℕ → Cmd (Condition Q) (Unit {0})
  assert_held me c = assert (is_held_by_current_thread Q me c.condition_lock) c

  -- `blockNum++` and `blockNum--`
  abbrev pub count : Cmd (Condition Q) (Unit {0})
  count c = ok tt (record c { block_num = c.block_num + 1 })

  abbrev pub uncount : Cmd (Condition Q) (Unit {0})
  uncount c = ok tt (record c { block_num = c.block_num - 1 })

  -- `Condition::Condition`, with the lock that is passed to it
  unfoldable pub init : Lock Q → Condition Q
  init l = record {
    sem = init_semaphore Q 0;
    inte = init_semaphore Q 1;
    block_num = 0;
    condition_lock = l;
  }

  -- `Condition::Wait`, in its three stretches: until the lock is released, until the semaphore lets
  -- the thread pass, and until it holds the lock again.
  unfoldable pub wait_release : ℕ → Cmd (Condition Q) (Unit {0})
  unfolding is_held_by_current_thread release
  wait_release me = do assert_held me; on_lock (release Q me)

  unfoldable pub wait_block : ℕ → Cmd (Condition Q) (Unit {0})
  unfolding p
  wait_block me = do count; on_sem (p Q me)

  unfoldable pub wait : ℕ → Cmd (Condition Q) (Unit {0})
  unfolding wait_release wait_block acquire
  wait me = do wait_release me; wait_block me; on_lock (acquire Q me)

  -- `Condition::Wait` of a thread that has been woken
  unfoldable pub wait_woken : ℕ → Cmd (Condition Q) (Unit {0})
  unfolding p acquire
  wait_woken me = do on_sem (p Q me); on_lock (acquire Q me)

  -- `Condition::Signal`
  unfoldable pub signal : ℕ → Cmd (Condition Q) (Unit {0})
  unfolding is_held_by_current_thread v
  signal me = do
    assert_held me
    λ c. (if ltb 0 c.block_num then (do uncount; on_sem (v Q)) else pure tt) c

  -- the loop of `Broadcast`
  unfoldable pub wake_all : ℕ → Cmd (Condition Q) (Unit {0})
  unfolding v
  wake_all zero c = (if ltb 0 c.block_num then stop out_of_fuel else pure tt) c
  wake_all (suc fuel) c =
      let again = (do uncount; on_sem (v Q); wake_all fuel) in
      (if ltb 0 c.block_num then again else pure tt) c

  -- `Condition::Broadcast`; the loop has a round for each thread counted.
  unfoldable pub broadcast : ℕ → Cmd (Condition Q) (Unit {0})
  unfolding is_held_by_current_thread wake_all
  broadcast me = do assert_held me; λ c. wake_all c.block_num c
