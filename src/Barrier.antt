-- ===== src/Barrier.antt =====
-- class EventBarrier (threads/EventBarrier.h, threads/EventBarrier.cc) over the contract of its lock
-- and conditions. `waiternum` is an int in the form of Base/Int.antt.
pub mod Calls
pub mod Counts
pub mod Runs
mod Tests
use os_lab_nachos.Base.{ℕ, ◌+◌, ◌-◌, ◌%◌, ◌^◌, Bool, true, false, none, arith, ◌==◌, if◌then◌else◌}
use os_lab_nachos.Base.Exec.{Cmd, ok, pure, lift, ◌>>=◌, ◌>>◌}
use os_lab_nachos.Base.Int.{int, inc, dec}
use os_lab_nachos.Monitor.{
  Lock, Condition, acquire, release, assert_held, broadcast, block, consume,
}

pub record EventBarrier : Type 0 where
  pub waiternum : ℕ
  pub lock : Lock
  pub event : Condition
  pub comp : Condition
  pub signaled : Bool

abbrev pub no_one : Condition
no_one = record { block_num = 0; wakeups = 0 }

-- `EventBarrier::EventBarrier`
unfoldable pub init : EventBarrier
init = record { waiternum = int 0; lock = none; event = no_one; comp = no_one; signaled = false }

abbrev pub locking : Cmd Lock (Unit {0}) → Cmd EventBarrier (Unit {0})
locking = lift (λ b. b.lock) (λ l b. record b { lock = l })

abbrev pub on_event : Cmd Condition (Unit {0}) → Cmd EventBarrier (Unit {0})
on_event = lift (λ b. b.event) (λ c b. record b { event = c })

abbrev pub on_comp : Cmd Condition (Unit {0}) → Cmd EventBarrier (Unit {0})
on_comp = lift (λ b. b.comp) (λ c b. record b { comp = c })

abbrev pub set_signaled : Bool → Cmd EventBarrier (Unit {0})
set_signaled v b = ok tt (record b { signaled = v })

abbrev pub set_waiternum : (ℕ → ℕ) → Cmd EventBarrier (Unit {0})
set_waiternum f b = ok tt (record b { waiternum = f b.waiternum })

module _ (me : ℕ) where
  -- `Wait`, `Signal` and `Complete` from where the sleeper inside them has its wake-up
  unfoldable pub wait_woken : Cmd EventBarrier (Unit {0})
  unfolding acquire release consume
  wait_woken = do on_event consume; locking (acquire me); locking (release me)

  unfoldable pub signal_woken : Cmd EventBarrier (Unit {0})
  unfolding acquire release consume
  signal_woken = do on_comp consume; locking (acquire me); set_signaled false; locking (release me)

  unfoldable pub complete_woken : Cmd EventBarrier (Unit {0})
  unfolding acquire release consume
  complete_woken = do on_comp consume; locking (acquire me); locking (release me)

  -- `EventBarrier::Signal`
  unfoldable pub signal : Cmd EventBarrier (Unit {0})
  unfolding acquire release assert_held block broadcast signal_woken
  signal = do
    locking (acquire me)
    set_signaled true
    locking (assert_held me)
    on_event (λ c. ok tt (broadcast c))
    locking (assert_held me)
    locking (release me)
    on_comp (λ c. ok tt (block c))
    signal_woken

  -- `EventBarrier::Wait`
  unfoldable pub wait : Cmd EventBarrier (Unit {0})
  unfolding acquire release assert_held block wait_woken
  wait = do
    locking (acquire me)
    set_waiternum inc
    λ b.
        (if b.signaled then locking (release me) else (do
          locking (assert_held me)
          locking (release me)
          on_event (λ c. ok tt (block c))
          wait_woken))
          b

  -- `EventBarrier::Complete`
  unfoldable pub complete : Cmd EventBarrier (Unit {0})
  unfolding acquire release assert_held block broadcast complete_woken
  complete = do
    locking (acquire me)
    set_waiternum dec
    λ b.
        (if b.waiternum == int 0
            then (do
              locking (assert_held me)
              on_comp (λ c. ok tt (broadcast c))
              locking (release me))
            else (do
              locking (assert_held me)
              locking (release me)
              on_comp (λ c. ok tt (block c))
              complete_woken))
          b

-- `EventBarrier::Waiters`
unfoldable pub waiters : EventBarrier → ℕ
waiters b = b.waiternum
