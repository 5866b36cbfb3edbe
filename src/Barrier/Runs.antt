-- ===== src/Barrier/Runs.antt =====
-- The runs of any threads that call one EventBarrier (threads/EventBarrier.cc), in any order.
use mathlib.Core.Path.{subst}
use os_lab_nachos.Base.{ℕ, ◌≡◌, ◌+◌, ◌-◌, ◌%◌, ◌^◌, ◌<◌, refl, ap, ◌∙◌, none, arith}
use os_lab_nachos.Base.Exec.{ok, asleep, Outcome}
use os_lab_nachos.Base.Int.{int}
use os_lab_nachos.Barrier.{
  EventBarrier, init, wait, wait_woken, signal, signal_woken, complete, complete_woken, waiters,
}
use os_lab_nachos.Barrier.Counts.{
  Counts, wait-Counts, wait_woken-Counts, complete_woken-Counts, signal_woken-Counts, signal-Counts,
  complete-Counts,
}

-- The barrier, and how many threads sleep in `Wait`, have returned from it without having called
-- `Complete`, sleep in `Complete`, and sleep in `Signal`.
pub record Run : Type 0 where
  pub barrier : EventBarrier
  pub waiting : ℕ
  pub passed : ℕ
  pub completing : ℕ
  pub signaling : ℕ

pub data Step (r : Run) : Run → Type 0 where
  wait_returns :
      (me : ℕ) {b : EventBarrier}
      → wait me r.barrier ≡ ok tt b
      → Step r (record r { barrier = b; passed = r.passed + 1 })
  wait_sleeps :
      (me : ℕ) {b : EventBarrier}
      → wait me r.barrier ≡ asleep b
      → Step r (record r { barrier = b; waiting = r.waiting + 1 })
  wait_woken_returns :
      (me : ℕ) {b : EventBarrier}
      → 0 < r.waiting
      → wait_woken me r.barrier ≡ ok tt b
      → Step r (record r { barrier = b; waiting = r.waiting - 1; passed = r.passed + 1 })
  complete_returns :
      (me : ℕ) {b : EventBarrier}
      → 0 < r.passed
      → complete me r.barrier ≡ ok tt b
      → Step r (record r { barrier = b; passed = r.passed - 1 })
  complete_sleeps :
      (me : ℕ) {b : EventBarrier}
      → 0 < r.passed
      → complete me r.barrier ≡ asleep b
      → Step r (record r { barrier = b; passed = r.passed - 1; completing = r.completing + 1 })
  complete_woken_returns :
      (me : ℕ) {b : EventBarrier}
      → 0 < r.completing
      → complete_woken me r.barrier ≡ ok tt b
      → Step r (record r { barrier = b; completing = r.completing - 1 })
  signal_returns :
      (me : ℕ) {b : EventBarrier}
      → signal me r.barrier ≡ ok tt b
      → Step r (record r { barrier = b })
  signal_sleeps :
      (me : ℕ) {b : EventBarrier}
      → signal me r.barrier ≡ asleep b
      → Step r (record r { barrier = b; signaling = r.signaling + 1 })
  signal_woken_returns :
      (me : ℕ) {b : EventBarrier}
      → 0 < r.signaling
      → signal_woken me r.barrier ≡ ok tt b
      → Step r (record r { barrier = b; signaling = r.signaling - 1 })

pub data Reach : Run → Type 0 where
  start : Reach (record { barrier = init; waiting = 0; passed = 0; completing = 0; signaling = 0 })
  later : {r r' : Run} → Reach r → Step r r' → Reach r'

abbrev pub IsValid : Run → Type 0
IsValid r = Counts (r.waiting + r.passed) r.waiting (r.completing + r.signaling) r.barrier

recount :
    (n e c n' e' c' : ℕ) (b : EventBarrier)
    → Counts n e c b
    → n ≡ n'
    → e ≡ e'
    → c ≡ c'
    → Counts n' e' c' b
recount n e c n' e' c' b counts n≡ e≡ c≡ =
    (counts.0, counts.1 ∙ ap (λ n. int n % 2 ^ 32) n≡, counts.2 ∙ e≡, counts.3 ∙ c≡)

step-IsValid : (r : Run) {r' : Run} → IsValid r → Step r r' → IsValid r'
step-IsValid r valid (wait_returns me {b} e) =
    recount _ _ _ _ _ _ b (subst (Outcome _ _) e (wait-Counts me _ _ _ r.barrier valid))
      (omega arith) (omega arith) (omega arith)
step-IsValid r valid (wait_sleeps me {b} e) =
    recount _ _ _ _ _ _ b (subst (Outcome _ _) e (wait-Counts me _ _ _ r.barrier valid))
      (omega arith) (omega arith) (omega arith)
step-IsValid r valid (wait_woken_returns me {b} some_left e) =
    recount _ _ _ _ _ _ b (subst (Outcome _ _) e (wait_woken-Counts me _ _ _ r.barrier valid))
      (omega arith) (omega arith) (omega arith)
step-IsValid r valid (complete_returns me {b} some_left e) =
    recount _ _ _ _ _ _ b
      (subst (Outcome _ _) e (complete-Counts me _ _ _ r.barrier valid (omega arith))) (omega arith)
      (omega arith) (omega arith)
step-IsValid r valid (complete_sleeps me {b} some_left e) =
    recount _ _ _ _ _ _ b
      (subst (Outcome _ _) e (complete-Counts me _ _ _ r.barrier valid (omega arith))) (omega arith)
      (omega arith) (omega arith)
step-IsValid r valid (complete_woken_returns me {b} some_left e) =
    recount _ _ _ _ _ _ b (subst (Outcome _ _) e (complete_woken-Counts me _ _ _ r.barrier valid))
      (omega arith) (omega arith) (omega arith)
step-IsValid r valid (signal_returns me {b} e) =
    recount _ _ _ _ _ _ b (subst (Outcome _ _) e (signal-Counts me _ _ _ r.barrier valid))
      (omega arith) (omega arith) (omega arith)
step-IsValid r valid (signal_sleeps me {b} e) =
    recount _ _ _ _ _ _ b (subst (Outcome _ _) e (signal-Counts me _ _ _ r.barrier valid))
      (omega arith) (omega arith) (omega arith)
step-IsValid r valid (signal_woken_returns me {b} some_left e) =
    recount _ _ _ _ _ _ b (subst (Outcome _ _) e (signal_woken-Counts me _ _ _ r.barrier valid))
      (omega arith) (omega arith) (omega arith)

runs-IsValid : {r : Run} → Reach r → IsValid r
unfolding init
runs-IsValid start = (refl, omega arith, refl, refl)
runs-IsValid (later {r} reach step) = step-IsValid r (runs-IsValid reach) step

-- However the threads are interleaved, between two calls the lock is free, `Waiters` is the number of
-- threads that wait for the event or have not completed yet, as an int, and each sleeping thread is
-- either counted by its condition or has a wake-up, so that a broadcast reaches them all.
pub waiters-counts :
    {r : Run}
    → Reach r
    → (r.barrier.lock ≡ none)
      × (waiters r.barrier ≡ int (r.waiting + r.passed) % 2 ^ 32)
      × (r.barrier.event.block_num + r.barrier.event.wakeups ≡ r.waiting)
      × (r.barrier.comp.block_num + r.barrier.comp.wakeups ≡ r.completing + r.signaling)
unfolding waiters
waiters-counts reach = runs-IsValid reach
