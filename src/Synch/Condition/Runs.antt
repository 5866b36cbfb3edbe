-- ===== src/Synch/Condition/Runs.antt =====
-- The runs of any threads that call `Wait`, `Signal` and `Broadcast` of one condition of threads/synch.cc, with
-- a switch of threads possible between any two of their statements. The callers' lock is its
-- owner, or nobody.
use mathlib.Core.Path.{subst}
use os_lab_nachos.Base.{ℕ, ◌≡◌, ◌<◌, ◌+◌, ◌-◌, ap, inl, arith, ltb, true, Option, none, some}
use os_lab_nachos.Base.Exec.{Returns, ok, asleep}
use os_lab_nachos.Synch.Queue.{ThreadQueue}
use os_lab_nachos.Synch.Semaphore.{Semaphore, init, p, v}
use os_lab_nachos.Synch.Semaphore.Runs.{
  Entered, NoneLost, take_NoneLost, sleep_NoneLost, raise_NoneLost,
}

-- Where the owner of the lock is in `Signal`, or in a round of the loop of `Broadcast`: before the test of
-- `blockNum`, between the test and `blockNum--`, or between that and `sem->V()`.
pub data Place : Type 0 where
  outside tested uncounted : Place

module _ (Q : ThreadQueue) where
  -- `sem` and `blockNum`; how many threads are in `Wait` behind `blockNum++` and before the end of
  -- `sem->P()`; and the owner of the lock, and where it is.
  pub record Run : Type 0 where
    pub sem : Semaphore Q
    pub block_num : ℕ
    pub waiting : ℕ
    pub owner : Option ℕ
    pub place : Place

-- the threads that have counted themselves off the waiters and not raised the semaphore
abbrev pub under_way : Place → ℕ
under_way uncounted = 1
under_way _ = 0

module _ (Q : ThreadQueue) where
  -- `conditionLock->Acquire()` and `conditionLock->Release()` of any thread, those in `Wait` included;
  -- the statements of `Wait` behind its `Release`; and those of `Signal` and `Broadcast` by the owner, whom
  -- their assertion lets pass.
  pub data Step (r : Run Q) : Run Q → Type 0 where
    acquires : (me : ℕ) → r.owner ≡ none → Step r (record r { owner = some me })
    releases : (me : ℕ) → r.owner ≡ some me → r.place ≡ outside → Step r (record r { owner = none })
    counts : Step r (record r { block_num = r.block_num + 1; waiting = r.waiting + 1 })
    passes :
        (me : ℕ) {s s' : Semaphore Q}
        → Entered Q me r.sem s
        → p Q me s ≡ ok tt s'
        → Step r (record r { sem = s'; waiting = r.waiting - 1 })
    sleeps :
        (me : ℕ) {s s' : Semaphore Q}
        → Entered Q me r.sem s
        → p Q me s ≡ asleep s'
        → Step r (record r { sem = s' })
    tests :
        (me : ℕ)
        → r.owner ≡ some me
        → r.place ≡ outside
        → ltb 0 r.block_num ≡ true
        → Step r (record r { place = tested })
    uncounts :
        (me : ℕ)
        → r.owner ≡ some me
        → r.place ≡ tested
        → Step r (record r { block_num = r.block_num - 1; place = uncounted })
    raises :
        (me : ℕ) {s' : Semaphore Q}
        → r.owner ≡ some me
        → r.place ≡ uncounted
        → v Q r.sem ≡ ok tt s'
        → Step r (record r { sem = s'; place = outside })

module _ (Q : ThreadQueue) where
  pub data Reach : Run Q → Type 0 where
    start :
        Reach (record { sem = init Q 0; block_num = 0; waiting = 0; owner = none; place = outside })
    later : {r r' : Run Q} → Reach r → Step Q r r' → Reach r'

  -- What the owner has seen of `blockNum` still holds.
  abbrev pub SeenCount : Place → ℕ → Type 0
  SeenCount tested n = 0 < n
  SeenCount _ n = Unit {0}

  -- Every waiting thread is still counted, or a unit for it is under way or there.
  abbrev pub Accounted : Run Q → Type 0
  Accounted r =
      NoneLost Q r.sem
      × (r.block_num + under_way r.place + r.sem.value ≡ r.waiting)
      × SeenCount r.place r.block_num

  more-SeenCount : (q : Place) (n : ℕ) → SeenCount q n → SeenCount q (n + 1)
  more-SeenCount outside n h = tt
  more-SeenCount tested n h = omega arith
  more-SeenCount uncounted n h = tt

  step-Accounted : {r r' : Run Q} → Accounted r → Step Q r r' → Accounted r'
  step-Accounted (lost, count, seen) (acquires me free) = (lost, count, seen)
  step-Accounted (lost, count, seen) (releases me mine here) = (lost, count, seen)
  step-Accounted {r} (lost, count, seen) counts =
      (lost, omega arith, more-SeenCount r.place r.block_num seen)
  step-Accounted (lost, count, seen) (passes me entered e) =
      let (lost', value) = take_NoneLost Q entered e lost in (lost', omega arith, seen)
  step-Accounted (lost, count, seen) (sleeps me entered e) =
      let (lost', value) = sleep_NoneLost Q entered e lost in (lost', omega arith, seen)
  step-Accounted (lost, count, seen) (tests me mine here h) =
      (lost, omega (arith, ap under_way here), ground arith)
  step-Accounted {r} (lost, count, seen) (uncounts me mine here) =
      let positive : 0 < r.block_num = subst (λ q. SeenCount q r.block_num) here seen in
      (lost, omega (arith, ap under_way here), tt)
  step-Accounted {r} (lost, count, seen) (raises me {s'} mine here e) =
      let (lost', value) = subst (Returns _) e (raise_NoneLost Q r.sem lost) in
      (lost', omega (arith, ap under_way here), tt)

  -- However the statements of `Wait`, `Signal` and `Broadcast` are interleaved, with the lock taken and
  -- given back as they do, `blockNum`, the signal under way and the units of the semaphore are together as
  -- many as the threads that wait, so that no signal is kept for a thread that comes later and none is
  -- lost on one that has been counted; `blockNum` is still positive where a signal that has tested it
  -- counts a thread off; and when a thread sleeps in the queue, at least as many woken threads are on
  -- their way as there are units.
  pub reach-Accounted : {r : Run Q} → Reach r → Accounted r
  unfolding init
  reach-Accounted start = (inl Q.empty_law, omega arith, tt)
  reach-Accounted (later before step) = step-Accounted (reach-Accounted before) step

  -- When `Broadcast` has found `blockNum` at 0, there is a unit for every waiting thread.
  pub all_signalled :
      {r : Run Q} → Reach r → r.block_num ≡ 0 → r.place ≡ outside → r.sem.value ≡ r.waiting
  all_signalled reach h here =
      let (lost, count, seen) = reach-Accounted reach in omega (arith, ap under_way here)
