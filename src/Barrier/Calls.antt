-- ===== src/Barrier/Calls.antt =====
-- Each call of an EventBarrier (threads/EventBarrier.cc) whose lock is free.
use os_lab_nachos.Base.{
  ℕ, ◌≡◌, ◌-◌, refl, inl, inr, Bool, true, false, none, some, same_self, ltb, ◌==◌, Bool-cases,
  if◌then◌else◌,
}
use os_lab_nachos.Base.Exec.{Result, ok, asleep}
use os_lab_nachos.Base.Int.{int, inc, dec}
use os_lab_nachos.Monitor.{Condition, assert_held, broadcast, block, consume, release-holder}
use os_lab_nachos.Barrier.{
  EventBarrier, wait, wait_woken, signal, signal_woken, complete, complete_woken,
}

held : (me : ℕ) → assert_held me (some me) ≡ ok tt (some me)
unfolding assert_held
held me = rw (same_self me) refl

-- a free barrier
abbrev pub barrier : ℕ → Condition → Condition → Bool → EventBarrier
barrier w e c s = record { waiternum = w; lock = none; event = e; comp = c; signaled = s }

-- What the thread does on a condition: it takes a wake-up and passes, or sleeps.
abbrev pub after :
    (Condition → EventBarrier)
    → (Condition → EventBarrier)
    → Condition
    → Result EventBarrier (Unit {0})
after passes sleeps c =
    if ltb 0 c.wakeups
    then ok tt (passes (record c { wakeups = c.wakeups - 1 }))
    else asleep (sleeps c)

module _ (me w : ℕ) (e c : Condition) (s : Bool) where
  pub wait_woken_lem :
      wait_woken me (barrier w e c s) ≡ after (λ e'. barrier w e' c s) (λ e'. barrier w e' c s) e
  unfolding wait_woken consume
  wait_woken_lem = elim (Bool-cases (ltb 0 e.wakeups)) [
    | inl t ↦ rw (t, release-holder me) refl
    | inr f ↦ rw f refl
  ]

  pub signal_woken_lem :
      signal_woken me (barrier w e c s)
      ≡ after (λ c'. barrier w e c' false) (λ c'. barrier w e c' s) c
  unfolding signal_woken consume
  signal_woken_lem = elim (Bool-cases (ltb 0 c.wakeups)) [
    | inl t ↦ rw (t, release-holder me) refl
    | inr f ↦ rw f refl
  ]

  pub complete_woken_lem :
      complete_woken me (barrier w e c s)
      ≡ after (λ c'. barrier w e c' s) (λ c'. barrier w e c' s) c
  unfolding complete_woken consume
  complete_woken_lem = elim (Bool-cases (ltb 0 c.wakeups)) [
    | inl t ↦ rw (t, release-holder me) refl
    | inr f ↦ rw f refl
  ]

module _ (me w : ℕ) (e c : Condition) (s : Bool) where
  -- `Signal` on a free lock wakes all waiters of the event and leaves the barrier open. It takes a
  -- wake-up of `comp` where there is one, meant for whichever thread, returns and closes the barrier;
  -- else it sleeps.
  pub signal_lem :
      signal me (barrier w e c s)
      ≡ after
          (λ c'. barrier w (broadcast e) c' false)
          (λ c'. barrier w (broadcast e) c' true)
          (block c)
  unfolding signal block
  signal_lem =
      rw (held me, held me, release-holder me) (signal_woken_lem me w (broadcast e) (block c) true)

  -- `Wait` counts its caller and returns at once when the barrier is open; else the caller waits for
  -- the event.
  pub wait_lem : wait me (barrier w e c s) ≡ (
      if s
      then ok tt (barrier (inc w) e c s)
      else after (λ e'. barrier (inc w) e' c s) (λ e'. barrier (inc w) e' c s) (block e))
  unfolding wait block
  wait_lem = by_state s
    where
      by_state :
          (s : Bool)
          → wait me (barrier w e c s) ≡ (
              if s
              then ok tt (barrier (inc w) e c s)
              else after (λ e'. barrier (inc w) e' c s) (λ e'. barrier (inc w) e' c s) (block e))
      by_state true = rw (release-holder me) refl
      by_state false = rw (held me, release-holder me) (wait_woken_lem me (inc w) (block e) c false)

  -- `Complete` counts its caller off; the last one wakes all that wait for the end and returns, any
  -- other waits for the end itself.
  pub complete_lem : complete me (barrier w e c s) ≡ (
      if dec w == int 0
      then ok tt (barrier (dec w) e (broadcast c) s)
      else after (λ c'. barrier (dec w) e c' s) (λ c'. barrier (dec w) e c' s) (block c))
  unfolding complete block
  complete_lem = elim (Bool-cases (dec w == int 0)) [
    | inl t ↦ rw (t, held me, release-holder me) refl
    | inr f ↦ rw (f, held me, release-holder me) (complete_woken_lem me (dec w) e (block c) s)
  ]
