-- ===== src/Barrier/Counts.antt =====
-- What each call of an EventBarrier (threads/EventBarrier.cc) does to the counts of its threads.
use mathlib.Core.Path.{subst}
use os_lab_nachos.Base.{
  ℕ, ◌≡◌, ◌+◌, ◌-◌, ◌%◌, ◌^◌, ◌<◌, refl, ap, sym, inl, inr, Bool, true, false, none, arith, ltb,
  ◌==◌, Bool-cases,
}
use os_lab_nachos.Base.Exec.{Result, Outcome}
use os_lab_nachos.Base.Int.{int, inc, dec}
use os_lab_nachos.Monitor.{Condition, broadcast, block}
use os_lab_nachos.Barrier.{
  EventBarrier, wait, wait_woken, signal, signal_woken, complete, complete_woken,
}
use os_lab_nachos.Barrier.Calls.{
  barrier, after, wait_lem, wait_woken_lem, signal_lem, signal_woken_lem, complete_lem,
  complete_woken_lem,
}

-- A free barrier that counts `n` threads, with `e` of them asleep in `Wait` and `c` others at its end.
abbrev pub Counts : (n e c : ℕ) → EventBarrier → Type 0
Counts n e c b =
    (b.lock ≡ none)
    × (b.waiternum ≡ int n % 2 ^ 32)
    × (b.event.block_num + b.event.wakeups ≡ e)
    × (b.comp.block_num + b.comp.wakeups ≡ c)

free_lem : (b : EventBarrier) → b.lock ≡ none → barrier b.waiternum b.event b.comp b.signaled ≡ b
free_lem b h = sym (ap (λ l. record b { lock = l }) h)

after_lem :
    (P Q : EventBarrier → Type 0) (passes sleeps : Condition → EventBarrier) (c : Condition)
    → (0 < c.wakeups → P (passes (record c { wakeups = c.wakeups - 1 })))
    → Q (sleeps c)
    → Outcome P Q (after passes sleeps c)
after_lem P Q passes sleeps c h g = elim (Bool-cases (ltb 0 c.wakeups)) [
  | inl t ↦ rw t (h (ground arith))
  | inr f ↦ rw f g
]

event_lem :
    (P Q : EventBarrier → Type 0) (w : ℕ) (s t : Bool) (e c : Condition)
    → (0 < e.wakeups → P (barrier w (record e { wakeups = e.wakeups - 1 }) c s))
    → Q (barrier w e c t)
    → Outcome P Q (after (λ e'. barrier w e' c s) (λ e'. barrier w e' c t) e)
event_lem P Q w s t e c = after_lem P Q (λ e'. barrier w e' c s) (λ e'. barrier w e' c t) e

comp_lem :
    (P Q : EventBarrier → Type 0) (w : ℕ) (s t : Bool) (e c : Condition)
    → (0 < c.wakeups → P (barrier w e (record c { wakeups = c.wakeups - 1 }) s))
    → Q (barrier w e c t)
    → Outcome P Q (after (λ c'. barrier w e c' s) (λ c'. barrier w e c' t) c)
comp_lem P Q w s t e c = after_lem P Q (λ c'. barrier w e c' s) (λ c'. barrier w e c' t) c

inc_lem : (w n : ℕ) → w ≡ int n % 2 ^ 32 → inc w ≡ int (n + 1) % 2 ^ 32
inc_lem w n h = omega (arith, h)

dec_lem : (w n : ℕ) → 0 < n → w ≡ int n % 2 ^ 32 → dec w ≡ int (n - 1) % 2 ^ 32
dec_lem w n pos h = omega (arith, h, pos)

on_free :
    (P Q : EventBarrier → Type 0) (call : EventBarrier → Result EventBarrier (Unit {0}))
    (b : EventBarrier)
    → b.lock ≡ none
    → Outcome P Q (call (barrier b.waiternum b.event b.comp b.signaled))
    → Outcome P Q (call b)
on_free P Q call b h = subst (λ b. Outcome P Q (call b)) (free_lem b h)

module _ (me n e c : ℕ) (b : EventBarrier) (counts : Counts n e c b) where
  pub wait-Counts : Outcome (Counts (n + 1) e c) (Counts (n + 1) (e + 1) c) (wait me b)
  unfolding block
  wait-Counts = on_free _ _ (wait me) b counts.0 (
      rw (wait_lem me b.waiternum b.event b.comp b.signaled) (elim (Bool-cases b.signaled) [
        | inl t ↦ rw t (refl, inc_lem b.waiternum n counts.1, counts.2, counts.3)
        | inr f ↦ rw f (
            event_lem (Counts (n + 1) e c) (Counts (n + 1) (e + 1) c) (inc b.waiternum) false false
              (block b.event) b.comp
              (λ pos.
                (refl, inc_lem b.waiternum n counts.1, omega (arith, pos, counts.2), counts.3))
              (refl, inc_lem b.waiternum n counts.1, omega (arith, counts.2), counts.3))
      ]))

  pub wait_woken-Counts : Outcome (Counts n (e - 1) c) (Counts n e c) (wait_woken me b)
  wait_woken-Counts = on_free _ _ (wait_woken me) b counts.0 (
      rw (wait_woken_lem me b.waiternum b.event b.comp b.signaled) (
        event_lem (Counts n (e - 1) c) (Counts n e c) b.waiternum b.signaled b.signaled b.event
          b.comp (λ pos. (refl, counts.1, omega (arith, pos, counts.2), counts.3))
          (refl, counts.1, counts.2, counts.3)))

  pub complete_woken-Counts : Outcome (Counts n e (c - 1)) (Counts n e c) (complete_woken me b)
  complete_woken-Counts = on_free _ _ (complete_woken me) b counts.0 (
      rw (complete_woken_lem me b.waiternum b.event b.comp b.signaled) (
        comp_lem (Counts n e (c - 1)) (Counts n e c) b.waiternum b.signaled b.signaled b.event
          b.comp (λ pos. (refl, counts.1, counts.2, omega (arith, pos, counts.3)))
          (refl, counts.1, counts.2, counts.3)))

  pub signal_woken-Counts : Outcome (Counts n e (c - 1)) (Counts n e c) (signal_woken me b)
  signal_woken-Counts = on_free _ _ (signal_woken me) b counts.0 (
      rw (signal_woken_lem me b.waiternum b.event b.comp b.signaled) (
        comp_lem (Counts n e (c - 1)) (Counts n e c) b.waiternum false b.signaled b.event b.comp
          (λ pos. (refl, counts.1, counts.2, omega (arith, pos, counts.3)))
          (refl, counts.1, counts.2, counts.3)))

  pub signal-Counts : Outcome (Counts n e c) (Counts n e (c + 1)) (signal me b)
  unfolding block broadcast
  signal-Counts = on_free _ _ (signal me) b counts.0 (
      rw (signal_lem me b.waiternum b.event b.comp b.signaled) (
        comp_lem (Counts n e c) (Counts n e (c + 1)) b.waiternum false true (broadcast b.event)
          (block b.comp)
          (λ pos. (refl, counts.1, omega (arith, counts.2), omega (arith, pos, counts.3)))
          (refl, counts.1, omega (arith, counts.2), omega (arith, counts.3))))

  pub complete-Counts :
      0 < n → Outcome (Counts (n - 1) e c) (Counts (n - 1) e (c + 1)) (complete me b)
  unfolding block broadcast
  complete-Counts some_left = on_free _ _ (complete me) b counts.0 (
      rw (complete_lem me b.waiternum b.event b.comp b.signaled)
        (elim (Bool-cases (dec b.waiternum == int 0)) [
          | inl t ↦ rw t (refl, fewer, counts.2, omega (arith, counts.3))
          | inr f ↦ rw f (
              comp_lem (Counts (n - 1) e c) (Counts (n - 1) e (c + 1)) (dec b.waiternum) b.signaled
                b.signaled b.event (block b.comp)
                (λ pos. (refl, fewer, counts.2, omega (arith, pos, counts.3)))
                (refl, fewer, counts.2, omega (arith, counts.3)))
        ]))
    where
      fewer : dec b.waiternum ≡ int (n - 1) % 2 ^ 32
      fewer = dec_lem b.waiternum n some_left counts.1
