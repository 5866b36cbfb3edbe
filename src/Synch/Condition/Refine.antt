-- ===== src/Synch/Condition/Refine.antt =====
-- class Condition of threads/synch.cc keeps the contract of Monitor.antt.
use os_lab_nachos.Base.{
  ℕ, zero, suc, ◌≡◌, ◌+◌, ◌-◌, refl, ◌∙◌, inl, inr, some, arith, same_self, ltb, le→ltb, lt→ltb,
  Bool-cases,
}
use os_lab_nachos.Base.Exec.{Returns, Returns-mono, ok}
use os_lab_nachos.Monitor
use os_lab_nachos.Synch.Queue.{ThreadQueue}
use os_lab_nachos.Synch.Semaphore.{Semaphore, hand_on, v}
use os_lab_nachos.Synch.Lock.{is_held_by_current_thread}
use os_lab_nachos.Synch.Condition.{Condition, assert_held, signal, broadcast, wake_all}

abbrev contract : ℕ → ℕ → Monitor.Condition
contract m n = record { block_num = m; wakeups = n }

condition_eq : (m n m' n' : ℕ) → m ≡ m' → n ≡ n' → contract m n ≡ contract m' n'
condition_eq m n m' n' e f = rw (e, f) refl

module _ (Q : ThreadQueue) where
  -- what the contract tells of a condition
  abbrev pub seen : Condition Q → Monitor.Condition
  seen c = record { block_num = c.block_num; wakeups = c.sem.value }

  -- Only what the contract tells has changed, and as it says.
  abbrev pub Acts : (Monitor.Condition → Monitor.Condition) → Condition Q → Condition Q → Type 0
  Acts act c c' =
      (seen c' ≡ act (seen c)) × (c'.condition_lock ≡ c.condition_lock) × (c'.inte ≡ c.inte)

  pub held_lem :
      (me : ℕ) (c : Condition Q)
      → c.condition_lock.lock_hoder ≡ some me
      → assert_held Q me c ≡ ok tt c
  unfolding is_held_by_current_thread
  held_lem me c held = rw (held, same_self me) refl

  -- `Signal` by the holder of the lock wakes one counted waiter, and nobody is woken when none is
  -- counted, so that no wake-up is kept for a later waiter; the lock stays with its holder.
  pub signal-refines :
      (me : ℕ) (c : Condition Q)
      → c.condition_lock.lock_hoder ≡ some me
      → Returns (λ _ c'. Acts Monitor.signal c c') (signal Q me c)
  unfolding signal is_held_by_current_thread v Monitor.signal
  signal-refines me c held = rw (held_lem me c held) (elim (Bool-cases (ltb 0 c.block_num)) [
    | inl t ↦ rw t (refl, refl, refl)
    | inr f ↦ rw f (refl, refl, refl)
  ])

  -- the loop wakes all that are counted, within as many rounds
  wake_all_lem :
      (n : ℕ) (c : Condition Q)
      → c.block_num ≡ n
      → Returns (λ _ c'. Acts Monitor.broadcast c c') (wake_all Q n c)
  unfolding wake_all v Monitor.broadcast
  wake_all_lem zero c e =
      rw (le→ltb 0 c.block_num (omega arith)) (condition_eq _ _ _ _ e (omega arith), refl, refl)
  wake_all_lem (suc n) c e = rw (lt→ltb 0 c.block_num (omega arith)) (
      Returns-mono (λ _ c'. Acts Monitor.broadcast woken c') _ (wake_all Q n woken)
        (λ _ c' h. (h.0 ∙ condition_eq _ _ _ _ refl (omega arith), h.1, h.2))
        (wake_all_lem n woken (omega arith)))
    where
      raised : Semaphore Q
      raised =
          record (hand_on Q (Q.remove c.sem.queue).0
            (record c.sem { queue = (Q.remove c.sem.queue).1 })) { value = c.sem.value + 1 }

      woken : Condition Q
      woken = record c { block_num = c.block_num - 1; sem = raised }

  -- `Broadcast` by the holder of the lock comes to its end, wakes every counted waiter, and leaves none
  -- counted and the lock with its holder.
  pub broadcast-refines :
      (me : ℕ) (c : Condition Q)
      → c.condition_lock.lock_hoder ≡ some me
      → Returns (λ _ c'. Acts Monitor.broadcast c c') (broadcast Q me c)
  unfolding broadcast is_held_by_current_thread
  broadcast-refines me c held = rw (held_lem me c held) (wake_all_lem c.block_num c refl)
