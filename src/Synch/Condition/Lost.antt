-- ===== src/Synch/Condition/Lost.antt =====
-- What can happen between the release of the lock and `blockNum++` in `Condition::Wait`
-- (threads/synch.cc), which the comment of threads/synch.h calls one atomic operation.
use os_lab_nachos.Base.{ℕ, ◌≡◌, Option, none, some, arith, le→ltb}
use os_lab_nachos.Base.Exec.{Cmd, Returns, Returns-mono, Returns-lifted, Sleeps, Sleeps-bind, ◌>>◌}
use os_lab_nachos.Synch.Queue.{ThreadQueue}
use os_lab_nachos.Synch.Semaphore.{p}
use os_lab_nachos.Synch.Lock.{Lock, acquire, release}
use os_lab_nachos.Synch.Lock.Refine.{IsValid, p_taken, acquire_free, release_held}
use os_lab_nachos.Synch.Condition.{Condition, on_lock, wait_release, wait_block, signal}
use os_lab_nachos.Synch.Condition.Refine.{held_lem}

module _ (Q : ThreadQueue) where
  -- The thread `other` signals after `me` has released the lock in `Wait` and before it is counted.
  unfoldable pub signalled_between : (me other : ℕ) → Cmd (Condition Q) (Unit {0})
  unfolding wait_release signal wait_block acquire release
  signalled_between me other = do
    wait_release Q me
    on_lock Q (acquire Q other)
    signal Q other
    on_lock Q (release Q other)
    wait_block Q me

  -- the lock is as `holder` says, nobody is counted, and no wake-up is kept
  abbrev Quiet : Option ℕ → Condition Q → Type 0
  Quiet holder c =
      (IsValid Q c.condition_lock × (c.condition_lock.lock_hoder ≡ holder))
      × (c.block_num ≡ 0)
      × (c.sem.value ≡ 0)

  on_lock-Quiet :
      (before after : Option ℕ) (m : Cmd (Lock Q) (Unit {0})) (c : Condition Q)
      → Returns (λ _ l. IsValid Q l × (l.lock_hoder ≡ after)) (m c.condition_lock)
      → Quiet before c
      → Returns (λ _ c'. Quiet after c') (on_lock Q m c)
  on_lock-Quiet before after m c h (lock, none_counted, none_kept) =
      Returns-mono
        (λ _ c'.
          (l : Lock Q) × (IsValid Q l × (l.lock_hoder ≡ after))
          × (c' ≡ record c { condition_lock = l }))
        (λ _ c'. Quiet after c') (on_lock Q m c)
        (λ _ c' (l, held, e). rw e (held, none_counted, none_kept))
        (Returns-lifted (λ _ l. IsValid Q l × (l.lock_hoder ≡ after)) _ (m c.condition_lock) h)

  signal-Quiet :
      (me : ℕ) (c : Condition Q)
      → Quiet (some me) c
      → Returns (λ _ c'. Quiet (some me) c') (signal Q me c)
  unfolding signal
  signal-Quiet me c quiet =
      rw (held_lem Q me c quiet.0.1, le→ltb 0 c.block_num (omega (arith, quiet.1))) quiet

  block-Sleeps :
      (me : ℕ) (c : Condition Q)
      → Quiet none c
      → Sleeps
          (λ c'. (c'.block_num ≡ 1) × (c'.sem.value ≡ 0) × (c'.condition_lock.lock_hoder ≡ none))
          (wait_block Q me c)
  unfolding wait_block p
  block-Sleeps me c quiet =
      rw (p_taken Q me c.sem quiet.2) (omega (arith, quiet.1), quiet.2, quiet.0.1)

  -- A signal that falls between the release of the lock in `Wait` and the count of the waiter is lost:
  -- with nobody else waiting, every call returns but the last, in which the waiter falls asleep, counted
  -- and with no wake-up for it, after it was signalled.
  pub signal_between_is_lost :
      (me other : ℕ) (c : Condition Q)
      → IsValid Q c.condition_lock
      → c.condition_lock.lock_hoder ≡ some me
      → c.block_num ≡ 0
      → c.sem.value ≡ 0
      → Sleeps
          (λ c'. (c'.block_num ≡ 1) × (c'.sem.value ≡ 0) × (c'.condition_lock.lock_hoder ≡ none))
          (signalled_between me other c)
  unfolding signalled_between wait_release
  signal_between_is_lost me other c valid held none_counted none_kept =
      let quiet : Quiet (some me) c = ((valid, held), none_counted, none_kept) in
      rw (held_lem Q me c held) (
        Sleeps-bind (λ _ c. Quiet none c) _ (on_lock Q (release Q me) c) _
          (on_lock-Quiet (some me) none (release Q me) c
            (release_held Q me c.condition_lock valid held) quiet)
          λ _ c1 q1.
            Sleeps-bind (λ _ c. Quiet (some other) c) _ (on_lock Q (acquire Q other) c1) _
              (on_lock-Quiet none (some other) (acquire Q other) c1
                (acquire_free Q other c1.condition_lock q1.0.0 q1.0.1) q1)
              λ _ c2 q2.
                Sleeps-bind (λ _ c. Quiet (some other) c) _ (signal Q other c2) _
                  (signal-Quiet other c2 q2)
                  λ _ c3 q3.
                    Sleeps-bind (λ _ c. Quiet none c) _ (on_lock Q (release Q other) c3) _
                      (on_lock-Quiet (some other) none (release Q other) c3
                        (release_held Q other c3.condition_lock q3.0.0 q3.0.1) q3)
                      λ _ c4 q4. block-Sleeps me c4 q4)
