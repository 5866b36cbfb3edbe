-- ===== src/Synch/Exclusion.antt =====
-- The calls of class Lock (threads/synch.cc) with a switch of threads possible between any two of their
-- statements; only `P` and `V` of the semaphores run undisturbed.
pub mod Owner
pub mod Mutual
use os_lab_nachos.Base.{ℕ, ◌≡◌, ◌≢◌, Option, none, some, ◌==◌, if◌then◌else◌}
use os_lab_nachos.Base.Exec.{ok, asleep}
use os_lab_nachos.Synch.Queue.{ThreadQueue}
use os_lab_nachos.Synch.Semaphore.{Semaphore, p, v}
use os_lab_nachos.Synch.Lock.{Lock, init}

-- Where a thread is: outside; in `sem->P()` of `Acquire`, behind it, and behind the call; in `inte->P()`
-- of `Release`, behind it, behind `LockHoder = NULL`, and behind `sem->V()`.
pub data Pc : Type 0 where
  outside taking taken critical entering checking clearing raised : Pc

abbrev pub update : (ℕ → Pc) → ℕ → Pc → ℕ → Pc
update pc me q t = if t == me then q else pc t

module _ (Q : ThreadQueue) where
  pub record System : Type 0 where
    pub lock : Lock Q
    pub pc : ℕ → Pc

module _ (Q : ThreadQueue) where
  -- One stretch of one thread; `ASSERT` lets it pass only when its test holds.
  pub data Step (s : System Q) : System Q → Type 0 where
    acquire_begins :
        (me : ℕ)
        → s.pc me ≡ outside
        → s.lock.lock_hoder ≢ some me
        → Step s (record s { pc = update s.pc me taking })
    sem_taken :
        (me : ℕ) {t : Semaphore Q}
        → s.pc me ≡ taking
        → p Q me s.lock.sem ≡ ok tt t
        → Step s (record { lock = record s.lock { sem = t }; pc = update s.pc me taken })
    sem_sleeps :
        (me : ℕ) {t : Semaphore Q}
        → s.pc me ≡ taking
        → p Q me s.lock.sem ≡ asleep t
        → Step s (record s { lock = record s.lock { sem = t } })
    holder_set :
        (me : ℕ)
        → s.pc me ≡ taken
        → Step s
            (record { lock = record s.lock { lock_hoder = some me }; pc = update s.pc me critical })
    release_begins :
        (me : ℕ) → s.pc me ≡ critical → Step s (record s { pc = update s.pc me entering })
    inte_taken :
        (me : ℕ) {t : Semaphore Q}
        → s.pc me ≡ entering
        → p Q me s.lock.inte ≡ ok tt t
        → Step s (record { lock = record s.lock { inte = t }; pc = update s.pc me checking })
    inte_sleeps :
        (me : ℕ) {t : Semaphore Q}
        → s.pc me ≡ entering
        → p Q me s.lock.inte ≡ asleep t
        → Step s (record s { lock = record s.lock { inte = t } })
    holder_cleared :
        (me : ℕ)
        → s.pc me ≡ checking
        → s.lock.lock_hoder ≡ some me
        → Step s
            (record { lock = record s.lock { lock_hoder = none }; pc = update s.pc me clearing })
    sem_raised :
        (me : ℕ) {t : Semaphore Q}
        → s.pc me ≡ clearing
        → v Q s.lock.sem ≡ ok tt t
        → Step s (record { lock = record s.lock { sem = t }; pc = update s.pc me raised })
    inte_raised :
        (me : ℕ) {t : Semaphore Q}
        → s.pc me ≡ raised
        → v Q s.lock.inte ≡ ok tt t
        → Step s (record { lock = record s.lock { inte = t }; pc = update s.pc me outside })

module _ (Q : ThreadQueue) where
  pub data Reach : System Q → Type 0 where
    start : Reach (record { lock = init Q; pc = λ _. outside })
    later : {s s' : System Q} → Reach s → Step Q s s' → Reach s'
