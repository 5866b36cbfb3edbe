-- ===== src/Synch/Lock.antt =====
-- class Lock (threads/synch.cc) over two semaphores.
pub mod Refine
use os_lab_nachos.Base.{ℕ, ◌≡◌, Option, none, some, Bool, same, not}
use os_lab_nachos.Base.Exec.{Cmd, ok, lift, assert, ◌>>=◌, ◌>>◌}
use os_lab_nachos.Synch.Queue.{ThreadQueue}
use os_lab_nachos.Synch.Semaphore.{Semaphore, p, v, init as init_semaphore}

module _ (Q : ThreadQueue) where
  pub record Lock : Type 0 where
    pub lock_hoder : Option ℕ
    pub sem : Semaphore Q
    pub inte : Semaphore Q

module _ (Q : ThreadQueue) where
  abbrev pub on_sem : Cmd (Semaphore Q) (Unit {0}) → Cmd (Lock Q) (Unit {0})
  on_sem = lift (λ l. l.sem) (λ s l. record l { sem = s })

  abbrev pub on_inte : Cmd (Semaphore Q) (Unit {0}) → Cmd (Lock Q) (Unit {0})
  on_inte = lift (λ l. l.inte) (λ s l. record l { inte = s })

  abbrev pub hold : Option ℕ → Cmd (Lock Q) (Unit {0})
  hold t l = ok tt (record l { lock_hoder = t })

  -- `Lock::Lock`
  unfoldable pub init : Lock Q
  unfolding init_semaphore
  init = record { lock_hoder = none; sem = init_semaphore Q 1; inte = init_semaphore Q 1 }

  -- `Lock::isHeldByCurrentThread`
  unfoldable pub is_held_by_current_thread : ℕ → Lock Q → Bool
  is_held_by_current_thread me l = same (some me) l.lock_hoder

  -- `Lock::Acquire`, up to its first sleep
  unfoldable pub acquire : ℕ → Cmd (Lock Q) (Unit {0})
  unfolding is_held_by_current_thread p
  acquire me l =
      (do assert (not (is_held_by_current_thread me l)); on_sem (p Q me); hold (some me)) l

  -- `Lock::Acquire` of a thread that has been woken
  unfoldable pub acquire_woken : ℕ → Cmd (Lock Q) (Unit {0})
  unfolding p
  acquire_woken me = do on_sem (p Q me); hold (some me)

  -- `Lock::Release`
  unfoldable pub release : ℕ → Cmd (Lock Q) (Unit {0})
  unfolding is_held_by_current_thread p v
  release me = do
    on_inte (p Q me)
    (λ l. assert (is_held_by_current_thread me l) l)
    hold none
    on_sem (v Q)
    on_inte (v Q)
