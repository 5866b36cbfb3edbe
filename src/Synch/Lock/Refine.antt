-- ===== src/Synch/Lock/Refine.antt =====
-- class Lock of threads/synch.cc keeps the contract of Monitor.antt: who holds the lock.
use os_lab_nachos.Base.{
  ℕ, ◌≡◌, refl, ap, ◌∙◌, inl, inr, Option, none, some, arith, ◌==◌, same, Option-cases, same-some,
  same_sym, ==_sym, Bool-cases,
}
use os_lab_nachos.Base.Exec.{Returns, Result, fault, ok, asleep, lifted, Settled}
use os_lab_nachos.Monitor
use os_lab_nachos.Synch.Queue.{ThreadQueue}
use os_lab_nachos.Synch.Semaphore.{Semaphore, init as init_semaphore, p, v}
use os_lab_nachos.Synch.Lock.{Lock, init, acquire, release, is_held_by_current_thread}

module _ (Q : ThreadQueue) where
  -- the unit of `sem` is out while the lock is held
  abbrev pub units : Option ℕ → ℕ
  units none = 1
  units (some t) = 0

  -- as a lock is between two calls
  abbrev pub IsValid : Lock Q → Type 0
  IsValid l = (l.sem.value ≡ units l.lock_hoder) × (l.inte.value ≡ 1)

  init-IsValid : IsValid (init Q)
  unfolding init init_semaphore
  init-IsValid = (refl, refl)

  p_free : (me : ℕ) (s : Semaphore Q) → s.value ≡ 1 → p Q me s ≡ ok tt (record s { value = 0 })
  unfolding p
  p_free me s e = rw e refl

  pub p_taken :
      (me : ℕ) (s : Semaphore Q)
      → s.value ≡ 0
      → p Q me s ≡ asleep (record s { queue = Q.append me s.queue })
  unfolding p
  p_taken me s e = rw e refl

  -- `Acquire` stops a thread that holds the lock already, gives a free lock to its caller, and puts the
  -- caller to sleep while another thread holds it; the semaphores then agree with the holder again.
  pub acquire-refines :
      (me : ℕ) (l : Lock Q)
      → IsValid l
      → (lifted (λ l. l.lock_hoder) (acquire Q me l) ≡ Monitor.acquire me l.lock_hoder)
        × Settled IsValid (acquire Q me l)
  unfolding acquire is_held_by_current_thread Monitor.acquire
  acquire-refines me l (unit, inte) = elim (Option-cases l.lock_hoder) [
    | inl e ↦
        let free : l.sem.value ≡ 1 = unit ∙ ap units e in
        rw (e, p_free me l.sem free) (refl, (refl, inte))
    | inr (t, e) ↦
        let taken : l.sem.value ≡ 0 = unit ∙ ap units e in
        elim (Bool-cases (t == me)) [
          | inl mine ↦ rw (e, ==_sym me t, mine) (refl, tt)
          | inr other ↦ rw (e, ==_sym me t, other, p_taken me l.sem taken) (refl, (taken, inte))
        ]
  ]

  -- `Release` frees the lock when its caller holds it, never sleeps, and stops any other caller.
  pub release-refines :
      (me : ℕ) (l : Lock Q)
      → IsValid l
      → (lifted (λ l. l.lock_hoder) (release Q me l) ≡ Monitor.release me l.lock_hoder)
        × Settled IsValid (release Q me l)
  unfolding release v is_held_by_current_thread Monitor.release
  release-refines me l (unit, inte) = elim (Bool-cases (same l.lock_hoder (some me))) [
    | inl mine ↦
        rw (p_free me l.inte inte, same_sym (some me) l.lock_hoder, mine)
          (refl, (omega (arith, unit ∙ ap units (same-some l.lock_hoder me mine)), refl))
    | inr other ↦ rw (p_free me l.inte inte, same_sym (some me) l.lock_hoder, other) (refl, tt)
  ]

  refined :
      (r : Result (Lock Q) (Unit {0})) (t : Option ℕ)
      → lifted (λ l. l.lock_hoder) r ≡ ok tt t
      → Settled IsValid r
      → Returns (λ _ l. IsValid l × (l.lock_hoder ≡ t)) r
  refined (ok _ l) t e h = (h, cc)
  refined (asleep l) t e h = absurd cc
  refined (fault f l) t e h = absurd cc

  -- by its rules the lock goes to the caller when it is free, and is free when its holder has left it
  pub acquire_free :
      (me : ℕ) (l : Lock Q)
      → IsValid l
      → l.lock_hoder ≡ none
      → Returns (λ _ l'. IsValid l' × (l'.lock_hoder ≡ some me)) (acquire Q me l)
  acquire_free me l valid e =
      let (same_result, settled) = acquire-refines me l valid in
      refined (acquire Q me l) (some me)
        (same_result ∙ ap (Monitor.acquire me) e ∙ Monitor.acquire-none me) settled

  pub release_held :
      (me : ℕ) (l : Lock Q)
      → IsValid l
      → l.lock_hoder ≡ some me
      → Returns (λ _ l'. IsValid l' × (l'.lock_hoder ≡ none)) (release Q me l)
  release_held me l valid e =
      let (same_result, settled) = release-refines me l valid in
      refined (release Q me l) none
        (same_result ∙ ap (Monitor.release me) e ∙ Monitor.release-holder me) settled
