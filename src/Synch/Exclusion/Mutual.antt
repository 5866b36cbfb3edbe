-- ===== src/Synch/Exclusion/Mutual.antt =====
-- Mutual exclusion by a lock of threads/synch.cc.
use mathlib.Core.Path.{subst}
use os_lab_nachos.Base.{ℕ, ◌≡◌, ◌+◌, ◌-◌, ◌<◌, refl, ap, sym, ◌∙◌, inl, inr, true, some}
use os_lab_nachos.Base.Exec.{Returns, ok, asleep}
use os_lab_nachos.Synch.Queue.{ThreadQueue}
use os_lab_nachos.Synch.Semaphore.{Semaphore, p, v, init as init_semaphore}
use os_lab_nachos.Synch.Semaphore.Runs.{p_cases}
use os_lab_nachos.Synch.Lock.{init}
use os_lab_nachos.Synch.Exclusion.{
  outside, taking, taken, critical, entering, checking, clearing, raised, update, System, Step,
  Reach, start, later, acquire_begins, sem_taken, sem_sleeps, holder_set, release_begins,
  inte_taken, inte_sleeps, holder_cleared, sem_raised, inte_raised,
}
use os_lab_nachos.Synch.Exclusion.Owner.{
  inside, named, Owned, stays_out, enters, owner_is, moves_on, leaves,
}

module _ (Q : ThreadQueue) where
  p_returned :
      (me : ℕ) (s t : Semaphore Q) → p Q me s ≡ ok tt t → (0 < s.value) × (t.value ≡ s.value - 1)
  p_returned me s t e = elim (p_cases Q me s) [
    | inl (zero_value, e') ↦ absurd cc
    | inr (positive, e') ↦
        let same_state : record s { value = s.value - 1 } ≡ t = cc in
        (positive, sym (ap (λ r. r.value) same_state))
  ]

  p_slept : (me : ℕ) (s t : Semaphore Q) → p Q me s ≡ asleep t → t.value ≡ s.value
  p_slept me s t e = elim (p_cases Q me s) [
    | inl (zero_value, e') ↦
        let same_state : record s { queue = Q.append me s.queue } ≡ t = cc in
        sym (ap (λ r. r.value) same_state)
    | inr (positive, e') ↦ absurd cc
  ]

  v_returned : (s t : Semaphore Q) → v Q s ≡ ok tt t → t.value ≡ s.value + 1
  unfolding v
  v_returned s t e = subst (Returns (λ _ t. t.value ≡ s.value + 1)) e refl

  abbrev pub IsValid : System Q → Type 0
  IsValid s = Owned s.lock.sem.value s.lock.lock_hoder s.pc

  step-IsValid : (s : System Q) {s' : System Q} → IsValid s → Step Q s s' → IsValid s'
  step-IsValid s valid (acquire_begins me at _) =
      stays_out s.pc me taking _ _ (ap inside at) refl valid
  step-IsValid s valid (sem_taken me {t} at e) =
      let (positive, value) = p_returned me s.lock.sem t e in
      subst (λ u. Owned u s.lock.lock_hoder (update s.pc me taken)) (sym value)
        (enters s.pc me taken s.lock.sem.value s.lock.lock_hoder positive refl refl valid)
  step-IsValid s valid (sem_sleeps me {t} at e) =
      subst (λ u. Owned u s.lock.lock_hoder s.pc) (sym (p_slept me s.lock.sem t e)) valid
  step-IsValid s valid (holder_set me at) =
      moves_on s.pc me critical _ s.lock.lock_hoder (ap inside at) refl valid
  step-IsValid s valid (release_begins me at) =
      let (_, holder, _) = owner_is s.pc me entering _ _ (ap inside at) valid in
      subst (λ h. Owned s.lock.sem.value h (update s.pc me entering))
        (sym (holder ∙ ap (λ r. named r me) at))
        (moves_on s.pc me entering _ s.lock.lock_hoder (ap inside at) refl valid)
  step-IsValid s valid (inte_taken me at e) =
      let (_, holder, _) = owner_is s.pc me checking _ _ (ap inside at) valid in
      subst (λ h. Owned s.lock.sem.value h (update s.pc me checking))
        (sym (holder ∙ ap (λ r. named r me) at))
        (moves_on s.pc me checking _ s.lock.lock_hoder (ap inside at) refl valid)
  step-IsValid s valid (inte_sleeps me at e) = valid
  step-IsValid s valid (holder_cleared me at _) =
      moves_on s.pc me clearing _ s.lock.lock_hoder (ap inside at) refl valid
  step-IsValid s valid (sem_raised me {t} at e) =
      subst (λ u. Owned u s.lock.lock_hoder (update s.pc me raised))
        (sym (v_returned s.lock.sem t e))
        (leaves s.pc me raised _ _ (ap inside at) refl (ap (λ r. named r me) at) valid)
  step-IsValid s valid (inte_raised me at e) =
      stays_out s.pc me outside _ _ (ap inside at) refl valid

  reach-Owned : {s : System Q} → Reach Q s → IsValid s
  unfolding init init_semaphore
  reach-Owned start = inl (refl, refl, λ t. refl)
  reach-Owned (later {s} reach step) = step-IsValid s (reach-Owned reach) step

  -- However the threads that acquire one lock and release it after that are interleaved, between any
  -- statements of the calls, at most one of them is between `sem->P()` and `sem->V()`, and a thread that
  -- comes to the assertion in `Release` is the one that `LockHoder` names.
  pub mutual_exclusion :
      {s : System Q}
      → Reach Q s
      → ((t u : ℕ) → inside (s.pc t) ≡ true → inside (s.pc u) ≡ true → t ≡ u)
        × ((t : ℕ) → s.pc t ≡ checking → s.lock.lock_hoder ≡ some t)
  mutual_exclusion {s} reach =
      let owned = reach-Owned reach in
      (
        λ t u i j. (owner_is s.pc u outside _ _ j owned).2 t i,
        λ t at. (owner_is s.pc t outside _ _ (ap inside at) owned).1 ∙ ap (λ r. named r t) at,
      )
