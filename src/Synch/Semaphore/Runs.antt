-- ===== src/Synch/Semaphore/Runs.antt =====
-- The runs of any threads that call `P` and `V` of one semaphore of threads/synch.cc, each with the
-- interrupts off, in any order.
use mathlib.Core.Path.{subst}
use os_lab_nachos.Base.{
  ℕ, ◌≡◌, ◌≤◌, ◌<◌, ◌+◌, ◌-◌, refl, ap, ◌∙◌, ◌⊎◌, inl, inr, List, [], ◌∷◌, ◌++◌, arith, ◌==◌,
  length, length-append, Bool-cases,
}
use os_lab_nachos.Base.Exec.{Returns, ok, asleep}
use os_lab_nachos.Synch.Queue.{ThreadQueue, first_of, behind_first}
use os_lab_nachos.Synch.Semaphore.{Semaphore, init, p, v}

module _ (Q : ThreadQueue) where
  -- A round of `P` is entered by a newcomer, or by a thread that has been woken.
  pub data Entered (me : ℕ) (s : Semaphore Q) : Semaphore Q → Type 0 where
    arrives : Entered me s s
    wakes :
        (front back : List ℕ)
        → s.ready ≡ front ++ me ∷ back
        → Entered me s (record s { ready = front ++ back })

  -- The semaphore, and how often `P` and `V` have come to their end.
  pub record Run : Type 0 where
    pub semaphore : Semaphore Q
    pub downs : ℕ
    pub ups : ℕ

module _ (Q : ThreadQueue) where
  pub data Step (r : Run Q) : Run Q → Type 0 where
    takes :
        (me : ℕ) {s s' : Semaphore Q}
        → Entered Q me r.semaphore s
        → p Q me s ≡ ok tt s'
        → Step r (record r { semaphore = s'; downs = r.downs + 1 })
    sleeps :
        (me : ℕ) {s s' : Semaphore Q}
        → Entered Q me r.semaphore s
        → p Q me s ≡ asleep s'
        → Step r (record r { semaphore = s' })
    raises :
        {s' : Semaphore Q}
        → v Q r.semaphore ≡ ok tt s'
        → Step r (record r { semaphore = s'; ups = r.ups + 1 })

module _ (Q : ThreadQueue) where
  pub data Reach (initial : ℕ) : Run Q → Type 0 where
    start : Reach initial (record { semaphore = init Q initial; downs = 0; ups = 0 })
    later : {r r' : Run Q} → Reach initial r → Step Q r r' → Reach initial r'

  -- Each unit that nobody has taken has a thread awake for it, or nobody sleeps; units are conserved.
  abbrev pub NoneLost : Semaphore Q → Type 0
  NoneLost s = (Q.contents s.queue ≡ []) ⊎ (s.value ≤ length s.ready)

  abbrev pub IsValid : ℕ → Run Q → Type 0
  IsValid initial r = NoneLost r.semaphore × (r.semaphore.value + r.downs ≡ initial + r.ups)

  pub p_cases :
      (me : ℕ) (s : Semaphore Q)
      → ((s.value ≡ 0) × (p Q me s ≡ asleep (record s { queue = Q.append me s.queue })))
        ⊎ ((0 < s.value) × (p Q me s ≡ ok tt (record s { value = s.value - 1 })))
  unfolding p
  p_cases me s = elim (Bool-cases (s.value == 0)) [
    | inl t ↦ inl (ground arith, rw t refl)
    | inr f ↦ inr (ground arith, rw f refl)
  ]

  pub entered_lem :
      {me : ℕ} {s s' : Semaphore Q}
      → Entered Q me s s'
      → (s'.value ≡ s.value) × (s'.queue ≡ s.queue) × (length s.ready ≤ length s'.ready + 1)
  entered_lem arrives = (refl, refl, omega arith)
  entered_lem {me} {s} (wakes front back e) = (
    refl,
    refl,
    omega (arith, ap length e, length-append front (me ∷ back), length-append front back),
  )

  pub take_NoneLost :
      {me : ℕ} {s s' t : Semaphore Q}
      → Entered Q me s s'
      → p Q me s' ≡ ok tt t
      → NoneLost s
      → NoneLost t × (t.value + 1 ≡ s.value)
  take_NoneLost {me} {s} {s'} {t} entered e lost = elim (p_cases me s') [
    | inl (zero_value, e') ↦ absurd cc
    | inr (positive, e') ↦
        let same_state : record s' { value = s'.value - 1 } ≡ t = cc in
        let (value, queue, count) = entered_lem entered in
        subst (λ (t : Semaphore Q). NoneLost t × (t.value + 1 ≡ s.value)) same_state
          (
            elim lost [
              | inl none_sleeps ↦ inl (ap Q.contents queue ∙ none_sleeps)
              | inr enough ↦ inr (omega (arith, value, count, enough))
            ],
            omega (arith, value, positive),
          )
  ]

  pub sleep_NoneLost :
      {me : ℕ} {s s' t : Semaphore Q}
      → Entered Q me s s'
      → p Q me s' ≡ asleep t
      → NoneLost s
      → NoneLost t × (t.value ≡ s.value)
  sleep_NoneLost {me} {s} {s'} {t} entered e lost = elim (p_cases me s') [
    | inl (zero_value, e') ↦
        let same_state : record s' { queue = Q.append me s'.queue } ≡ t = cc in
        subst (λ (t : Semaphore Q). NoneLost t × (t.value ≡ s.value)) same_state
          (inr (omega (arith, zero_value)), (entered_lem entered).0)
    | inr (positive, e') ↦ absurd cc
  ]

  pub raise_NoneLost :
      (s : Semaphore Q) → NoneLost s → Returns (λ _ t. NoneLost t × (t.value ≡ s.value + 1)) (v Q s)
  unfolding v
  raise_NoneLost s lost =
      let (gone, left) = Q.remove_law s.queue in raised (Q.contents s.queue) refl gone left lost
    where
      raised :
          (l : List ℕ)
          → Q.contents s.queue ≡ l
          → (Q.remove s.queue).0 ≡ first_of l
          → Q.contents (Q.remove s.queue).1 ≡ behind_first l
          → NoneLost s
          → Returns (λ _ t. NoneLost t × (t.value ≡ s.value + 1)) (v Q s)
      raised [] e gone left lost = rw gone (inl left, refl)
      raised (t ∷ l) e gone left (inl none_sleeps) = absurd cc
      raised (t ∷ l) e gone left (inr enough) =
          rw gone (inr (omega (arith, length-append s.ready (t ∷ []))), refl)

  step-IsValid : (initial : ℕ) {r r' : Run Q} → IsValid initial r → Step Q r r' → IsValid initial r'
  step-IsValid initial (lost, count) (takes me entered e) =
      let (lost', value) = take_NoneLost entered e lost in (lost', omega arith)
  step-IsValid initial (lost, count) (sleeps me entered e) =
      let (lost', value) = sleep_NoneLost entered e lost in (lost', omega arith)
  step-IsValid initial {r} (lost, count) (raises {s'} e) =
      let (lost', value) = subst (Returns _) e (raise_NoneLost r.semaphore lost) in
      (lost', omega arith)

  -- However the threads are interleaved, the value is the initial one with the finished calls of `V`
  -- added and those of `P` taken off, so that no unit is taken twice; and when a thread sleeps in the
  -- queue, at least as many woken threads are on their way as there are units, so that no wake-up is lost.
  pub reach-IsValid : {initial : ℕ} {r : Run Q} → Reach initial r → IsValid initial r
  unfolding init
  reach-IsValid start = (inl Q.empty_law, omega arith)
  reach-IsValid {initial} (later reach step) = step-IsValid initial (reach-IsValid reach) step
