-- ===== src/Elevator/Riders/Occupancy.antt =====
-- The riders that an elevator of threads/Elevator.cc holds.
use os_lab_nachos.Base.{
  ℕ, ◌≡◌, ◌+◌, ◌-◌, ◌≤◌, ◌<◌, refl, ap, sym, ◌∙◌, ◌⊎◌, true, false, arith, ltb, inl, inr,
  Bool-cases,
}
use os_lab_nachos.Base.Exec.{ok}
use os_lab_nachos.Base.Int.{int, inc, dec}
use os_lab_nachos.Elevator.State.{Elevator, new_elevator}
use os_lab_nachos.Elevator.Riders.{take_place, count, elevator_capacity}

-- The elevator, and the riders who have entered and not left; each of the steps is a stretch of `Enter`
-- or `Exit` that no other thread interrupts.
pub record Trip : Type 0 where
  pub elevator : Elevator
  pub riders : ℕ

pub data Step (t : Trip) : Trip → Type 0 where
  boards :
      {e : Elevator}
      → take_place t.elevator ≡ ok true e
      → Step t (record { elevator = e; riders = t.riders + 1 })
  is_refused :
      {e : Elevator}
      → take_place t.elevator ≡ ok false e
      → Step t (record { elevator = e; riders = t.riders })
  leaves :
      {e : Elevator}
      → 0 < t.riders
      → count dec t.elevator ≡ ok tt e
      → Step t (record { elevator = e; riders = t.riders - 1 })

pub data Reach (floors id : ℕ) : Trip → Type 0 where
  start : Reach floors id (record { elevator = new_elevator floors id; riders = 0 })
  later : {t t' : Trip} → Reach floors id t → Step t t' → Reach floors id t'

place_lem :
    (e : Elevator) (n : ℕ)
    → e.occupancy ≡ int n
    → n ≤ elevator_capacity
    → ((n < elevator_capacity) × (take_place e ≡ ok true (record e { occupancy = int (n + 1) })))
      ⊎ ((n ≡ elevator_capacity) × (take_place e ≡ ok false e))
unfolding take_place
place_lem e n occ h = elim (Bool-cases (ltb (int elevator_capacity) (inc e.occupancy))) [
  | inl t ↦ inr (
    full e.occupancy n occ h t,
    rw t (ap (λ o. ok false (record e { occupancy = o })) (back e.occupancy n occ h)),
  )
  | inr f ↦ inl (
    less e.occupancy n occ h f,
    rw f (ap (λ o. ok true (record e { occupancy = o })) (more e.occupancy n occ h)),
  )
]
  where
    full : (o n : ℕ) → o ≡ int n → n ≤ 6 → ltb (int 6) (inc o) ≡ true → n ≡ 6
    full o n e h t = ground arith

    less : (o n : ℕ) → o ≡ int n → n ≤ 6 → ltb (int 6) (inc o) ≡ false → n < 6
    less o n e h t = ground arith

    more : (o n : ℕ) → o ≡ int n → n ≤ 6 → inc o ≡ int (n + 1)
    more o n e h = omega (arith, e, h)

    back : (o n : ℕ) → o ≡ int n → n ≤ 6 → dec (inc o) ≡ o
    back o n e h = omega (arith, e, h)

pub step_lem :
    (t : Trip) {t' : Trip}
    → t.elevator.occupancy ≡ int t.riders
    → t.riders ≤ elevator_capacity
    → Step t t'
    → (t'.elevator.occupancy ≡ int t'.riders) × (t'.riders ≤ elevator_capacity)
step_lem t occ h (boards {e} eq) = elim (place_lem t.elevator t.riders occ h) [
  | inl (less, enters) ↦
      let same_state : record t.elevator { occupancy = int (t.riders + 1) } ≡ e = cc in
      (sym (ap (λ e. e.occupancy) same_state), omega arith)
  | inr (full, refused) ↦ absurd cc
]
step_lem t occ h (is_refused {e} eq) = elim (place_lem t.elevator t.riders occ h) [
  | inl (less, enters) ↦ absurd cc
  | inr (full, refused) ↦
      let same_state : t.elevator ≡ e = cc in (sym (ap (λ e. e.occupancy) same_state) ∙ occ, h)
]
step_lem t occ h (leaves {e} some_left eq) =
    let same_state : record t.elevator { occupancy = dec t.elevator.occupancy } ≡ e = cc in
    (
      sym (ap (λ e. e.occupancy) same_state) ∙ left t.elevator.occupancy t.riders occ h some_left,
      omega arith,
    )
  where
    left : (o n : ℕ) → o ≡ int n → n ≤ 6 → 0 < n → dec o ≡ int (n - 1)
    left o n e g pos = omega (arith, e, g, pos)

-- In whatever order riders enter and leave, `occupancy` is the number of riders on board, and never more
-- than the capacity.
pub occupancy-bounded :
    {floors id : ℕ} {t : Trip}
    → Reach floors id t
    → (t.elevator.occupancy ≡ int t.riders) × (t.riders ≤ elevator_capacity)
unfolding new_elevator
occupancy-bounded start = (refl, omega arith)
occupancy-bounded (later {t} reach step) =
    let (occ, h) = occupancy-bounded reach in step_lem t occ h step
