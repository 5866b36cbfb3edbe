-- ===== src/Elevator/Trip/Fleet.antt =====
-- Many riders (the function `rider` of threads/Elevator.cc) and the elevators that admit them, the calls of all
-- riders in any order, and anything that the elevators do meanwhile to what riders do not count.
use os_lab_nachos.Base.{
  ℕ, zero, suc, ◌≡◌, ◌≢◌, ◌+◌, ◌-◌, ◌≤◌, ◌<◌, refl, ap, sym, ◌∙◌, inl, inr, Bool, true, false,
  Bool-cases, Option, none, some, arith, ◌==◌, ==_iff,
}
use os_lab_nachos.Base.Exec.{Result, ok, asleep, fault, out_of_bounds, lifted}
use os_lab_nachos.Barrier.{EventBarrier, complete}
use os_lab_nachos.Base.Int.{int, dec}
use os_lab_nachos.Elevator.State.{Elevator, new_elevator, at, set_at}
use os_lab_nachos.Elevator.Riders.{take_place, exit_counted, elevator_capacity}
use os_lab_nachos.Elevator.Riders.Occupancy.{Trip, boards, is_refused, leaves, step_lem}
use os_lab_nachos.Elevator.Trip.{
  Stage, calling, awaiting, done, entering, requesting, exiting, start, advance,
}
use os_lab_nachos.Elevator.Trip.Count.{
  update, inside, one_if, on_board, update_self, update_ne, on_board-update, self_test, other_test,
  starts_outside,
}

pub record Fleet : Type 0 where
  pub elevators : ℕ → Elevator
  pub stage : ℕ → Stage

-- What a call leaves, whether it returns or goes to sleep.
abbrev pub Leaves : Result Elevator (Unit {0}) → Elevator → Type 0
Leaves (ok a e') e = e ≡ e'
Leaves (asleep e') e = e ≡ e'
Leaves (fault f e') e = ⊥

-- What a rider's call does to the elevators, and whether `Enter` admits the rider.
pub data Serves (es : ℕ → Elevator) : Stage → Bool → (ℕ → Elevator) → Type 0 where
  calls : {b : Bool} → Serves es calling b es
  awaits : {b : Bool} → Serves es awaiting b es
  requests : {f : ℕ} {b : Bool} → Serves es (requesting f) b es
  rests : {b : Bool} → Serves es done b es
  enters :
      {f : ℕ} {b : Bool} {e : Elevator}
      → take_place (es f) ≡ ok b e
      → Serves es (entering f) b (update es f e)
  exits :
      (me : ℕ) {f : ℕ} {b : Bool} (e : Elevator)
      → Leaves (exit_counted me (es f)) e
      → Serves es (exiting f) b (update es f e)

module _ (riders : ℕ) (src dst : ℕ → ℕ) where
  pub data Step (s : Fleet) : Fleet → Type 0 where
    moves :
        (i arrived : ℕ) {b : Bool} {es : ℕ → Elevator}
        → i < riders
        → Serves s.elevators (s.stage i) b es
        → Step s (record {
          elevators = es;
          stage = update s.stage i (advance (src i) (dst i) arrived b (s.stage i)).1;
        })
    elsewhere :
        {es : ℕ → Elevator}
        → ((f : ℕ) → (es f).occupancy ≡ (s.elevators f).occupancy)
        → Step s (record s { elevators = es })

  pub data Reach (floors : ℕ) : Fleet → Type 0 where
    begin :
        Reach floors
          (record { elevators = λ f. new_elevator floors f; stage = λ i. start (src i) (dst i) })
    later : {s s' : Fleet} → Reach floors s → Step s s' → Reach floors s'

  -- Each elevator counts the riders that it holds.
  abbrev pub Counted : Fleet → Type 0
  Counted s =
      (e : ℕ)
      → ((s.elevators e).occupancy ≡ int (on_board e s.stage riders))
        × (on_board e s.stage riders ≤ elevator_capacity)

-- `Exit` counts one rider off, and nothing that follows counts again.
exit-counts :
    (me : ℕ) (e e' : Elevator) → Leaves (exit_counted me e) e' → e'.occupancy ≡ dec e.occupancy
unfolding exit_counted
exit-counts me e e' left = by_cell (at e.out_barrier e.current_floor) left
  where
    counted : Elevator
    counted = record e { occupancy = dec e.occupancy }

    by_result :
        (r : Result EventBarrier (Unit {0}))
        → Leaves
            (lifted
              (λ c. record counted { out_barrier = set_at e.out_barrier e.current_floor c })
              r)
            e'
        → e'.occupancy ≡ dec e.occupancy
    by_result (ok a c) h = ap (λ (e : Elevator). e.occupancy) h
    by_result (asleep c) h = ap (λ (e : Elevator). e.occupancy) h
    by_result (fault f c) h = absurd h

    by_cell :
        (o : Option EventBarrier)
        → Leaves
            (elim o [
              | none ↦ fault out_of_bounds counted
              | some a ↦
                  lifted
                    (λ c. record counted { out_barrier = set_at e.out_barrier e.current_floor c })
                    (complete me a)
            ])
            e'
        → e'.occupancy ≡ dec e.occupancy
    by_cell none h = absurd h
    by_cell (some a) h = by_result (complete me a) h

module _ (riders : ℕ) (src dst : ℕ → ℕ) (s : Fleet) (c : Counted riders src dst s) (i : ℕ)
    (low : i < riders) where
  abbrev moved : Stage → ℕ → Stage
  moved q = update s.stage i q

  unchanged :
      (e : ℕ) (q q' : Stage)
      → s.stage i ≡ q
      → inside e q ≡ inside e q'
      → on_board e (moved q') riders ≡ on_board e s.stage riders
  unchanged e q q' at_stage same =
      let change = on_board-update e s.stage i q' riders low in
      let before : one_if (inside e (s.stage i)) ≡ one_if (inside e q') =
        ap (λ r. one_if (inside e r)) at_stage ∙ ap one_if same in
      omega (arith, change, before)

  -- A call that changes no elevator and moves no rider in or out.
  keeps :
      (q q' : Stage)
      → s.stage i ≡ q
      → ((e : ℕ) → inside e q ≡ inside e q')
      → Counted riders src dst (record s { stage = moved q' })
  keeps q q' at_stage same e = rw (unchanged e q q' at_stage (same e)) (c e)

  -- A call of one elevator.
  serves :
      (f : ℕ) (q q' : Stage) (e' : Elevator)
      → s.stage i ≡ q
      → ((e : ℕ) → e ≢ f → inside e q ≡ inside e q')
      → (e'.occupancy ≡ int (on_board f (moved q') riders))
        × (on_board f (moved q') riders ≤ elevator_capacity)
      → Counted riders src dst (record { elevators = update s.elevators f e'; stage = moved q' })
  serves f q q' e' at_stage same counted e = elim (Bool-cases (e == f)) [
    | inl t ↦ let here : e ≡ f = (==_iff e f).0 t in rw (here, update_self s.elevators f e') counted
    | inr n ↦
        let apart : e ≢ f = (λ h. differ e f n h) in
        rw (update_ne s.elevators f e e' apart, unchanged e q q' at_stage (same e apart)) (c e)
  ]
    where
      differ : (e f : ℕ) → (e == f) ≡ false → e ≢ f
      differ e f n h = ground arith

  abbrev trip : ℕ → Trip
  trip f = record { elevator = s.elevators f; riders = on_board f s.stage riders }

  move-Counted :
      (arrived : ℕ) {b : Bool} (q : Stage) {es : ℕ → Elevator}
      → s.stage i ≡ q
      → Serves s.elevators q b es
      → Counted riders src dst
          (record { elevators = es; stage = moved (advance (src i) (dst i) arrived b q).1 })
  unfolding advance
  move-Counted arrived q at_stage calls = keeps calling awaiting at_stage (λ e. refl)
  move-Counted arrived q at_stage awaits = keeps awaiting (entering arrived) at_stage (λ e. refl)
  move-Counted arrived q at_stage (requests {f}) =
      keeps (requesting f) (exiting f) at_stage (λ e. refl)
  move-Counted arrived q at_stage rests = keeps done done at_stage (λ e. refl)
  move-Counted arrived q at_stage (enters {f} {b = true} {e} eq) =
      let change = on_board-update f s.stage i (requesting f) riders low in
      let before : one_if (inside f (s.stage i)) ≡ 0 = ap (λ r. one_if (inside f r)) at_stage in
      let one : one_if (f == f) ≡ 1 = ap one_if (self_test f) in
      let more : on_board f (moved (requesting f)) riders ≡ on_board f s.stage riders + 1 =
        omega (arith, change, before, one) in
      serves f (entering f) (requesting f) e at_stage (λ e h. sym (other_test e f h))
        (rw more (step_lem (trip f) (c f).0 (c f).1 (boards eq)))
  move-Counted arrived q at_stage (enters {f} {b = false} {e} eq) =
      serves f (entering f) calling e at_stage (λ e h. refl)
        (rw (unchanged f (entering f) calling at_stage refl)
          (step_lem (trip f) (c f).0 (c f).1 (is_refused eq)))
  move-Counted arrived q at_stage (exits me {f} e left) =
      let change = on_board-update f s.stage i done riders low in
      let before : one_if (inside f (s.stage i)) ≡ 1 =
        ap (λ r. one_if (inside f r)) at_stage ∙ ap one_if (self_test f) in
      let less : on_board f (moved done) riders ≡ on_board f s.stage riders - 1 =
        omega (arith, change, before) in
      let some_left : 0 < on_board f s.stage riders = omega (arith, change, before) in
      serves f (exiting f) done e at_stage (λ e h. other_test e f h)
        (rw (less, exit-counts me (s.elevators f) e left)
          (step_lem (trip f) (c f).0 (c f).1 (leaves some_left refl)))

module _ (riders : ℕ) (src dst : ℕ → ℕ) where
  step-Counted :
      {s s' : Fleet}
      → Counted riders src dst s
      → Step riders src dst s s'
      → Counted riders src dst s'
  step-Counted {s} c (moves i arrived low served) =
      move-Counted riders src dst s c i low arrived (s.stage i) refl served
  step-Counted c (elsewhere same) = λ e. (same e ∙ (c e).0, (c e).1)

  none_on_board : (e n : ℕ) → on_board e (λ i. start (src i) (dst i)) n ≡ 0
  none_on_board e zero = refl
  none_on_board e (suc n) =
      omega (arith, none_on_board e n, ap one_if (starts_outside e (src n) (dst n)))

  -- However the calls of all riders are interleaved, and whatever the elevators do meanwhile that leaves
  -- `occupancy` alone, each elevator's `occupancy` is the number of riders whom `Enter` has let in and who
  -- have not yet passed the pause of `Exit`, where they are counted off; and it is never more than the
  -- capacity.
  pub reach-Counted :
      {floors : ℕ} {s : Fleet} → Reach riders src dst floors s → Counted riders src dst s
  unfolding new_elevator
  reach-Counted begin =
      λ e. let none_in = none_on_board e riders in (ap int (sym none_in), omega (arith, none_in))
  reach-Counted (later before step) = step-Counted (reach-Counted before) step
