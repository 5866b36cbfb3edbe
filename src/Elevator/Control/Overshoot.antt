-- ===== src/Elevator/Control/Overshoot.antt =====
-- A run of `ElevatorControl` (threads/Elevator.cc) that leaves the building.
use mathlib.Core.Path.{subst}
use os_lab_nachos.Base.{
  ℕ, zero, suc, ◌≡◌, ◌+◌, ◌≤◌, ◌<◌, refl, inr, inl, Bool, true, false, ◌&&◌, not, arith, ltb,
}
use os_lab_nachos.Base.Int.{ℤ, pos, minus_one}
use os_lab_nachos.Elevator.State.{ElevatorState, up, down, stop}
use os_lab_nachos.Elevator.Calls.{same_floor}
use os_lab_nachos.Elevator.Control.{
  Pc, Seen, Control, look, halted, decide, loop, visit_loop, relook, arrived, doors_turn, turn_look,
  visit_turn, step, begin, is_none,
}
use os_lab_nachos.Elevator.Control.Range.{Within, AtEnd, at_floor}

-- Requests at floors that the elevator looks at, and nobody who waits to go on beyond the last floor.
abbrev pub Possible : ℕ → ℕ → ElevatorState → Seen → Type 0
Possible n i st seen =
    Within st n i seen.last_request_floor × (AtEnd st n i → seen.same_way ≡ false)

-- The runs in a building of `n` floors on any such requests.
pub data FreeReach (n : ℕ) : Control → Type 0 where
  start : FreeReach n begin
  later :
      {c : Control} (i : ℕ) (seen : Seen)
      → FreeReach n c
      → c.current_floor ≡ pos i
      → Possible n i c.state seen
      → FreeReach n (step seen c)

module _ (t : ℕ) (positive : 0 < t) where
  -- a request at the top floor `t`, taken back or served before the elevator comes to it
  abbrev top : Seen
  top = record { last_request_floor = pos t; same_way = false; gets_out = false }

  abbrev nothing : Seen
  nothing = record { last_request_floor = minus_one; same_way = false; gets_out = false }

  top-Possible :
      (st : ElevatorState) (i : ℕ) → i ≤ t → (st ≡ down → t ≤ i) → Possible (t + 1) i st top
  top-Possible stop i h g = (inr (t, refl, omega arith, omega arith), λ e. refl)
  top-Possible up i h g = (inr (t, refl, omega arith, omega arith), λ e. refl)
  top-Possible down i h g = (inr (t, refl, omega arith, omega (arith, g refl)), λ e. refl)

  nothing-Possible : (st : ElevatorState) (i : ℕ) → Possible (t + 1) i st nothing
  nothing-Possible stop i = (inl refl, λ e. refl)
  nothing-Possible up i = (inl refl, λ e. refl)
  nothing-Possible down i = (inl refl, λ e. refl)

  -- one step, and the control that it leads to
  goes :
      (pc : Pc) (st : ElevatorState) (i : ℕ) (d : ℤ) (flag : Bool) (seen : Seen) {c : Control}
      → Possible (t + 1) i st seen
      → step seen (at_floor pc st i d flag) ≡ c
      → FreeReach (t + 1) (at_floor pc st i d flag)
      → FreeReach (t + 1) c
  goes pc st i d flag seen ok_seen e before =
      subst (FreeReach (t + 1)) e (later i seen before refl ok_seen)

  same : same_floor (pos t) (pos t) ≡ true
  same = ground arith

  wanted : is_none (pos t) ≡ false
  wanted = ground arith

  ahead : (i : ℕ) → i < t → (not (same_floor (pos i) (pos t)) && not (is_none (pos t))) ≡ true
  ahead i h = ground arith

  -- From below the top floor the elevator climbs to it.
  climb :
      (k i : ℕ)
      → i + k ≡ t
      → FreeReach (t + 1) (at_floor loop up i (pos t) false)
      → FreeReach (t + 1) (at_floor loop up t (pos t) false)
  unfolding step
  climb zero i e before =
      let here : i ≡ t = omega arith in
      subst (λ (i : ℕ). FreeReach (t + 1) (at_floor loop up i (pos t) false)) here before
  climb (suc k) i e before =
      let ok_here = top-Possible up i (omega arith) (λ h. absurd cc) in
      let ok_above = top-Possible up (i + 1) (omega arith) (λ h. absurd cc) in
      climb k (i + 1) (omega arith) (
        goes relook up (i + 1) (pos t) false top ok_above refl (
          goes visit_loop up i (pos t) false top ok_here refl
            (goes loop up i (pos t) false top ok_here (rw (ahead i (omega arith)) refl) before)))

  -- An elevator in the loop at the top turns there.
  turns :
      (st st' : ElevatorState) (next : Seen) {c : Control}
      → Possible (t + 1) t st top
      → Possible (t + 1) t st' top
      → Possible (t + 1) t st' next
      → step top (at_floor arrived st t (pos t) false) ≡ at_floor doors_turn st' t (pos t) false
      → step next (at_floor turn_look st' t (pos t) false) ≡ c
      → FreeReach (t + 1) (at_floor loop st t (pos t) false)
      → FreeReach (t + 1) c
  unfolding step
  turns st st' next before after last turned found reach =
      goes turn_look st' t (pos t) false next last found (
        goes doors_turn st' t (pos t) false top after refl (
          goes arrived st t (pos t) false top before turned
            (goes loop st t (pos t) false top before (rw same refl) reach)))

  ok_down : Possible (t + 1) t down top
  ok_down = top-Possible down t (omega arith) (λ h. omega arith)

  ok_up : Possible (t + 1) t up top
  ok_up = top-Possible up t (omega arith) (λ h. omega arith)

  ok_stop : (i : ℕ) → i ≤ t → Possible (t + 1) i stop top
  ok_stop i h = top-Possible stop i h (λ h. absurd cc)

  no_higher : ltb t t ≡ false
  no_higher = ground arith

  higher : ltb 0 t ≡ true
  higher = ground arith

  -- From its start, the elevator goes up to the top floor and stops there.
  stops_at_top : FreeReach (t + 1) (at_floor look stop t minus_one false)
  unfolding step
  stops_at_top =
      turns up down nothing ok_up ok_down (nothing-Possible down t) (rw wanted refl) refl (
        climb t 0 (omega arith) (
          goes look up 0 (pos t) false top (top-Possible up 0 (omega arith) (λ h. absurd cc)) refl (
            goes decide stop 0 (pos t) false top (ok_stop 0 (omega arith)) (rw higher refl) (
              goes halted stop 0 (pos t) false top (ok_stop 0 (omega arith)) refl
                (goes look stop 0 minus_one false top (ok_stop 0 (omega arith)) refl start)))))

  -- A stopped elevator at the top takes a request there for one on its way down, and turns upwards.
  leaves_top :
      FreeReach (t + 1) (at_floor look stop t minus_one false)
      → FreeReach (t + 1) (at_floor look up (t + 1) (pos t) false)
  unfolding step
  leaves_top before = goes visit_turn up t (pos t) false top ok_up refl (
      turns down up top ok_down ok_up ok_up (rw wanted refl) (rw wanted refl) (
        goes look down t (pos t) false top ok_down refl (
          goes decide stop t (pos t) false top (ok_stop t (omega arith)) (rw no_higher refl) (
            goes halted stop t (pos t) false top (ok_stop t (omega arith)) refl
              (goes look stop t minus_one false top (ok_stop t (omega arith)) refl before)))))

-- In every building of at least two floors there is a run of `ElevatorControl` from its start to a
-- floor that the building does not have, the one of its number of floors: on requests at its floors alone,
-- and with nobody who waits to go up at the top or down at the bottom.
pub leaves_building : (n : ℕ) → 1 < n → (c : Control) × FreeReach n c × (c.current_floor ≡ pos n)
leaves_building zero h = absurd (omega arith)
leaves_building (suc t) h =
    let one_more : t + 1 ≡ suc t = omega arith in
    (
      at_floor look up (suc t) (pos t) false,
      subst (λ (n : ℕ). FreeReach n (at_floor look up n (pos t) false)) one_more
          (leaves_top t (omega arith) (stops_at_top t (omega arith))),
      refl,
    )
