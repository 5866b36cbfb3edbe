-- ===== src/Elevator/Tests.antt =====
-- The elevators at concrete inputs.
use os_lab_nachos.Base.{
  ℕ, Bool, inr, ◌≡◌, ◌≤◌, refl, true, false, none, some, List, [], ◌∷◌, arith, set,
}
use os_lab_nachos.Base.Exec.{Returns, ok}
use os_lab_nachos.Base.Int.{pos, int}
use os_lab_nachos.Monitor.{broadcast}
use os_lab_nachos.Barrier.{EventBarrier, no_one, init as quiet}
use os_lab_nachos.Elevator.State.{up, stop, Elevator, Building, new_elevator}
use os_lab_nachos.Elevator.Requests.{get_last_request_floor_of, busy, last_request}
use os_lab_nachos.Elevator.Requests.Turning.{IsTurning, get_last_request_floor-IsTurning}
use os_lab_nachos.Elevator.Calls.{call_up, call_down, choose, is_up}
use os_lab_nachos.Elevator.Calls.Nearest.{Called, Boarded, call-Called, choose-Boarded}
use os_lab_nachos.Elevator.Riders.{take_place, elevator_capacity}
use os_lab_nachos.Elevator.Riders.Occupancy.{Reach, start, later, boards, leaves, occupancy-bounded}
use os_lab_nachos.Elevator.Control.{Control, Seen, step, relook}
use os_lab_nachos.Elevator.Control.Range.{NoneOrIn, InRange, at_floor}
use os_lab_nachos.Elevator.Control.Runs.{
  Reach as ControlReach, start as at_begin, later as goes_on, runs, control-InRange,
}
use os_lab_nachos.Elevator.Control.Overshoot.{FreeReach, leaves_building}
use os_lab_nachos.Elevator.Trip
use os_lab_nachos.Elevator.Trip.Fleet
use os_lab_nachos.Elevator.Trip.Count.{update}
use os_lab_nachos.Elevator.Trip.Fleet.{Counted, moves, calls, awaits, enters, reach-Counted}
use os_lab_nachos.Elevator.Trip.{Done, ride, rider-Done}
use os_lab_nachos.Elevator.Doors.{visit_floor}
use os_lab_nachos.Elevator.Doors.Visit.{visit_floor_lem}

abbrev waited_on : EventBarrier
waited_on = record quiet { waiternum = int 2; event = record { block_num = 2; wakeups = 0 } }

-- A lift of four floors at floor 1 on its way up, and another that has stopped at floor 0.
abbrev rising : Elevator
rising = record {
  elevator_id = 0;
  num_floors = 4;
  current_floor = pos 1;
  occupancy = int 1;
  state = up;
  out_barrier = quiet ∷ quiet ∷ waited_on ∷ quiet ∷ [];
  elevator_lock = none;
  have_request = no_one;
  can_enter = true;
  elevator_not_full = no_one;
}

abbrev standing : Elevator
standing = record rising { elevator_id = 1; current_floor = pos 0; state = stop; can_enter = false }

abbrev calm : List EventBarrier
calm = quiet ∷ quiet ∷ quiet ∷ quiet ∷ []

abbrev down_wanted : List EventBarrier
down_wanted = waited_on ∷ quiet ∷ quiet ∷ waited_on ∷ []

abbrev house : Building
house = record {
  elevator = rising ∷ standing ∷ [];
  up_barrier = calm;
  down_barrier = down_wanted;
  num_floors = 4;
  num_elevators = 2;
  building_lock = none;
}

turns_at_top : last_request up 4 (pos 1) calm rising.out_barrier down_wanted ≡ some (pos 3)
unfolding last_request busy quiet
turns_at_top = refl

get_last_request_floor-IsTurning_example :
    Returns
      (λ r e'. IsTurning up 4 1 calm rising.out_barrier down_wanted r × (e' ≡ rising))
      (get_last_request_floor_of 5 calm down_wanted rising)
get_last_request_floor-IsTurning_example =
    get_last_request_floor-IsTurning 5 1 calm down_wanted rising refl refl (omega arith) refl refl
      refl

call-Called_example :
    Returns (λ _ b'. Called (pos 3) house b') (call_up 5 (pos 3) house)
    × Returns (λ _ b'. Called (pos 3) house b') (call_down 5 (pos 3) house)
call-Called_example = call-Called (pos 3) 5 house refl

choose-Boarded_example :
    Returns
      (λ r b'. Boarded is_up (pos 1) house.elevator 0 r × (b' ≡ house))
      (choose 5 is_up (pos 1) house)
choose-Boarded_example = choose-Boarded is_up (pos 1) 5 house refl

-- Nobody can board at a floor where no elevator stands.
none_boards : choose 5 is_up (pos 2) house ≡ ok none house
unfolding choose
none_boards = refl

-- one rider in, and out again
one_trip : Reach 4 0 (record { elevator = new_elevator 4 0; riders = 0 })
unfolding take_place new_elevator
one_trip = later (later start (boards refl)) (leaves (omega arith) refl)

occupancy-bounded_run : ((new_elevator 4 0).occupancy ≡ int 0) × (0 ≤ elevator_capacity)
occupancy-bounded_run = occupancy-bounded one_trip

-- Floor 2 of four is wanted.
abbrev two_wanted : Seen
two_wanted = record { last_request_floor = pos 2; same_way = false; gets_out = false }

sees_two : NoneOrIn 0 4 (pos 2)
sees_two = inr (2, refl, omega arith, omega arith)

-- From its start, the elevator stops, chooses the way up, and comes to floor 1.
moved_up : ControlReach 4 (at_floor relook up 1 (pos 2) false)
unfolding step
moved_up =
    goes_on
      (goes_on
        (goes_on
          (goes_on
            (goes_on
              (goes_on at_begin (runs two_wanted 0 refl (sees_two, λ e. absurd e, λ e f. absurd f)))
              (runs two_wanted 0 refl (sees_two, λ e. absurd e, λ e f. absurd f)))
            (runs two_wanted 0 refl (sees_two, λ e. absurd e, λ e f. absurd f)))
          (runs two_wanted 0 refl (sees_two, λ e. refl, λ e f. absurd (omega arith))))
        (runs two_wanted 0 refl (sees_two, λ e. refl, λ e f. absurd (omega arith))))
      (runs two_wanted 0 refl (sees_two, λ e. refl, λ e f. absurd (omega arith)))

control-InRange_example : InRange 4 (at_floor relook up 1 (pos 2) false)
control-InRange_example =
    control-InRange 4 (at_floor relook up 1 (pos 2) false) (omega arith) moved_up

leaves_building_example : (c : Control) × FreeReach 4 c × (c.current_floor ≡ pos 4)
leaves_building_example = leaves_building 4 (omega arith)

wakes_the_refused :
    visit_floor 5 1 house
    ≡ ok tt (record house {
      elevator = set house.elevator 1 (record standing { elevator_not_full = broadcast no_one });
    })
wakes_the_refused = visit_floor_lem 5 1 house standing refl refl

-- a rider from floor 3 to floor 1 whom elevator 0 refuses and elevator 1 takes
abbrev answers : List (ℕ × Bool)
answers = (0, true) ∷ (0, true) ∷ (0, false) ∷ (1, true) ∷ (1, true) ∷ (1, true) ∷ []

rider-Done_example :
    Done 3 1 (ride 3 1 answers (Trip.start 3 1)).1 (ride 3 1 answers (Trip.start 3 1)).0
rider-Done_example = rider-Done 3 1 answers (omega arith)

rider_stage : (ride 3 1 answers (Trip.start 3 1)).1 ≡ Trip.requesting 1
unfolding ride Trip.start
rider_stage = refl

-- Rider 0 of one, from floor 0 to floor 2, calls, is met by elevator 1 and gets in.
abbrev new_fleet : ℕ → Elevator
new_fleet f = new_elevator 4 f

abbrev boarded : Elevator
boarded = record (new_elevator 4 1) { occupancy = int 1 }

abbrev rider_in : Fleet.Fleet
rider_in = record {
  elevators = update new_fleet 1 boarded;
  stage =
      update (update (update (λ _. Trip.start 0 2) 0 Trip.awaiting) 0 (Trip.entering 1)) 0
        (Trip.requesting 1);
}

rider_gets_in : Fleet.Reach 1 (λ _. 0) (λ _. 2) 4 rider_in
unfolding Trip.start Trip.advance take_place new_elevator
rider_gets_in =
    Fleet.later
      (Fleet.later (Fleet.later Fleet.begin (moves 0 1 {b = true} (omega arith) calls))
        (moves 0 1 {b = true} (omega arith) awaits))
      (moves 0 1 (omega arith) (enters refl))

reach-Counted_example : Counted 1 (λ _. 0) (λ _. 2) rider_in
reach-Counted_example = reach-Counted 1 (λ _. 0) (λ _. 2) rider_gets_in
