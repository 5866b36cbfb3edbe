-- ===== src/Elevator/Drive.antt =====
-- `Elevator::ElevatorControl` (threads/Elevator.cc) on the elevator itself: the stretches of the machine of
-- Control.antt between its calls of `OpenDoors`, `CloseDoors` and `VisitFloor`, with the reads of barriers and
-- the calls of `GetLastRequestFloor` and `HaveRequest->Wait` that they make. The barriers of the building
-- are arguments of each stretch, since other threads change them between two.
pub mod View
pub mod Refine
mod Tests
use os_lab_nachos.Base.{
  Option, none, some, Bool, true, false, ◌&&◌, not, List, arith, if◌then◌else◌, ℕ,
}
use os_lab_nachos.Base.Exec.{Cmd, ok, asleep, pure, lift, ◌>>=◌, ◌>>◌}
use os_lab_nachos.Base.Int.{ℤ}
use os_lab_nachos.Monitor.{Condition, acquire, release, assert_held, block, consume}
use os_lab_nachos.Barrier.{EventBarrier}
use os_lab_nachos.Elevator.State.{ElevatorState, up, down, stop, Elevator}
use os_lab_nachos.Elevator.Requests.{busy_at, either, read_ok, locking, get_last_request_floor_of}
use os_lab_nachos.Elevator.Calls.{same_floor}
use os_lab_nachos.Elevator.Control.{
  Pc, look, halted, decide, loop, doors_loop, visit_loop, relook, arrived, doors_turn, turn_look,
  visit_turn, doors_on, visit_on, is_greater, is_none, opposite, branch,
}

-- the place in the code, and its local variables
pub record Locals : Type 0 where
  pub pc : Pc
  pub dest_floor : ℤ
  pub no_requset_flag : Bool

abbrev pub on_have_request : Cmd Condition (Unit {0}) → Cmd Elevator (Unit {0})
on_have_request = lift (λ e. e.have_request) (λ c e. record e { have_request = c })

abbrev pub set_state : ElevatorState → Cmd Elevator (Unit {0})
set_state s e = ok tt (record e { state = s })

-- `floor > currentfloor` and then `state = UP`, or else `state = DOWN`
abbrev pub choose_way : ℤ → Cmd Elevator (Unit {0})
choose_way floor e =
    ok tt (record e { state = if is_greater floor e.current_floor then up else down })

-- The barriers of the building for the way of the elevator.
abbrev pub way_of : ElevatorState → (up_b down_b : List EventBarrier) → List EventBarrier
way_of up u d = u
way_of _ u d = d

-- whether somebody waits at the current floor in the direction of the elevator
abbrev pub same_way : (up_b down_b : List EventBarrier) → Cmd Elevator Bool
same_way u d e = read_ok (busy_at (way_of e.state u d) e.current_floor) e

-- whether somebody waits there in that direction, or to get out
abbrev pub wanted_here : (up_b down_b : List EventBarrier) → Cmd Elevator Bool
wanted_here u d e =
    read_ok
      (either (busy_at (way_of e.state u d) e.current_floor)
        (busy_at e.out_barrier e.current_floor))
      e

module _ (me : ℕ) where
  -- the stopped elevator, which waits for a request if it has none
  unfoldable pub halt : Locals → Cmd Elevator Locals
  unfolding acquire release assert_held block
  halt c = do
    locking (acquire me)
    (if is_none c.dest_floor
        then (do
          locking (assert_held me)
          on_have_request (λ d. ok tt (block d))
          locking (release me)
          asleep)
        else (do locking (release me); pure (record c { pc = decide })))

  -- the stopped elevator behind its wait
  unfoldable pub halt_woken : Locals → Cmd Elevator Locals
  unfolding acquire release consume
  halt_woken c = do
    on_have_request consume
    locking (acquire me)
    locking (release me)
    pure (record c { pc = decide })

  module _ (up_b down_b : List EventBarrier) where
    abbrev pub find_floor : Cmd Elevator ℤ
    unfolding get_last_request_floor_of
    find_floor = get_last_request_floor_of me up_b down_b

    -- what follows the inner loop
    abbrev pub behind_loop : Locals → Cmd Elevator Locals
    behind_loop c e =
        if is_none c.dest_floor
        then (if c.no_requset_flag
            then ok (record c { pc = look }) (record e { state = stop })
            else ok (record c { pc = look; no_requset_flag = true })
                (record e { state = opposite e.state }))
        else (do
          waits ← same_way up_b down_b
          (if waits
              then pure (record c { pc = doors_on })
              else (do (λ e. set_state (opposite e.state) e); pure (record c { pc = doors_turn }))))
            e

    -- What the code does at a place up to the next one; `none` where it calls `OpenDoors` and
    -- `CloseDoors`, or `VisitFloor`, which are in Doors.antt.
    unfoldable pub stretch : Locals → Option (Cmd Elevator Locals)
    unfolding get_last_request_floor_of halt
    stretch c = elim c.pc [
      | look ↦
          some (do
            floor ← find_floor
            λ e. ok (record c { pc = branch e.state; dest_floor = floor }) e)
      | halted ↦ some (halt c)
      | decide ↦ some (do
        floor ← find_floor
        choose_way floor
        pure (record c { pc = look; dest_floor = floor }))
      | loop ↦ some (λ e.
          (if not (same_floor e.current_floor c.dest_floor) && not (is_none c.dest_floor)
              then (do
                wanted ← wanted_here up_b down_b
                pure (record c {
                  pc = if wanted then doors_loop else visit_loop;
                  no_requset_flag = false;
                }))
              else pure (record c { pc = arrived }))
            e)
      | relook ↦ some (do floor ← find_floor; pure (record c { pc = loop; dest_floor = floor }))
      | arrived ↦ some (behind_loop c)
      | turn_look ↦ some (do
        floor ← find_floor
        (if is_none floor
            then (do set_state stop; pure (record c { pc = look; dest_floor = floor }))
            else pure (record c { pc = visit_turn; dest_floor = floor })))
      | doors_loop ↦ none
      | doors_turn ↦ none
      | doors_on ↦ none
      | visit_loop ↦ none
      | visit_turn ↦ none
      | visit_on ↦ none
    ]
