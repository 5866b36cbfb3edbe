-- ===== src/Elevator/Control.antt =====
-- `Elevator::ElevatorControl` (threads/Elevator.cc) as a machine: a program point for each stretch between
-- two calls that look at the requests, open the doors or move. What a stretch sees of the requests,
-- which other threads change at any time, is an argument.
pub mod Range
pub mod Runs
pub mod Overshoot
use os_lab_nachos.Base.{
  ℕ, zero, suc, ◌+◌, Bool, true, false, ◌&&◌, ◌||◌, not, arith, ltb, ◌==◌, if◌then◌else◌,
}
use os_lab_nachos.Base.Int.{ℤ, pos, negsuc, minus_one}
use os_lab_nachos.Elevator.State.{ElevatorState, up, down, stop}
use os_lab_nachos.Elevator.Calls.{same_floor}

pub data Pc : Type 0 where
  -- the head of the loop, and the branch of a stopped elevator before and behind its wait
  look halted decide : Pc
  -- the inner loop: its test, its doors, its move, and the look that ends a round
  loop doors_loop visit_loop relook : Pc
  -- behind the inner loop
  arrived doors_turn turn_look visit_turn doors_on visit_on : Pc

-- The result of `GetLastRequestFloor`, and who waits at the current floor: in the direction of the
-- elevator, or to get out.
pub record Seen : Type 0 where
  pub last_request_floor : ℤ
  pub same_way : Bool
  pub gets_out : Bool

pub record Control : Type 0 where
  pub pc : Pc
  pub state : ElevatorState
  pub current_floor : ℤ
  pub dest_floor : ℤ
  pub no_requset_flag : Bool

-- `floor + 1` and `floor - 1`
abbrev pub above : ℤ → ℤ
above (pos i) = pos (i + 1)
above (negsuc zero) = pos 0
above (negsuc (suc i)) = negsuc i

abbrev pub below : ℤ → ℤ
below (pos zero) = negsuc 0
below (pos (suc i)) = pos i
below (negsuc i) = negsuc (i + 1)

abbrev pub is_greater : ℤ → ℤ → Bool
is_greater (pos a) (pos b) = ltb b a
is_greater (pos a) (negsuc b) = true
is_greater (negsuc a) (pos b) = false
is_greater (negsuc a) (negsuc b) = ltb a b

-- `floor == -1`
abbrev pub is_none : ℤ → Bool
is_none floor = same_floor floor minus_one

abbrev pub opposite : ElevatorState → ElevatorState
opposite up = down
opposite down = up
opposite stop = stop

-- the floor that `VisitFloor` is called with
abbrev pub next_floor : ElevatorState → ℤ → ℤ
next_floor up floor = above floor
next_floor down floor = below floor
next_floor stop floor = floor

-- what follows the head of the loop
abbrev pub branch : ElevatorState → Pc
branch stop = halted
branch _ = loop

unfoldable pub step : Seen → Control → Control
step seen c = elim c.pc [
  | look ↦ record c { pc = branch c.state; dest_floor = seen.last_request_floor }
  | halted ↦ record c { pc = decide }
  | decide ↦ record c {
    pc = look;
    dest_floor = seen.last_request_floor;
    state = if is_greater seen.last_request_floor c.current_floor then up else down;
  }
  | loop ↦
      if not (same_floor c.current_floor c.dest_floor) && not (is_none c.dest_floor)
      then record c {
        pc = if seen.same_way || seen.gets_out then doors_loop else visit_loop;
        no_requset_flag = false;
      }
      else record c { pc = arrived }
  | doors_loop ↦ record c { pc = visit_loop }
  | visit_loop ↦ record c { pc = relook; current_floor = next_floor c.state c.current_floor }
  | relook ↦ record c { pc = loop; dest_floor = seen.last_request_floor }
  | arrived ↦
      if is_none c.dest_floor
      then (if c.no_requset_flag
          then record c { pc = look; state = stop }
          else record c { pc = look; state = opposite c.state; no_requset_flag = true })
      else (if not seen.same_way
          then record c { pc = doors_turn; state = opposite c.state }
          else record c { pc = doors_on })
  | doors_turn ↦ record c { pc = turn_look }
  | turn_look ↦
      if is_none seen.last_request_floor
      then record c { pc = look; state = stop; dest_floor = seen.last_request_floor }
      else record c { pc = visit_turn; dest_floor = seen.last_request_floor }
  | visit_turn ↦ record c { pc = look; current_floor = next_floor c.state c.current_floor }
  | doors_on ↦ record c { pc = visit_on }
  | visit_on ↦ record c { pc = look; current_floor = next_floor c.state c.current_floor }
]

-- `bool no_requset_flag = false` at the head of `ElevatorControl` on a new elevator
abbrev pub begin : Control
begin = record {
  pc = look;
  state = stop;
  current_floor = pos 0;
  dest_floor = minus_one;
  no_requset_flag = false;
}
