-- ===== src/Elevator/Drive/View.antt =====
-- What `Elevator::ElevatorControl` (threads/Elevator.cc) on the elevator has to do with the machine of
-- Control.antt.
use os_lab_nachos.Base.{Option, some, Bool, false, ℕ, ◌≡◌, ◌<◌, true, none, List, length, get_or}
use os_lab_nachos.Base.Exec.{Cmd, Result, ok, asleep, fault}
use os_lab_nachos.Base.Int.{ℤ, pos}
use os_lab_nachos.Monitor.{block}
use os_lab_nachos.Barrier.{EventBarrier, init}
use os_lab_nachos.Elevator.State.{Elevator}
use os_lab_nachos.Elevator.Requests.{busy}
use os_lab_nachos.Elevator.Requests.Turning.{IsTurning}
use os_lab_nachos.Elevator.Control.{
  doors_loop, doors_turn, doors_on, visit_loop, visit_turn, visit_on, Pc, Control, Seen, halted,
  is_none, step,
}
use os_lab_nachos.Elevator.Control.Range.{Within}
use os_lab_nachos.Elevator.Drive.{Locals, way_of}

abbrev pub locals : Pc → ℤ → Bool → Locals
locals pc d flag = record { pc = pc; dest_floor = d; no_requset_flag = flag }

-- the elevator as the machine sees it
abbrev pub view : Locals → Elevator → Control
view c e = record {
  pc = c.pc;
  state = e.state;
  current_floor = e.current_floor;
  dest_floor = c.dest_floor;
  no_requset_flag = c.no_requset_flag;
}

-- the parts of the machine's state in the local variables and in the elevator
abbrev pub locals_of : Control → Locals
locals_of c = record { pc = c.pc; dest_floor = c.dest_floor; no_requset_flag = c.no_requset_flag }

-- what `ElevatorControl` itself sets in the elevator
abbrev pub put : Control → Elevator → Elevator
put c e = record e { state = c.state }

-- The elevator stands at floor `i`, its lock is free, and each floor has its barriers.
pub record Placed (up_b down_b : List EventBarrier) (i : ℕ) (e : Elevator) : Type 0 where
  pub free : e.elevator_lock ≡ none
  pub here : e.current_floor ≡ pos i
  pub floor-InRange : i < e.num_floors
  pub ups : length up_b ≡ e.num_floors
  pub outs : length e.out_barrier ≡ e.num_floors
  pub downs : length down_b ≡ e.num_floors

-- What the elevator sees at floor `i`: the floor at which it turns, and who waits there.
abbrev pub SeenAt : (up_b down_b : List EventBarrier) → ℕ → Elevator → Seen → Type 0
SeenAt u d i e seen =
    IsTurning e.state e.num_floors i u e.out_barrier d seen.last_request_floor
    × Within e.state e.num_floors i seen.last_request_floor
    × (seen.same_way ≡ busy (get_or (way_of e.state u d) i init))
    × (seen.gets_out ≡ busy (get_or e.out_barrier i init))

-- The elevator goes to sleep counted as a waiter for a request, and leaves its lock free.
abbrev pub asleep_for_request : Elevator → Elevator
asleep_for_request e = record e { have_request = block e.have_request }

-- A stretch takes the step of the machine, or sleeps where a stopped elevator has no request.
abbrev pub Follows :
    (up_b down_b : List EventBarrier) → ℕ → Locals → Elevator → Result Elevator Locals → Type 0
Follows u d i c e (ok c' e') =
    (seen : Seen) × SeenAt u d i e seen
    × (c' ≡ locals_of (step seen (view c e)))
    × (e' ≡ put (step seen (view c e)) e)
Follows u d i c e (asleep e') =
    (c.pc ≡ halted) × (is_none c.dest_floor ≡ true) × (e' ≡ asleep_for_request e)
Follows u d i c e (fault f e') = ⊥

-- a call of `OpenDoors` and `CloseDoors`, or of `VisitFloor`
abbrev pub is_call : Pc → Bool
is_call doors_loop = true
is_call doors_turn = true
is_call doors_on = true
is_call visit_loop = true
is_call visit_turn = true
is_call visit_on = true
is_call _ = false

-- The place is such a call and the code does nothing else there, or what it does follows the machine.
abbrev pub FollowsAt :
    (up_b down_b : List EventBarrier)
    → ℕ
    → Locals
    → Elevator
    → Option (Cmd Elevator Locals)
    → Type 0
FollowsAt u d i c e none = is_call c.pc ≡ true
FollowsAt u d i c e (some m) = (is_call c.pc ≡ false) × Follows u d i c e (m e)
