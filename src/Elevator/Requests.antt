-- ===== src/Elevator/Requests.antt =====
-- `Elevator::GetLastRequestFloor` (threads/Elevator.cc): the floor at which an elevator turns.
pub mod Farthest
pub mod Turning
use os_lab_nachos.Base.{
  ℕ, zero, suc, ◌+◌, ◌-◌, Bool, true, false, Option, none, some, List, arith, not, ◌==◌,
}
use os_lab_nachos.Base.Exec.{Cmd, ok, fault, out_of_bounds, lift, lifted, ◌>>=◌, ◌>>◌}
use os_lab_nachos.Base.Int.{ℤ, pos, negsuc, minus_one, int}
use os_lab_nachos.Monitor.{Lock, acquire, release}
use os_lab_nachos.Barrier.{EventBarrier, waiters}
use os_lab_nachos.Elevator.State.{
  ElevatorState, up, down, stop, Elevator, Building, at, on_elevator,
}

-- `barrier->Waiters() != 0`
unfoldable pub busy : EventBarrier → Bool
unfolding waiters
busy b = not (waiters b == int 0)

-- `||` on reads of arrays, where `none` is a read out of bounds
abbrev pub either : Option Bool → Option Bool → Option Bool
either none y = none
either (some true) y = some true
either (some false) y = y

abbrev pub busy_at : List EventBarrier → ℤ → Option Bool
busy_at l i = elim (at l i) [ none ↦ none | some b ↦ some (busy b) ]

-- whether one of three barriers of a floor is waited on
unfoldable pub requested : (first second third : List EventBarrier) → ℤ → Option Bool
requested first second third i =
    either (busy_at first i) (either (busy_at second i) (busy_at third i))

-- `for (int i = from; i < from + rounds; i++)`, up to the first floor that passes the test
unfoldable pub scan_up : (ℤ → Option Bool) → (from rounds : ℕ) → Option ℤ
scan_up test i zero = some minus_one
scan_up test i (suc n) = elim (test (pos i)) [
  | none ↦ none
  | some true ↦ some (pos i)
  | some false ↦ scan_up test (i + 1) n
]

-- `for (int i = to + rounds - 1; i >= to; i--)`
unfoldable pub scan_down : (ℤ → Option Bool) → (to rounds : ℕ) → Option ℤ
scan_down test i zero = some minus_one
scan_down test i (suc n) = elim (test (pos (i + n))) [
  | none ↦ none
  | some true ↦ some (pos (i + n))
  | some false ↦ scan_down test i n
]

-- The loop of the state UP goes on below floor 0 when the current floor lies there.
abbrev pub below_zero : Option ℤ → Option ℤ
below_zero none = none
below_zero (some (pos i)) = some (pos i)
below_zero (some (negsuc i)) = none

-- The loop that the state selects, with `numFloors` and `currentfloor`.
unfoldable pub last_request :
    ElevatorState → ℕ → ℤ → (up_b out_b down_b : List EventBarrier) → Option ℤ
unfolding scan_up scan_down requested
last_request stop floors current up_b out_b down_b = scan_up (requested up_b out_b down_b) 0 floors
last_request up floors (pos c) up_b out_b down_b =
    scan_down (requested down_b out_b up_b) c (floors - c)
last_request up floors (negsuc c) up_b out_b down_b =
    below_zero (scan_down (requested down_b out_b up_b) 0 floors)
last_request down floors (pos c) up_b out_b down_b = scan_up (requested down_b out_b up_b) 0 (c + 1)
last_request down floors (negsuc c) up_b out_b down_b = some minus_one

abbrev pub read_ok : {S A : Type 0} → Option A → Cmd S A
read_ok none s = fault out_of_bounds s
read_ok (some a) s = ok a s

abbrev pub locking : Cmd Lock (Unit {0}) → Cmd Elevator (Unit {0})
locking = lift (λ e. e.elevator_lock) (λ l e. record e { elevator_lock = l })

module _ (me : ℕ) where
  -- `GetLastRequestFloor` on the elevator, with the barriers of the building
  unfoldable pub get_last_request_floor_of : (up_b down_b : List EventBarrier) → Cmd Elevator ℤ
  unfolding acquire release last_request
  get_last_request_floor_of up_b down_b = do
    locking (acquire me)
    floor ←
        λ e. read_ok (last_request e.state e.num_floors e.current_floor up_b e.out_barrier down_b) e
    locking (release me)
    λ e. ok floor e

  -- `Elevator::GetLastRequestFloor`
  unfoldable pub get_last_request_floor : ℕ → Cmd Building ℤ
  unfolding get_last_request_floor_of
  get_last_request_floor id b =
      on_elevator id (get_last_request_floor_of b.up_barrier b.down_barrier) b
