-- ===== src/Elevator/State.antt =====
-- The fields of class Elevator and class Building (threads/Elevator.h), and access to the arrays.
use os_lab_nachos.Base.{
  ℕ, ◌≡◌, refl, zero, suc, ◌+◌, [], ◌∷◌, Bool, false, Option, none, some, List, get_elem?, set,
  replicate,
}
use os_lab_nachos.Base.Exec.{Cmd, fault, out_of_bounds, lifted}
use os_lab_nachos.Base.Int.{ℤ, pos, negsuc, int}
use os_lab_nachos.Monitor.{Lock, Condition}
use os_lab_nachos.Barrier.{EventBarrier, no_one, init as init_barrier}

pub data ElevatorState : Type 0 where
  up down stop : ElevatorState

pub record Elevator : Type 0 where
  pub elevator_id : ℕ
  pub num_floors : ℕ
  pub current_floor : ℤ
  pub occupancy : ℕ
  pub state : ElevatorState
  pub out_barrier : List EventBarrier
  pub elevator_lock : Lock
  pub have_request : Condition
  pub can_enter : Bool
  pub elevator_not_full : Condition

pub record Building : Type 0 where
  pub elevator : List Elevator
  pub up_barrier : List EventBarrier
  pub down_barrier : List EventBarrier
  pub num_floors : ℕ
  pub num_elevators : ℕ
  pub building_lock : Lock

-- `Elevator::Elevator`
unfoldable pub new_elevator : (num_floors id : ℕ) → Elevator
new_elevator floors id = record {
  elevator_id = id;
  num_floors = floors;
  current_floor = pos 0;
  occupancy = int 0;
  state = stop;
  out_barrier = replicate floors init_barrier;
  elevator_lock = none;
  have_request = no_one;
  can_enter = false;
  elevator_not_full = no_one;
}

-- `for (int i = 0; i < numelevators; i++) elevator[i] = new Elevator("elevator", numfloors, i)`
unfoldable pub new_elevators : (num_floors first count : ℕ) → List Elevator
new_elevators floors i zero = []
new_elevators floors i (suc n) = new_elevator floors i ∷ new_elevators floors (i + 1) n

-- `Building::Building`
unfoldable pub new_building : (num_floors num_elevators : ℕ) → Building
new_building floors elevators = record {
  elevator = new_elevators floors 0 elevators;
  up_barrier = replicate floors init_barrier;
  down_barrier = replicate floors init_barrier;
  num_floors = floors;
  num_elevators = elevators;
  building_lock = none;
}

-- an array read at an int
abbrev pub at : {A : Type 0} → List A → ℤ → Option A
at l (pos i) = get_elem? l i
at l (negsuc i) = none

abbrev pub set_at : {A : Type 0} → List A → ℤ → A → List A
set_at l (pos i) a = set l i a
set_at l (negsuc i) a = l

-- a command on one cell of an array in the object
abbrev pub cell : {S A X : Type 0} → (S → List A) → (List A → S → S) → ℤ → Cmd A X → Cmd S X
cell get put i m s = elim (at (get s) i) [
  | none ↦ fault out_of_bounds s
  | some a ↦ lifted (λ a'. put (set_at (get s) i a') s) (m a)
]

-- the commands on a part of the building
abbrev pub on_elevator : {X : Type 0} → ℕ → Cmd Elevator X → Cmd Building X
on_elevator id = cell (λ b. b.elevator) (λ l b. record b { elevator = l }) (pos id)

abbrev pub on_up : ℤ → Cmd EventBarrier (Unit {0}) → Cmd Building (Unit {0})
on_up = cell (λ b. b.up_barrier) (λ l b. record b { up_barrier = l })

abbrev pub on_down : ℤ → Cmd EventBarrier (Unit {0}) → Cmd Building (Unit {0})
on_down = cell (λ b. b.down_barrier) (λ l b. record b { down_barrier = l })

abbrev pub on_out : ℤ → Cmd EventBarrier (Unit {0}) → Cmd Elevator (Unit {0})
on_out = cell (λ e. e.out_barrier) (λ l e. record e { out_barrier = l })

pub on_elevator_lem :
    {X : Type 0} (id : ℕ) (c : Cmd Elevator X) (b : Building) (e : Elevator)
    → get_elem? b.elevator id ≡ some e
    → on_elevator id c b ≡ lifted (λ e'. record b { elevator = set b.elevator id e' }) (c e)
on_elevator_lem id c b e h = rw (cell, at, h) refl
