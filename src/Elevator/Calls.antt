-- ===== src/Elevator/Calls.antt =====
-- `CallUp`, `CallDown`, `AwaitUp` and `AwaitDown` of class Building (threads/Elevator.cc).
pub mod Nearest
use os_lab_nachos.Base.{
  ℕ, ◌+◌, ◌-◌, Bool, true, false, ◌&&◌, ◌||◌, Option, none, some, List, [], ◌∷◌, arith, ltb, ◌==◌,
  if◌then◌else◌,
}
use os_lab_nachos.Base.Exec.{Cmd, ok, pure, lift, ◌>>=◌, ◌>>◌}
use os_lab_nachos.Base.Int.{ℤ, pos, negsuc, minus_one}
use os_lab_nachos.Monitor.{Lock, acquire, release, assert_held, signal}
use os_lab_nachos.Barrier.{wait, wait_woken}
use os_lab_nachos.Elevator.State.{
  ElevatorState, up, down, stop, Elevator, Building, on_elevator, on_up, on_down,
}

-- `abs(a - b)`
abbrev pub distance : ℤ → ℤ → ℕ
distance (pos a) (pos b) = (a - b) + (b - a)
distance (pos a) (negsuc b) = a + b + 1
distance (negsuc a) (pos b) = a + b + 1
distance (negsuc a) (negsuc b) = (a - b) + (b - a)

abbrev pub same_floor : ℤ → ℤ → Bool
same_floor a b = distance a b == 0

-- `state == STOP`, `state == UP`, `state == DOWN`
abbrev pub is_stop : ElevatorState → Bool
is_stop stop = true
is_stop _ = false

abbrev pub is_up : ElevatorState → Bool
is_up up = true
is_up _ = false

abbrev pub is_down : ElevatorState → Bool
is_down down = true
is_down _ = false

-- the loop of `CallUp` and `CallDown` from elevator `i` on, with `MinInterval` and `eleNum`
unfoldable pub nearest : ℤ → List Elevator → (i min : ℕ) → ℤ → ℤ
nearest from [] i min ele_num = ele_num
nearest from (e ∷ l) i min ele_num =
    if is_stop e.state && ltb (distance e.current_floor from) min
    then nearest from l (i + 1) (distance e.current_floor from) (pos i)
    else nearest from l (i + 1) min ele_num

-- the loop of `AwaitUp` and `AwaitDown`; when no elevator passes, `re` is left uninitialised.
unfoldable pub boarding : (ElevatorState → Bool) → ℤ → List Elevator → ℕ → Option ℕ
boarding goes from [] i = none
boarding goes from (e ∷ l) i =
    if same_floor e.current_floor from && (goes e.state || is_stop e.state) && e.can_enter
    then some i
    else boarding goes from l (i + 1)

abbrev pub locking : Cmd Lock (Unit {0}) → Cmd Building (Unit {0})
locking = lift (λ b. b.building_lock) (λ l b. record b { building_lock = l })

module _ (me : ℕ) where
  -- `elevator[eleNum]->HaveRequest->Signal(BuildingLock)`
  unfoldable pub request : ℤ → Cmd Building (Unit {0})
  unfolding assert_held signal
  request (negsuc n) = pure tt
  request (pos i) = do
    locking (assert_held me)
    on_elevator i (λ e. ok tt (record e { have_request = signal e.have_request }))

  -- `Building::CallDown`
  unfoldable pub call_down : ℤ → Cmd Building (Unit {0})
  unfolding acquire release nearest request
  call_down from = do
    locking (acquire me)
    λ b. request (nearest from b.elevator 0 (b.num_floors + 1) minus_one) b
    locking (release me)

  -- `Building::CallUp`
  unfoldable pub call_up : ℤ → Cmd Building (Unit {0})
  unfolding acquire release nearest request
  call_up from = do
    locking (acquire me)
    λ b. request (nearest from b.elevator 0 (b.num_floors + 1) minus_one) b
    locking (release me)

  -- `AwaitDown` and `AwaitUp` from where the barrier has let the rider pass
  unfoldable pub choose : (ElevatorState → Bool) → ℤ → Cmd Building (Option ℕ)
  unfolding acquire release boarding
  choose goes from = do
    locking (acquire me)
    re ← λ b. ok (boarding goes from b.elevator 0) b
    locking (release me)
    λ b. ok re b

  -- `Building::AwaitDown`
  unfoldable pub await_down : ℤ → Cmd Building (Option ℕ)
  unfolding wait choose
  await_down from = do on_down from (wait me); choose is_down from

  unfoldable pub await_down_woken : ℤ → Cmd Building (Option ℕ)
  unfolding wait_woken choose
  await_down_woken from = do on_down from (wait_woken me); choose is_down from

  -- `Building::AwaitUp`
  unfoldable pub await_up : ℤ → Cmd Building (Option ℕ)
  unfolding wait choose
  await_up from = do on_up from (wait me); choose is_up from

  unfoldable pub await_up_woken : ℤ → Cmd Building (Option ℕ)
  unfolding wait_woken choose
  await_up_woken from = do on_up from (wait_woken me); choose is_up from
