-- ===== src/Elevator/Riders.antt =====
-- The rider's calls of class Elevator (threads/Elevator.cc). Where the code calls `Alarm::Pause`, one
-- definition ends and the next begins.
pub mod Occupancy
use os_lab_nachos.Base.{
  ℕ, ◌+◌, ◌^◌, Bool, true, false, Option, none, some, arith, ltb, if◌then◌else◌,
}
use os_lab_nachos.Base.Exec.{Cmd, ok, pure, lift, ◌>>=◌, ◌>>◌}
use os_lab_nachos.Base.Int.{ℤ, int, inc, dec}
use os_lab_nachos.Monitor.{Lock, Condition, acquire, release, assert_held, block, consume}
use os_lab_nachos.Barrier.{wait, wait_woken, complete, complete_woken}
use os_lab_nachos.Elevator.State.{
  ElevatorState, up, down, stop, Elevator, Building, cell, on_elevator, on_up, on_down, on_out,
}
use os_lab_nachos.Elevator.Requests.{locking}

abbrev pub elevator_capacity : ℕ
elevator_capacity = 6

-- `occupancy++` and `occupancy--`
abbrev pub count : (ℕ → ℕ) → Cmd Elevator (Unit {0})
count f e = ok tt (record e { occupancy = f e.occupancy })

abbrev pub on_not_full : Cmd Condition (Unit {0}) → Cmd Elevator (Unit {0})
on_not_full = lift (λ e. e.elevator_not_full) (λ c e. record e { elevator_not_full = c })

-- the elevator `id` as it is
abbrev pub look : ℕ → Cmd Building Elevator
look id = on_elevator id (λ e. ok e e)

-- What the head of `Enter` decides: whether the rider stays in.
unfoldable pub take_place : Cmd Elevator Bool
take_place e =
    let more = record e { occupancy = inc e.occupancy } in
    if ltb (int elevator_capacity) more.occupancy
    then ok false (record e { occupancy = dec more.occupancy })
    else ok true more

-- what `Exit` does to its elevator behind its pause: `occupancy--` and `Complete`, which may sleep
unfoldable pub exit_counted : ℕ → Cmd Elevator (Unit {0})
unfolding complete
exit_counted me = do count dec; λ e. on_out e.current_floor (complete me) e

module _ (me id : ℕ) where
  -- `ElevatorNotFull->Wait(ElevatorLock)`, and what follows in `Enter`
  unfoldable pub enter_refused_woken : Cmd Building Bool
  unfolding acquire release consume
  enter_refused_woken = do
    on_elevator id (do on_not_full consume; locking (acquire me))
    on_elevator id (locking (release me))
    pure false

  unfoldable pub enter_refused : Cmd Building Bool
  unfolding acquire release assert_held block enter_refused_woken
  enter_refused = do
    on_elevator id (do
      locking (acquire me)
      locking (assert_held me)
      locking (release me)
      on_not_full (λ c. ok tt (block c)))
    enter_refused_woken

  -- `Complete` on the barrier of the elevator's floor and direction
  unfoldable pub complete_entry : Cmd Building (Unit {0})
  unfolding complete
  complete_entry = do
    e ← look id
    elim e.state [
      | up ↦ on_up e.current_floor (complete me)
      | down ↦ on_down e.current_floor (complete me)
      | stop ↦ pure tt
    ]

  -- `Elevator::Enter` of a rider who is refused, or up to the pause
  unfoldable pub enter : Cmd Building Bool
  unfolding take_place complete_entry enter_refused
  enter = do
    stays ← on_elevator id take_place
    if stays then pure true else (do complete_entry; enter_refused)

  -- `Elevator::Enter` behind its pause
  unfoldable pub enter_paused : Cmd Building Bool
  unfolding complete_entry
  enter_paused = do complete_entry; pure true

  -- `Elevator::Exit` behind its pause
  unfoldable pub exit_paused : Cmd Building (Unit {0})
  unfolding exit_counted
  exit_paused = on_elevator id (exit_counted me)

  -- `Elevator::RequestFloor`
  unfoldable pub request_floor : ℤ → Cmd Building (Unit {0})
  unfolding wait
  request_floor floor = on_elevator id (on_out floor (wait me))
