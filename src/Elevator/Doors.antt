-- ===== src/Elevator/Doors.antt =====
-- `OpenDoors`, `CloseDoors` and `VisitFloor` of class Elevator (threads/Elevator.cc). Where the code calls
-- `Alarm::Pause`, one definition ends and the next begins.
pub mod Visit
use os_lab_nachos.Base.{ℕ, Bool, true, false, Option, none, some, if◌then◌else◌}
use os_lab_nachos.Base.Exec.{Cmd, ok, pure, lift, ◌>>=◌, ◌>>◌}
use os_lab_nachos.Base.Int.{ℤ}
use os_lab_nachos.Monitor.{acquire, release, assert_held, broadcast}
use os_lab_nachos.Barrier.{signal, signal_woken}
use os_lab_nachos.Elevator.State.{
  ElevatorState, up, down, stop, Elevator, Building, cell, on_elevator, on_up, on_down, on_out,
}
use os_lab_nachos.Elevator.Requests.{busy_at, busy, read_ok, locking}
use os_lab_nachos.Elevator.Riders.{look, on_not_full}

abbrev pub set_can_enter : Bool → Cmd Elevator (Unit {0})
set_can_enter v e = ok tt (record e { can_enter = v })

-- `ElevatorNotFull->Broadcast(ElevatorLock)` with its lock
unfoldable pub wake_refused : ℕ → Cmd Elevator (Unit {0})
unfolding acquire release assert_held broadcast
wake_refused me = do
  locking (acquire me)
  locking (assert_held me)
  on_not_full (λ c. ok tt (broadcast c))
  locking (release me)

module _ (me id : ℕ) where
  -- `OpenDoors` from `canEnter = true` on
  unfoldable pub open_doors_entry : Cmd Building (Unit {0})
  unfolding busy signal
  open_doors_entry = do
    on_elevator id (set_can_enter true)
    e ← look id
    elim e.state [
      | up ↦ (do
        wanted ← λ b. read_ok (busy_at b.up_barrier e.current_floor) b
        if wanted then on_up e.current_floor (signal me) else pure tt)
      | down ↦ (do
        wanted ← λ b. read_ok (busy_at b.down_barrier e.current_floor) b
        if wanted then on_down e.current_floor (signal me) else pure tt)
      | stop ↦ pure tt
    ]

  -- `Elevator::OpenDoors` behind its pause
  unfoldable pub open_doors : Cmd Building (Unit {0})
  unfolding busy signal open_doors_entry
  open_doors = do
    on_elevator id (do
      wanted ← λ e. read_ok (busy_at e.out_barrier e.current_floor) e
      λ e. (if wanted then on_out e.current_floor (signal me) else pure tt) e)
    open_doors_entry

  -- `OpenDoors` from where all riders who get out have answered
  unfoldable pub open_doors_out_woken : Cmd Building (Unit {0})
  unfolding signal_woken open_doors_entry
  open_doors_out_woken = do
    on_elevator id (λ e. on_out e.current_floor (signal_woken me) e)
    open_doors_entry

  -- `Elevator::CloseDoors`, up to its pause
  unfoldable pub close_doors : Cmd Building (Unit {0})
  close_doors = on_elevator id (set_can_enter false)

  -- `Elevator::VisitFloor`, up to its pause
  unfoldable pub visit_floor : Cmd Building (Unit {0})
  unfolding wake_refused
  visit_floor = on_elevator id (wake_refused me)

  -- `Elevator::VisitFloor` behind its pause
  unfoldable pub arrive : ℤ → Cmd Building (Unit {0})
  arrive floor = on_elevator id (λ e. ok tt (record e { current_floor = floor }))
