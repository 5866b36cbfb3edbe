-- ===== src/Elevator/Doors/Visit.antt =====
-- `VisitFloor` (threads/Elevator.cc) and the riders that a full elevator refused.
use os_lab_nachos.Base.{ℕ, ◌≡◌, refl, ap, ◌∙◌, none, some, get_elem?, set, same_self}
use os_lab_nachos.Base.Exec.{ok, lifted}
use os_lab_nachos.Monitor.{broadcast, release-holder}
use os_lab_nachos.Elevator.State.{Elevator, Building, on_elevator_lem}
use os_lab_nachos.Elevator.Doors.{visit_floor, wake_refused}

wake_refused_lem :
    (me : ℕ) (e : Elevator)
    → e.elevator_lock ≡ none
    → wake_refused me e ≡ ok tt (record e { elevator_not_full = broadcast e.elevator_not_full })
unfolding wake_refused
wake_refused_lem me e free = rw (free, same_self me, release-holder me) refl

-- Before it moves, an elevator whose lock is free wakes every rider that it refused, and changes nothing
-- else.
pub visit_floor_lem :
    (me id : ℕ) (b : Building) (e : Elevator)
    → get_elem? b.elevator id ≡ some e
    → e.elevator_lock ≡ none
    → visit_floor me id b
      ≡ ok tt (record b {
        elevator =
            set b.elevator id (record e { elevator_not_full = broadcast e.elevator_not_full });
      })
unfolding visit_floor
visit_floor_lem me id b e at free =
    on_elevator_lem id (wake_refused me) b e at
    ∙ ap (lifted (λ e'. record b { elevator = set b.elevator id e' })) (wake_refused_lem me e free)
