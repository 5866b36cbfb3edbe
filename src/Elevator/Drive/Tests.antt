-- ===== src/Elevator/Drive/Tests.antt =====
-- `ElevatorControl` on an elevator of two floors.
use os_lab_nachos.Base.{List, [], ◌∷◌}
use os_lab_nachos.Base.Int.{pos, int}
use os_lab_nachos.Barrier.{EventBarrier, init as quiet}
use os_lab_nachos.Elevator.State.{up, Elevator, new_elevator}

abbrev waited_on : EventBarrier
waited_on = record quiet { waiternum = int 2; event = record { block_num = 2; wakeups = 0 } }

abbrev calm : List EventBarrier
calm = quiet ∷ quiet ∷ []

abbrev top_wanted : List EventBarrier
top_wanted = quiet ∷ waited_on ∷ []

-- At the top, with a rider there who wants to go down.
abbrev at_top : Elevator
unfolding new_elevator
at_top = record (new_elevator 2 0) { current_floor = pos 1; state = up }
