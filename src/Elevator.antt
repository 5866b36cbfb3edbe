-- ===== src/Elevator.antt =====
-- class Elevator and class Building (threads/Elevator.h, threads/Elevator.cc), as they are built with
-- MULTIPLE_ELEVATOR and BOUNDED_ELEVATOR. A call of `Alarm::Pause` ends a stretch, and the rest of the
-- method is a definition of its own. `occupancy` is an int in the form of Base/Int.antt.
pub mod State
pub mod Doors
pub mod Riders
pub mod Requests
pub mod Calls
pub mod Control
pub mod Trip
pub mod Drive
mod Tests
