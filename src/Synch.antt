-- ===== src/Synch.antt =====
-- threads/synch.h and threads/synch.cc: class Semaphore over a queue of threads of which only the
-- contract is known, and class Lock and class Condition over semaphores. A thread is its address.
pub mod Queue
pub mod Semaphore
pub mod Lock
pub mod Condition
pub mod Exclusion
mod Tests
