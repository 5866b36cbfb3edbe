-- ===== src/Lib.antt =====
-- The synchronisation exercises on Nachos in threads/: semaphores, locks and condition variables,
-- and what is built on them, a table, a bounded buffer, a doubly linked list, an event barrier, an
-- alarm and a bank of elevators; the tests that run these from threads, the command line that
-- chooses among them, and the host's services below.
--
-- The parts and the files that model them:
--  - Base.antt and Base/: Boolean tests, lists, commands (Exec.antt), the int of C++ (Int.antt), and C
--    strings with `atoi` and the decimal print of sprintf (Text.antt).
--  - Monitor.antt: the contract of Lock and Condition that the other parts build on.
--  - Synch.antt: threads/synch.cc. Semaphore.antt (P is `p`, V is `v`), Lock.antt, Condition.antt;
--    Lock/Refine.antt and Condition/Refine.antt tie them to Monitor.antt; Exclusion.antt takes the
--    calls of Lock statement by statement.
--  - Table.antt: threads/Table.cc; Alloc, Get and Release are `alloc`, `get`, `release_slot`.
--  - Buffer.antt: threads/BoundedBuffer.cc; Write and Read are `write`, `read`; Stream.antt has the
--    threads that call them.
--  - DlList.antt: threads/dllist.cc on a heap of elements (DlList/Heap.antt). Shape.antt says when the
--    pointers form a list; Insert, Ends, Remove, SortedRemove, Show and Sorted hold what the methods do
--    to it.
--  - Driver.antt: threads/dllist-driver.cc.
--  - Barrier.antt: threads/EventBarrier.cc; Runs.antt has the threads that call it.
--  - Alarm.antt: threads/Alarm.cc and TimerInterruptHandler of threads/system.cc, over the interface of
--    a sorted queue (Alarm/Queue.antt), which the list of DlList.antt fills.
--  - Elevator.antt: threads/Elevator.cc as built with MULTIPLE_ELEVATOR and BOUNDED_ELEVATOR:
--    Requests (GetLastRequestFloor), Calls (CallUp, AwaitUp and the like), Riders (Enter, Exit,
--    RequestFloor), Doors, Control (ElevatorControl as a machine of program points), Drive
--    (what ElevatorControl does on the elevator between its calls of OpenDoors, CloseDoors and
--    VisitFloor) and Trip (the function rider as a machine of calls; Trip/Fleet.antt has
--    many riders and elevators).
--  - Options.antt: the loop of main over its arguments (threads/main.cc), and Options/System.antt that of
--    Initialize (threads/system.cc); Settings.antt and System/Line.antt have the lines that make sense,
--    the two Total.antt every line.
--  - ThreadTest.antt: threads/threadtest.cc. ThreadTest makes and forks a list of actions (Forks.antt), and
--    `main` joins that to the options; ListTest, TableTest, BufferTest, RiderTest and Others have the
--    functions that the threads run.
--  - Boot.antt: `nachos`, the whole of main with Initialize, up to the Finish of its thread.
--  - Host.antt: machine/sysdep.cc; the state is the list of the host's calls so far.
--
-- A method is a command: a function from the state of its object to a result that returns, sleeps or
-- stops the program, each with the state left behind. The calling thread is a number. Where a thread
-- sleeps, a further definition (`..._woken`) goes on from the place at which it is woken, and where
-- `Alarm::Pause` is called the rest of the method is a definition of its own (`..._paused`). A
-- command runs without another thread in between; the semaphore, the bounded buffer and the event barrier
-- have runs of any threads, whose steps are such commands, in any order, and for Lock and Condition
-- a switch of threads may come between any two statements.
--
-- Numbers that are never negative are natural numbers; an int whose overflow matters is the number of
-- ints below it (Base/Int.antt). Loops over pointers take as fuel the count of elements ever made,
-- which is more than the list can hold; the loop of CheckIfDue takes one round more than there are
-- waiters; the waiting loops of the buffer use up one wake-up in each round. The loop of Broadcast
-- has a round for each thread counted.
--
-- A list of arguments gives its own length as fuel, since each round takes an argument at least. What
-- rand and Random return is an argument of the definitions, and so is what the calls of the host
-- return; the loops that draw until a condition holds are functions of the numbers drawn. main
-- makes of the long that `atoi` reads the int that glibc makes of it (`as_int`); the seed of Initialize
-- is kept as read. The float arithmetic of the average turnaround time and the chars that the items of
-- a list point to are parameters. An access outside an array ends the run that is described: the program
-- may go on from there in any way.
--
-- The queue of threads of a semaphore is the class List of Nachos, which is not in this repository:
-- it is a parameter with its contract (Synch/Queue.antt). Not modelled: threads, the scheduler and
-- interrupts of Nachos, which are not in this repository either; Abort and Exit, which end the program;
-- what printf writes, except where a theorem speaks of it; the code for USER_PROGRAM, FILESYS and
-- NETWORK; destructors that only free memory.
pub mod Base
pub mod Monitor
pub mod Table
pub mod ThreadTest
pub mod Boot
pub mod Buffer
pub mod DlList
pub mod Driver
pub mod Alarm
pub mod Synch
pub mod Barrier
pub mod Elevator
pub mod Host
pub mod Options
