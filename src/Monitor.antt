-- ===== src/Monitor.antt =====
-- The contract of class Lock and class Condition (threads/synch.h), as their clients see it: who
-- holds a lock, and how many threads are counted as waiting on a condition.
use os_lab_nachos.Base.{
  ℕ, ◌+◌, ◌-◌, ◌≡◌, refl, Option, none, some, ltb, same, same_self, if◌then◌else◌,
}
use os_lab_nachos.Base.Exec.{Cmd, ok, asleep, fault, assertion, assert}

-- The thread that holds the lock.
abbrev pub Lock : Type 0
Lock = Option ℕ

unfoldable pub acquire : ℕ → Cmd Lock (Unit {0})
acquire me l =
    if same l (some me)
    then fault assertion l
    else elim l [ none ↦ ok tt (some me) | some other ↦ asleep (some other) ]

unfoldable pub release : ℕ → Cmd Lock (Unit {0})
release me l = if same l (some me) then ok tt none else fault assertion l

-- `ASSERT(lock->isHeldByCurrentThread())`
unfoldable pub assert_held : ℕ → Cmd Lock (Unit {0})
assert_held me l = assert (same l (some me)) l

-- `blockNum`, and the value of `sem`: wake-ups that no sleeper has consumed yet.
pub record Condition : Type 0 where
  pub block_num : ℕ
  pub wakeups : ℕ

unfoldable pub signal : Condition → Condition
signal c =
    if ltb 0 c.block_num then record { block_num = c.block_num - 1; wakeups = c.wakeups + 1 } else c

unfoldable pub broadcast : Condition → Condition
broadcast c = record { block_num = 0; wakeups = c.wakeups + c.block_num }

unfoldable pub block : Condition → Condition
block c = record c { block_num = c.block_num + 1 }

-- `sem->P()` of a sleeper: it consumes a wake-up, or sleeps on.
unfoldable pub consume : Cmd Condition (Unit {0})
consume c = if ltb 0 c.wakeups then ok tt (record c { wakeups = c.wakeups - 1 }) else asleep c

pub acquire-none : (me : ℕ) → acquire me none ≡ ok tt (some me)
unfolding acquire
acquire-none me = refl

pub release-holder : (me : ℕ) → release me (some me) ≡ ok tt none
unfolding release
release-holder me = rw (same_self me)
