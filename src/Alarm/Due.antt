-- ===== src/Alarm/Due.antt =====
-- The comparison of times in Alarm.antt.
use os_lab_nachos.Base.{ℕ, ◌≡◌, ◌≤◌, ◌<◌, ◌^◌, arith, leb}
use os_lab_nachos.Alarm.{is_due}

-- On times that are not negative, the difference decides as the comparison does.
pub is_due-leb :
    (due now : ℕ)
    → 2 ^ 31 ≤ due
    → due < 2 ^ 32
    → 2 ^ 31 ≤ now
    → now < 2 ^ 32
    → is_due due now ≡ leb due now
unfolding is_due
is_due-leb due now h1 h2 h3 h4 = ground arith
