-- ===== src/Base/Int.antt =====
-- The C++ `int`, where the code lets it be negative. No operation on such a value overflows.
use Prim.Native.Nat.{ℕ, ◌+◌, ◌-◌, ◌%◌, ◌^◌}
use mathlib.Core.Bool.{Bool, true}
use os_lab_nachos.Base.Tests.{ltb}

-- `negsuc n` is -(n + 1).
pub data ℤ : Type 0 where
  pos : ℕ → ℤ
  negsuc : ℕ → ℤ

abbrev pub minus_one : ℤ
minus_one = negsuc 0

-- `a < n` for an int `a` and a size `n`
abbrev pub ltb_size : ℤ → ℕ → Bool
ltb_size (pos a) n = ltb a n
ltb_size (negsuc a) n = true

-- An `int` whose overflow matters is held as the number of ints below it: `k` stands for k - 2^31. So
-- `<` and `==` on the ints are those on the numbers, and a sum wraps at 2^32.
abbrev pub int : ℕ → ℕ
int n = n + 2 ^ 31

abbrev pub inc : ℕ → ℕ
inc k = (k + 1) % 2 ^ 32

abbrev pub dec : ℕ → ℕ
dec k = (k + 2 ^ 32 - 1) % 2 ^ 32
