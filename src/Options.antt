-- ===== src/Options.antt =====
-- The command line of `main` (threads/main.cc) and of `Initialize` (threads/system.cc), as they are built
-- with THREADS and without the parts of later assignments. A list of arguments is `argv` from the
-- current place on, with `argc` its length.
pub mod Settings
pub mod Total
pub mod System
mod Tests
use os_lab_nachos.Base.{
  ℕ, zero, suc, ◌+◌, ◌-◌, ◌^◌, ◌%◌, List, [], ◌∷◌, Option, none, some, Bool, true, false, arith,
  ltb, ◌==◌, if◌then◌else◌, length, get_elem?, drop,
}
use os_lab_nachos.Base.Exec.{
  Cmd, ok, out_of_fuel, out_of_bounds, null_pointer, pure, stop, ◌>>=◌, ◌>>◌,
}
use os_lab_nachos.Base.Int.{ℤ, pos, negsuc}
use os_lab_nachos.Base.Text.{Str, atoi}

-- the variables of threads/threadtest.cc that the options set
pub record Options : Type 0 where
  pub testnum : ℤ
  pub producersnum : ℤ
  pub consumersnum : ℤ

abbrev pub defaults : Options
defaults = record { testnum = pos 1; producersnum = pos 2; consumersnum = pos 2 }

module _ {S : Type 0} where
  -- `argv[k]` as a string that is read: the pointer behind the last argument is NULL.
  abbrev pub argument : List Str → ℕ → Cmd S Str
  argument args k s = elim (get_elem? args k) [
    | none ↦ (if k == length args then stop null_pointer else stop out_of_bounds) s
    | some a ↦ ok a s
  ]

  -- `a[k]`, where the NUL stands behind the bytes
  abbrev pub char_at : Str → ℕ → Cmd S ℕ
  char_at a k s = elim (get_elem? a k) [
    | none ↦ (if k == length a then pure 0 else stop out_of_bounds) s
    | some c ↦ ok c s
  ]

  -- `atoi(argv[k])`
  abbrev pub number : List Str → ℕ → Cmd S ℤ
  number args k = do a ← argument args k; pure (atoi a)

-- A `long` of `strtol` in the range of `long`, as the int that `atoi` makes of it.
abbrev pub clamp : ℕ → ℕ
clamp n = if ltb n (2 ^ 63) then n else 2 ^ 63 - 1

unfoldable pub as_int : ℤ → ℤ
as_int (pos n) =
    let m = clamp n % 2 ^ 32 in if ltb m (2 ^ 31) then pos m else negsuc (2 ^ 32 - 1 - m)
as_int (negsuc n) =
    let m = clamp n % 2 ^ 32 in if ltb m (2 ^ 31) then negsuc m else pos (2 ^ 32 - 1 - m)

module _ {S : Type 0} where
  -- `atoi(argv[k])` where it is stored in an int
  abbrev pub int_number : List Str → ℕ → Cmd S ℤ
  int_number args k = do n ← number args k; pure (as_int n)

abbrev set_test : ℕ → Cmd Options (Unit {0})
set_test n o = ok tt (record o { testnum = pos n })

-- The cases 'm', 'a' and 'b', with the value of `argCount`
unfoldable pub workers : ℕ → List Str → Cmd Options ℕ
workers test args = do
  set_test test
  p ← int_number args 1
  λ o. ok tt (record o { producersnum = p })
  c ← int_number args 2
  λ o. ok 4 (record o { consumersnum = c })

-- The `switch` of `main`; the value is `argCount`.
unfoldable pub take_option : List Str → Cmd Options ℕ
unfolding workers
take_option args = do
  name ← argument args 0
  letter ← char_at name 1
  if letter == b'q'
      then (do n ← int_number args 1; λ o. ok 2 (record o { testnum = n }))
      else if letter == b'm'
      then workers 2 args
      else if letter == b'a'
      then workers 3 args
      else if letter == b'b'
      then workers 4 args
      else if letter == b'e'
      then set_test 5 >> pure 2
      else if letter == b'g'
      then set_test 6 >> pure 2
      else if letter == b'h'
      then set_test 7 >> pure 2
      else set_test 1 >> pure 1

-- the loop over the arguments; the value is what is left of them
unfoldable pub option_loop : ℕ → List Str → Cmd Options (List Str)
option_loop fuel [] = pure []
option_loop zero (a ∷ args) = stop out_of_fuel
option_loop (suc fuel) (a ∷ args) = do
  arg_count ← take_option (a ∷ args)
  option_loop fuel (drop arg_count (a ∷ args))

-- The loop of `main` behind the name of the program; each round takes an argument at least.
unfoldable pub main_options : List Str → Cmd Options (List Str)
unfolding option_loop
main_options args = option_loop (length args) args
