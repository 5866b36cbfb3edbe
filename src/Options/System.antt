-- ===== src/Options/System.antt =====
-- `Initialize` of threads/system.cc: its loop over the command line, and the global objects that it
-- makes. `Cleanup` deletes some of them.
pub mod Line
pub mod Total
use os_lab_nachos.Base.{
  ℕ, zero, suc, List, [], ◌∷◌, ◌++◌, Option, none, some, Bool, true, false, ltb, ◌==◌, ◌&&◌,
  if◌then◌else◌, length, drop,
}
use os_lab_nachos.Base.Exec.{Cmd, ok, out_of_fuel, pure, stop, assert, ◌>>=◌, ◌>>◌}
use os_lab_nachos.Base.Int.{ℤ}
use os_lab_nachos.Base.Text.{Str}
use os_lab_nachos.Options.{argument, number}

-- `!strcmp(a, b)`
abbrev pub str_eq : Str → Str → Bool
str_eq [] [] = true
str_eq (a ∷ s) (b ∷ t) = a == b && str_eq s t
str_eq _ _ = false

-- the locals of `Initialize`, and the seed that `RandomInit` was given last
pub record Flags : Type 0 where
  pub debug_args : Str
  pub random_yield : Bool
  pub seed : Option ℤ

abbrev pub no_flags : Flags
no_flags = record { debug_args = []; random_yield = false; seed = none }

-- `-d`, with the flags behind it or without
unfoldable pub debug_flag : List Str → Cmd Flags ℕ
debug_flag args =
    if length args == 1
    then (λ f. ok 1 (record f { debug_args = b'+' ∷ [] }))
    else (do text ← argument args 1; λ f. ok 2 (record f { debug_args = text }))

-- `-rs`
unfoldable pub seed_flag : List Str → Cmd Flags ℕ
seed_flag args = do
  assert (ltb 1 (length args))
  n ← number args 1
  λ f. ok 2 (record f { random_yield = true; seed = some n })

-- the body of the loop; the value is `argCount`
unfoldable pub take_flag : List Str → Cmd Flags ℕ
unfolding debug_flag seed_flag
take_flag args = do
  name ← argument args 0
  if str_eq name (b'-' ∷ b'd' ∷ [])
      then debug_flag args
      else if str_eq name (b'-' ∷ b'r' ∷ b's' ∷ [])
      then seed_flag args
      else pure 1

unfoldable pub flag_loop : ℕ → List Str → Cmd Flags (Unit {0})
flag_loop fuel [] = pure tt
flag_loop zero (a ∷ args) = stop out_of_fuel
flag_loop (suc fuel) (a ∷ args) = do
  arg_count ← take_flag (a ∷ args)
  flag_loop fuel (drop arg_count (a ∷ args))

-- The loop of `Initialize` behind the name of the program; each round takes an argument at least.
unfoldable pub flags : List Str → Cmd Flags (Unit {0})
unfolding flag_loop
flags args = flag_loop (length args) args

-- what `Initialize` does behind the loop
pub data Made : Type 0 where
  debug_init : Str → Made
  statistics interrupt scheduler alarm main_thread set_running enable call_on_user_abort : Made
  timer : (do_random : Bool) (dummy : ℕ) → Made

-- the argument of `TimerInterruptHandler`, a bool passed as an int
abbrev pub dummy : Flags → ℕ
dummy f = if f.random_yield then 1 else 0

unfoldable pub initialize : List Str → Cmd Flags (List Made)
initialize args = flags args >> λ f.
    ok
      (debug_init f.debug_args
        ∷ statistics
        ∷ interrupt
        ∷ scheduler
        ∷ alarm
        ∷ timer f.random_yield (dummy f)
        ∷ main_thread
        ∷ set_running
        ∷ enable
        ∷ call_on_user_abort
        ∷ [])
      f

-- what `Cleanup` does: it deletes three of the objects and ends the program
pub data Ending : Type 0 where
  delete_timer delete_scheduler delete_interrupt : Ending
  exit : ℕ → Ending

-- `Cleanup`
unfoldable pub cleanup : List Ending
cleanup = delete_timer ∷ delete_scheduler ∷ delete_interrupt ∷ exit 0 ∷ []
