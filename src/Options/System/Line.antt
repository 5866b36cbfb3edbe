-- ===== src/Options/System/Line.antt =====
-- Command lines of `Initialize` (threads/system.cc), what they set, and how every line ends.
use os_lab_nachos.Base.{
  ℕ, zero, suc, ◌≤◌, List, [], ◌∷◌, ◌++◌, ◌≡◌, refl, ◌∙◌, some, Bool, true, false, arith, length,
  if◌then◌else◌, ◌==◌, ltb,
}
use os_lab_nachos.Base.Exec.{ok}
use os_lab_nachos.Base.Int.{pos}
use os_lab_nachos.Base.Text.{Str, decimal, atoi-decimal}
use os_lab_nachos.Options.System.{
  str_eq, Flags, no_flags, take_flag, flag_loop, flags, Made, debug_init, statistics, interrupt,
  scheduler, alarm, timer, main_thread, set_running, enable, call_on_user_abort, initialize, dummy,
}

abbrev pub debug_name : Str
debug_name = b'-' ∷ b'd' ∷ []

abbrev pub seed_name : Str
seed_name = b'-' ∷ b'r' ∷ b's' ∷ []

-- `-d flags`, `-rs n`, and an argument that `main` reads
pub data Flag : Type 0 where
  debug : Str → Flag
  random_seed : ℕ → Flag
  other : Str → Flag

abbrev pub IsOther : Flag → Type 0
IsOther (other a) = (str_eq a debug_name ≡ false) × (str_eq a seed_name ≡ false)
IsOther _ = Unit {0}

abbrev pub AllOther : List Flag → Type 0
AllOther [] = Unit {0}
AllOther (x ∷ xs) = IsOther x × AllOther xs

abbrev pub render : Flag → List Str
render (debug text) = debug_name ∷ text ∷ []
render (random_seed n) = seed_name ∷ decimal n ∷ []
render (other a) = a ∷ []

-- the line, with `-d` behind it or not
abbrev pub line : List Flag → Bool → List Str
line [] bare = if bare then debug_name ∷ [] else []
line (x ∷ xs) bare = render x ++ line xs bare

abbrev pub apply : Flag → Flags → Flags
apply (debug text) f = record f { debug_args = text }
apply (random_seed n) f = record f { random_yield = true; seed = some (pos n) }
apply (other a) f = f

abbrev pub apply_all : List Flag → Bool → Flags → Flags
apply_all [] bare f = if bare then record f { debug_args = b'+' ∷ [] } else f
apply_all (x ∷ xs) bare f = apply_all xs bare (apply x f)

abbrev taken : Flag → ℕ
taken (debug text) = 2
taken (random_seed n) = 2
taken (other a) = 1

not_last : (n : ℕ) → (suc (suc n) == 1) ≡ false
not_last n = ground arith

has_value : (n : ℕ) → ltb 1 (suc (suc n)) ≡ true
has_value n = ground arith

take_flag-render :
    (x : Flag) (rest : List Str) (f : Flags)
    → IsOther x
    → take_flag (render x ++ rest) f ≡ ok (taken x) (apply x f)
unfolding take_flag
take_flag-render (debug text) rest f h = rw (not_last (length rest)) refl
take_flag-render (random_seed n) rest f h = rw (has_value (length rest), atoi-decimal n) refl
take_flag-render (other a) rest f h = rw (h.0, h.1) refl

loop_render :
    (x : Flag) (fuel : ℕ) (rest : List Str) (f : Flags)
    → IsOther x
    → flag_loop (suc fuel) (render x ++ rest) f ≡ flag_loop fuel rest (apply x f)
unfolding flag_loop
loop_render (debug text) fuel rest f h = rw (take_flag-render (debug text) rest f h) refl
loop_render (random_seed n) fuel rest f h = rw (take_flag-render (random_seed n) rest f h) refl
loop_render (other a) fuel rest f h = rw (take_flag-render (other a) rest f h) refl

loop_end : (fuel : ℕ) (f : Flags) → flag_loop fuel [] f ≡ ok tt f
unfolding flag_loop
loop_end zero f = refl
loop_end (suc fuel) f = refl

loop_bare :
    (fuel : ℕ) (f : Flags)
    → flag_loop (suc fuel) (debug_name ∷ []) f ≡ ok tt (record f { debug_args = b'+' ∷ [] })
unfolding flag_loop take_flag
loop_bare zero f = refl
loop_bare (suc fuel) f = refl

flag_loop-line :
    (xs : List Flag) (bare : Bool) (fuel : ℕ) (f : Flags)
    → AllOther xs
    → length (line xs bare) ≤ fuel
    → flag_loop fuel (line xs bare) f ≡ ok tt (apply_all xs bare f)
flag_loop-line [] false fuel f h g = loop_end fuel f
flag_loop-line [] true zero f h g = absurd (omega arith)
flag_loop-line [] true (suc fuel) f h g = loop_bare fuel f
flag_loop-line (debug text ∷ xs) bare zero f h g = absurd (omega arith)
flag_loop-line (random_seed n ∷ xs) bare zero f h g = absurd (omega arith)
flag_loop-line (other a ∷ xs) bare zero f h g = absurd (omega arith)
flag_loop-line (debug text ∷ xs) bare (suc fuel) f h g =
    loop_render (debug text) fuel _ f h.0
    ∙ flag_loop-line xs bare fuel (apply (debug text) f) h.1 (omega arith)
flag_loop-line (random_seed n ∷ xs) bare (suc fuel) f h g =
    loop_render (random_seed n) fuel _ f h.0
    ∙ flag_loop-line xs bare fuel (apply (random_seed n) f) h.1 (omega arith)
flag_loop-line (other a ∷ xs) bare (suc fuel) f h g =
    loop_render (other a) fuel _ f h.0
    ∙ flag_loop-line xs bare fuel (apply (other a) f) h.1 (omega arith)

abbrev pub made : Flags → List Made
made f =
    debug_init f.debug_args
    ∷ statistics
    ∷ interrupt
    ∷ scheduler
    ∷ alarm
    ∷ timer f.random_yield (dummy f)
    ∷ main_thread
    ∷ set_running
    ∷ enable
    ∷ call_on_user_abort
    ∷ []

-- A command line of `-d flags`, `-rs n` with n in decimal, arguments that are neither `-d` nor `-rs`,
-- and perhaps a `-d` at its end, is read to its end. The objects are then made in the order of the
-- code, the debug flags and the timer's randomness being those that the last such option sets.
pub initialize-line :
    (xs : List Flag) (bare : Bool)
    → AllOther xs
    → initialize (line xs bare) no_flags
      ≡ ok (made (apply_all xs bare no_flags)) (apply_all xs bare no_flags)
unfolding initialize flags
initialize-line xs bare h =
    rw (flag_loop-line xs bare (length (line xs bare)) no_flags h (omega arith)) refl
