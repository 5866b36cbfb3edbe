-- ===== src/Options/System/Total.antt =====
-- The loop of `Initialize` (threads/system.cc) ends on every command line.
use os_lab_nachos.Base.{
  ℕ, zero, suc, ◌≤◌, List, [], ◌∷◌, ◌≡◌, true, false, Bool-cases, inl, inr, arith, length, drop,
  length-drop, ◌==◌, ltb,
}
use os_lab_nachos.Base.Exec.{Result, ok, asleep, fault, Fault, and_then}
use os_lab_nachos.Base.Text.{Str}
use os_lab_nachos.Options.System.{str_eq, Flags, debug_flag, seed_flag, take_flag, flag_loop, flags}

-- `-rs` is the last argument
abbrev pub LastIsSeed : List Str → Type 0
LastIsSeed [] = ⊥
LastIsSeed (a ∷ []) = str_eq a (b'-' ∷ b'r' ∷ b's' ∷ []) ≡ true
LastIsSeed (a ∷ b ∷ args) = LastIsSeed (b ∷ args)

abbrev pub Asserts : List Str → Fault → Type 0
Asserts args Fault.assertion = LastIsSeed args
Asserts args _ = ⊥

-- The call returns a value of `P`, or stops at the assertion for `-rs`.
abbrev pub Ends : {A : Type 0} → (A → Type 0) → List Str → Result Flags A → Type 0
Ends P args (ok a f) = P a
Ends P args (asleep f) = ⊥
Ends P args (fault e f) = Asserts args e

-- a round takes one of `n` arguments at least, and no more
abbrev Taken : ℕ → ℕ → Type 0
Taken n k = (1 ≤ k) × (k ≤ n)

debug_flag-Ends :
    (a : Str) (args : List Str) (f : Flags)
    → Ends (Taken (suc (length args))) (a ∷ args) (debug_flag (a ∷ args) f)
unfolding debug_flag
debug_flag-Ends a [] f = (omega arith, omega arith)
debug_flag-Ends a (b ∷ args) f = rw (not_last (length args)) (omega arith, omega arith)
  where
    not_last : (n : ℕ) → (suc (suc n) == 1) ≡ false
    not_last n = ground arith

seed_flag-Ends :
    (a : Str) (args : List Str) (f : Flags)
    → str_eq a (b'-' ∷ b'r' ∷ b's' ∷ []) ≡ true
    → Ends (Taken (suc (length args))) (a ∷ args) (seed_flag (a ∷ args) f)
unfolding seed_flag
seed_flag-Ends a [] f h = h
seed_flag-Ends a (b ∷ args) f h = rw (has_value (length args)) (omega arith, omega arith)
  where
    has_value : (n : ℕ) → ltb 1 (suc (suc n)) ≡ true
    has_value n = ground arith

take_flag-Ends :
    (a : Str) (args : List Str) (f : Flags)
    → Ends (Taken (suc (length args))) (a ∷ args) (take_flag (a ∷ args) f)
unfolding take_flag
take_flag-Ends a args f = elim (Bool-cases (str_eq a (b'-' ∷ b'd' ∷ []))) [
  | inl d ↦ rw d (debug_flag-Ends a args f)
  | inr d ↦ rw d (elim (Bool-cases (str_eq a (b'-' ∷ b'r' ∷ b's' ∷ []))) [
    | inl s ↦ rw s (seed_flag-Ends a args f s)
    | inr s ↦ rw s (omega arith, omega arith)
  ])
]

LastIsSeed-cons : (a : Str) (args : List Str) → LastIsSeed args → LastIsSeed (a ∷ args)
LastIsSeed-cons a [] h = absurd h
LastIsSeed-cons a (b ∷ args) h = h

LastIsSeed-drop : (n : ℕ) (args : List Str) → LastIsSeed (drop n args) → LastIsSeed args
LastIsSeed-drop zero args h = h
LastIsSeed-drop (suc n) [] h = absurd h
LastIsSeed-drop (suc n) (a ∷ args) h = LastIsSeed-cons a args (LastIsSeed-drop n args h)

abbrev Anything : Unit {0} → Type 0
Anything _ = Unit {0}

Ends-weaken :
    (args more : List Str) (r : Result Flags (Unit {0}))
    → (LastIsSeed args → LastIsSeed more)
    → Ends Anything args r
    → Ends Anything more r
Ends-weaken args more (ok a f) h g = g
Ends-weaken args more (asleep f) h g = g
Ends-weaken args more (fault Fault.assertion f) h g = h g
Ends-weaken args more (fault Fault.null_pointer f) h g = g
Ends-weaken args more (fault Fault.out_of_bounds f) h g = g
Ends-weaken args more (fault Fault.out_of_fuel f) h g = g

-- the rounds behind one that took arguments
rest-Ends :
    (a : Str) (args : List Str) (fuel n : ℕ) (r : Result Flags ℕ)
    → ((rest : List Str) (f : Flags)
        → length rest ≤ fuel
        → Ends Anything rest (flag_loop fuel rest f))
    → length args ≤ fuel
    → Ends (Taken n) (a ∷ args) r
    → Ends Anything (a ∷ args) (and_then r (λ k. flag_loop fuel (drop k (a ∷ args))))
rest-Ends a args fuel n (ok zero f) ih h g = absurd (omega arith)
rest-Ends a args fuel n (ok (suc k) f) ih h g =
    Ends-weaken (drop k args) (a ∷ args) _ (LastIsSeed-drop (suc k) (a ∷ args))
      (ih (drop k args) f (omega (arith, length-drop k args)))
rest-Ends a args fuel n (asleep f) ih h g = g
rest-Ends a args fuel n (fault e f) ih h g = g

flag_loop-Ends :
    (fuel : ℕ) (args : List Str) (f : Flags)
    → length args ≤ fuel
    → Ends Anything args (flag_loop fuel args f)
unfolding flag_loop
flag_loop-Ends zero [] f h = tt
flag_loop-Ends (suc fuel) [] f h = tt
flag_loop-Ends zero (a ∷ args) f h = absurd (omega arith)
flag_loop-Ends (suc fuel) (a ∷ args) f h =
    rest-Ends a args fuel _ (take_flag (a ∷ args) f) (flag_loop-Ends fuel) (omega arith)
      (take_flag-Ends a args f)

-- On every command line the loop of `Initialize` comes to its end and reads nothing behind the last
-- argument, unless `-rs` stands last: its assertion then stops the program.
pub flags-Ends : (args : List Str) (f : Flags) → Ends (λ _. Unit {0}) args (flags args f)
unfolding flags
flags-Ends args f = flag_loop-Ends (length args) args f (omega arith)
