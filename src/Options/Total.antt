-- ===== src/Options/Total.antt =====
-- The option loop of `main` (threads/main.cc) ends on every command line.
use os_lab_nachos.Base.{
  ℕ, zero, suc, ◌≤◌, ◌<◌, ap, ==_iff, List, [], ◌∷◌, ◌≡◌, refl, ◌⊎◌, inl, inr, arith, length, drop,
  length-drop, if◌then◌else◌, ◌==◌, Bool, true, false,
}
use os_lab_nachos.Base.Exec.{Cmd, ◌>>=◌, Result, ok, asleep, fault, Fault, and_then}
use os_lab_nachos.Base.Text.{Str}
use os_lab_nachos.Options.{Options, int_number, take_option, workers, option_loop, main_options}

-- an argument is the empty string
abbrev pub HasEmpty : List Str → Type 0
HasEmpty [] = ⊥
HasEmpty (a ∷ args) = (a ≡ []) ⊎ HasEmpty args

-- how many numbers the option with this letter reads
abbrev pub numbers_of : ℕ → ℕ
numbers_of letter =
    if letter == b'q'
    then 1
    else if letter == b'm'
    then 2
    else if letter == b'a'
    then 2
    else if letter == b'b'
    then 2
    else 0

abbrev pub numbers : Str → ℕ
numbers (x ∷ letter ∷ _) = numbers_of letter
numbers _ = 0

-- fewer arguments stand behind an option than the numbers that it reads
abbrev pub LacksNumber : List Str → Type 0
LacksNumber [] = ⊥
LacksNumber (a ∷ args) = (length args < numbers a) ⊎ LacksNumber args

abbrev pub Stops : List Str → Fault → Type 0
Stops args Fault.assertion = ⊥
Stops args Fault.null_pointer = LacksNumber args
Stops args Fault.out_of_bounds = HasEmpty args
Stops args Fault.out_of_fuel = ⊥

-- The call returns a value of `P`, or stops at the end of the line or at an empty argument.
abbrev pub Ends : {A : Type 0} → (A → Type 0) → List Str → Result Options A → Type 0
Ends P args (ok a o) = P a
Ends P args (asleep o) = ⊥
Ends P args (fault e o) = Stops args e

Ends-if :
    {A : Type 0} (P : A → Type 0) (args : List Str) (o : Options) (b : Bool) (m n : Cmd Options A)
    → (b ≡ true → Ends P args (m o))
    → Ends P args (n o)
    → Ends P args ((if b then m else n) o)
Ends-if P args o true m n h g = h refl
Ends-if P args o false m n h g = g

-- the number of arguments that a round takes
abbrev Positive : ℕ → Type 0
Positive n = 1 ≤ n

workers-Ends :
    (test : ℕ) (a : Str) (args : List Str) (o : Options)
    → numbers a ≡ 2
    → Ends Positive (a ∷ args) (workers test (a ∷ args) o)
unfolding workers
workers-Ends test a [] o two = inl (omega arith)
workers-Ends test a (b ∷ []) o two = inl (omega arith)
workers-Ends test a (b ∷ c ∷ args) o two = omega arith

test-Ends :
    (a : Str) (args : List Str) (o : Options)
    → numbers a ≡ 1
    → Ends Positive
        (a ∷ args)
        ((do n ← int_number (a ∷ args) 1; λ o. ok 2 (record o { testnum = n })) o)
test-Ends a [] o one = inl (omega arith)
test-Ends a (b ∷ args) o one = omega arith

take_option-Ends :
    (a : Str) (args : List Str) (o : Options) → Ends Positive (a ∷ args) (take_option (a ∷ args) o)
unfolding take_option
take_option-Ends [] args o = inl refl
take_option-Ends (x ∷ []) args o = omega arith
take_option-Ends (x ∷ y ∷ a) args o =
    let branch = Ends-if Positive ((x ∷ y ∷ a) ∷ args) o in
    branch (y == b'q') _ _ (λ e. test-Ends (x ∷ y ∷ a) args o (letter b'q' ((==_iff y b'q').0 e)))
      (branch (y == b'm') _ _
        (λ e. workers-Ends 2 (x ∷ y ∷ a) args o (letter b'm' ((==_iff y b'm').0 e)))
        (branch (y == b'a') _ _
          (λ e. workers-Ends 3 (x ∷ y ∷ a) args o (letter b'a' ((==_iff y b'a').0 e)))
          (branch (y == b'b') _ _
            (λ e. workers-Ends 4 (x ∷ y ∷ a) args o (letter b'b' ((==_iff y b'b').0 e)))
            (branch (y == b'e') _ _ (λ e. two)
              (branch (y == b'g') _ _ (λ e. two)
                (branch (y == b'h') _ _ (λ e. two) (omega arith)))))))
  where
    letter : (c : ℕ) → y ≡ c → numbers_of y ≡ numbers_of c
    letter c e = ap numbers_of e

    two : 1 ≤ 2
    two = omega arith

LacksNumber-drop : (n : ℕ) (args : List Str) → LacksNumber (drop n args) → LacksNumber args
LacksNumber-drop zero args h = h
LacksNumber-drop (suc n) [] h = absurd h
LacksNumber-drop (suc n) (a ∷ args) h = inr (LacksNumber-drop n args h)

HasEmpty-drop : (n : ℕ) (args : List Str) → HasEmpty (drop n args) → HasEmpty args
HasEmpty-drop zero args h = h
HasEmpty-drop (suc n) [] h = absurd h
HasEmpty-drop (suc n) (a ∷ args) h = inr (HasEmpty-drop n args h)

-- nothing is left of the arguments
abbrev pub NoneLeft : List Str → Type 0
NoneLeft rest = rest ≡ []

Ends-weaken :
    (args more : List Str) (r : Result Options (List Str))
    → (HasEmpty args → HasEmpty more)
    → (LacksNumber args → LacksNumber more)
    → Ends NoneLeft args r
    → Ends NoneLeft more r
Ends-weaken args more (ok a o) h l g = g
Ends-weaken args more (asleep o) h l g = g
Ends-weaken args more (fault Fault.assertion o) h l g = g
Ends-weaken args more (fault Fault.null_pointer o) h l g = l g
Ends-weaken args more (fault Fault.out_of_bounds o) h l g = h g
Ends-weaken args more (fault Fault.out_of_fuel o) h l g = g

-- the rounds behind one that took arguments
rest-Ends :
    (a : Str) (args : List Str) (fuel : ℕ) (r : Result Options ℕ)
    → ((rest : List Str) (o : Options)
        → length rest ≤ fuel
        → Ends NoneLeft rest (option_loop fuel rest o))
    → length args ≤ fuel
    → Ends Positive (a ∷ args) r
    → Ends NoneLeft (a ∷ args) (and_then r (λ n. option_loop fuel (drop n (a ∷ args))))
rest-Ends a args fuel (ok zero o) ih h g = absurd (omega arith)
rest-Ends a args fuel (ok (suc n) o) ih h g =
    Ends-weaken (drop n args) (a ∷ args) _ (λ e. inr (HasEmpty-drop n args e))
      (λ l. inr (LacksNumber-drop n args l))
      (ih (drop n args) o (omega (arith, length-drop n args)))
rest-Ends a args fuel (asleep o) ih h g = g
rest-Ends a args fuel (fault Fault.assertion o) ih h g = g
rest-Ends a args fuel (fault Fault.null_pointer o) ih h g = g
rest-Ends a args fuel (fault Fault.out_of_bounds o) ih h g = g
rest-Ends a args fuel (fault Fault.out_of_fuel o) ih h g = g

option_loop-Ends :
    (fuel : ℕ) (args : List Str) (o : Options)
    → length args ≤ fuel
    → Ends NoneLeft args (option_loop fuel args o)
unfolding option_loop
option_loop-Ends zero [] o h = refl
option_loop-Ends (suc fuel) [] o h = refl
option_loop-Ends zero (a ∷ args) o h = absurd (omega arith)
option_loop-Ends (suc fuel) (a ∷ args) o h =
    rest-Ends a args fuel (take_option (a ∷ args) o) (option_loop-Ends fuel) (omega arith)
      (take_option-Ends a args o)

-- On every command line the loop comes to its end with no argument left, or it stops the program: at NULL, when fewer
-- arguments stand behind an option of the letter q, m, a or b than the one or two numbers that it reads, or out of the bounds of an argument, which only an empty argument causes.
pub main_options-Ends : (args : List Str) (o : Options) → Ends NoneLeft args (main_options args o)
unfolding main_options
main_options-Ends args o = option_loop-Ends (length args) args o (omega arith)
