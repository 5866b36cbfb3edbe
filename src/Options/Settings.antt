-- ===== src/Options/Settings.antt =====
-- Command lines of `main` (threads/main.cc) in which each option has its values, and what they set.
use os_lab_nachos.Base.{
  ℕ, zero, suc, ◌<◌, ◌^◌, ◌%◌, true, ltb, ap, lt→ltb, List, [], ◌∷◌, ◌++◌, ◌≡◌, refl, ◌∙◌, arith,
  length, drop,
}
use os_lab_nachos.Base.Exec.{ok, fault, null_pointer}
use os_lab_nachos.Base.Int.{ℤ, pos}
use os_lab_nachos.Base.Text.{Str, decimal, atoi-decimal}
use os_lab_nachos.Options.{Options, as_int, take_option, option_loop, main_options}

-- the tests that take two numbers, and those that take none
pub data Pair : Type 0 where
  dllist table boundedbuffer : Pair

pub data Plain : Type 0 where
  barrier alarm elevator : Plain

-- `-q n`; `-m p c` and its like; `-e` and its like
pub data Setting : Type 0 where
  test : ℕ → Setting
  pair : Pair → (p c : ℕ) → Setting
  plain : Plain → Setting

abbrev pub option : ℕ → Str
option letter = b'-' ∷ letter ∷ []

abbrev pub pair_letter : Pair → ℕ
pair_letter dllist = b'm'
pair_letter table = b'a'
pair_letter boundedbuffer = b'b'

abbrev pair_test : Pair → ℕ
pair_test dllist = 2
pair_test table = 3
pair_test boundedbuffer = 4

abbrev pub plain_letter : Plain → ℕ
plain_letter barrier = b'e'
plain_letter alarm = b'g'
plain_letter elevator = b'h'

abbrev plain_test : Plain → ℕ
plain_test barrier = 5
plain_test alarm = 6
plain_test elevator = 7

abbrev pub render : Setting → List Str
render (test n) = option b'q' ∷ decimal n ∷ []
render (pair k p c) = option (pair_letter k) ∷ decimal p ∷ decimal c ∷ []
render (plain k) = option (plain_letter k) ∷ []

-- An option and the argument that stands between it and the next one; after `-q n` none does.
abbrev pub render_before : Setting → Str → List Str
render_before (test n) skipped = render (test n)
render_before (pair k p c) skipped = option (pair_letter k) ∷ decimal p ∷ decimal c ∷ skipped ∷ []
render_before (plain k) skipped = option (plain_letter k) ∷ skipped ∷ []

abbrev pub line : List (Setting × Str) → Setting → List Str
line [] last = render last
line ((s, skipped) ∷ ss) last = render_before s skipped ++ line ss last

-- what an option sets, where `value` is what becomes of a number
abbrev pub apply_by : (ℕ → ℤ) → Setting → Options → Options
apply_by value (test n) o = record o { testnum = value n }
apply_by value (pair k p c) o = record {
  testnum = pos (pair_test k);
  producersnum = value p;
  consumersnum = value c;
}
apply_by value (plain k) o = record o { testnum = pos (plain_test k) }

abbrev pub apply_all_by : (ℕ → ℤ) → List (Setting × Str) → Setting → Options → Options
apply_all_by value [] last o = apply_by value last o
apply_all_by value ((s, _) ∷ ss) last o = apply_all_by value ss last (apply_by value s o)

abbrev pub apply_all : List (Setting × Str) → Setting → Options → Options
apply_all = apply_all_by pos

-- the int that a printed number is read as
abbrev pub int_value : ℕ → ℤ
int_value n = as_int (pos n)

pub int_value-fits : (n : ℕ) → n < 2 ^ 31 → int_value n ≡ pos n
unfolding as_int
int_value-fits n h =
    let long : ltb n (2 ^ 63) ≡ true = lt→ltb n (2 ^ 63) (omega arith) in
    let whole : n % 2 ^ 32 ≡ n = omega arith in rw (long, whole, lt→ltb n (2 ^ 31) h) refl

-- the numbers of an option are ints
abbrev pub Fits : Setting → Type 0
Fits (test n) = n < 2 ^ 31
Fits (pair k p c) = (p < 2 ^ 31) × (c < 2 ^ 31)
Fits (plain k) = Unit {0}

abbrev pub AllFit : List (Setting × Str) → Setting → Type 0
AllFit [] last = Fits last
AllFit ((s, _) ∷ ss) last = Fits s × AllFit ss last

apply-Fits : (s : Setting) (o : Options) → Fits s → apply_by int_value s o ≡ apply_by pos s o
apply-Fits (test n) o h = rw (int_value-fits n h) refl
apply-Fits (pair k p c) o h = rw (int_value-fits p h.0, int_value-fits c h.1) refl
apply-Fits (plain k) o h = refl

apply_all-AllFit :
    (ss : List (Setting × Str)) (last : Setting) (o : Options)
    → AllFit ss last
    → apply_all_by int_value ss last o ≡ apply_all ss last o
apply_all-AllFit [] last o h = apply-Fits last o h
apply_all-AllFit ((s, _) ∷ ss) last o h =
    ap (apply_all_by int_value ss last) (apply-Fits s o h.0) ∙ apply_all-AllFit ss last _ h.1

-- An option with two numbers at the end sets everything.
pub apply_all-pair :
    (value : ℕ → ℤ) (ss : List (Setting × Str)) (k : Pair) (p c : ℕ) (o : Options)
    → value p ≡ pos p
    → value c ≡ pos c
    → apply_all_by value ss (pair k p c) o ≡ apply_all ss (pair k p c) o
apply_all-pair value [] k p c o h g = rw (h, g) refl
apply_all-pair value ((s, _) ∷ ss) k p c o h g =
    apply_all-pair value ss k p c (apply_by value s o) h g
    ∙ same ss (apply_by value s o) (apply_by pos s o)
  where
    same :
        (ss : List (Setting × Str)) (o o' : Options)
        → apply_all ss (pair k p c) o ≡ apply_all ss (pair k p c) o'
    same [] o o' = refl
    same ((s, _) ∷ ss) o o' = same ss (apply_by pos s o) (apply_by pos s o')

-- how many arguments an option takes from the line
abbrev taken : Setting → ℕ
taken (test n) = 2
taken (pair k p c) = 4
taken (plain k) = 2

take_option-render :
    (s : Setting) (rest : List Str) (o : Options)
    → take_option (render s ++ rest) o ≡ ok (taken s) (apply_by int_value s o)
unfolding take_option
take_option-render (test n) rest o = rw (atoi-decimal n) refl
take_option-render (pair dllist p c) rest o = rw (atoi-decimal p, atoi-decimal c) refl
take_option-render (pair table p c) rest o = rw (atoi-decimal p, atoi-decimal c) refl
take_option-render (pair boundedbuffer p c) rest o = rw (atoi-decimal p, atoi-decimal c) refl
take_option-render (plain barrier) rest o = refl
take_option-render (plain alarm) rest o = refl
take_option-render (plain elevator) rest o = refl

loop_nil : (fuel : ℕ) (o : Options) → option_loop fuel [] o ≡ ok [] o
unfolding option_loop
loop_nil zero o = refl
loop_nil (suc fuel) o = refl

-- One round of the loop takes the option in front, with its values and the argument behind them.
loop_render :
    (s : Setting) (fuel : ℕ) (rest : List Str) (o : Options)
    → option_loop (suc fuel) (render s ++ rest) o
      ≡ option_loop fuel (drop (taken s) (render s ++ rest)) (apply_by int_value s o)
unfolding option_loop
loop_render (test n) fuel rest o = rw (take_option-render (test n) rest o) refl
loop_render (pair k p c) fuel rest o = rw (take_option-render (pair k p c) rest o) refl
loop_render (plain k) fuel rest o = rw (take_option-render (plain k) rest o) refl

loop_last :
    (s : Setting) (fuel : ℕ) (o : Options)
    → option_loop (suc fuel) (render s) o ≡ ok [] (apply_by int_value s o)
loop_last (test n) fuel o = loop_render (test n) fuel [] o ∙ loop_nil fuel _
loop_last (pair k p c) fuel o = loop_render (pair k p c) fuel [] o ∙ loop_nil fuel _
loop_last (plain k) fuel o = loop_render (plain k) fuel [] o ∙ loop_nil fuel _

loop_before :
    (s : Setting) (skipped : Str) (fuel : ℕ) (rest : List Str) (o : Options)
    → option_loop (suc fuel) (render_before s skipped ++ rest) o
      ≡ option_loop fuel rest (apply_by int_value s o)
loop_before (test n) skipped fuel rest o = loop_render (test n) fuel rest o
loop_before (pair k p c) skipped fuel rest o = loop_render (pair k p c) fuel (skipped ∷ rest) o
loop_before (plain k) skipped fuel rest o = loop_render (plain k) fuel (skipped ∷ rest) o

option_loop-line :
    (ss : List (Setting × Str)) (last : Setting) (fuel : ℕ) (o : Options)
    → length ss < fuel
    → option_loop fuel (line ss last) o ≡ ok [] (apply_all_by int_value ss last o)
option_loop-line ss last zero o h = absurd (omega arith)
option_loop-line [] last (suc fuel) o h = loop_last last fuel o
option_loop-line ((s, skipped) ∷ ss) last (suc fuel) o h =
    loop_before s skipped fuel (line ss last) o
    ∙ option_loop-line ss last fuel (apply_by int_value s o) (omega arith)

length-line : (ss : List (Setting × Str)) (last : Setting) → length ss < length (line ss last)
length-line [] (test n) = omega arith
length-line [] (pair k p c) = omega arith
length-line [] (plain k) = omega arith
length-line ((test n, skipped) ∷ ss) last = omega (arith, length-line ss last)
length-line ((pair k p c, skipped) ∷ ss) last = omega (arith, length-line ss last)
length-line ((plain k, skipped) ∷ ss) last = omega (arith, length-line ss last)

pub main_options-read :
    (ss : List (Setting × Str)) (last : Setting) (o : Options)
    → main_options (line ss last) o ≡ ok [] (apply_all_by int_value ss last o)
unfolding main_options
main_options-read ss last o = option_loop-line ss last _ o (length-line ss last)

-- A command line of options `-q n`, `-m p c`, `-a p c`, `-b p c`, `-e`, `-g` and `-h`, its numbers below
-- 2^31 and printed in decimal, and any further argument behind each option but `-q n` and the last one, is read to its end:
-- the later options overwrite the earlier ones, and the further arguments have no effect.
pub main_options-line :
    (ss : List (Setting × Str)) (last : Setting) (o : Options)
    → AllFit ss last
    → main_options (line ss last) o ≡ ok [] (apply_all ss last o)
main_options-line ss last o h =
    main_options-read ss last o ∙ ap (ok []) (apply_all-AllFit ss last o h)

-- `-d flags`, which `Initialize` reads, is read by `main` too: where the second letter of the flags
-- is an option's that takes numbers, `main` reads a number behind the last argument.
pub main_options_flags :
    (first : ℕ) (flags : Str) (o : Options)
    → main_options (option b'd' ∷ (first ∷ b'q' ∷ flags) ∷ []) o
      ≡ fault null_pointer (record o { testnum = pos 1 })
unfolding main_options take_option
main_options_flags first flags o = refl
