-- ===== src/Boot.antt =====
-- The whole of `main` (threads/main.cc) but the `Finish` of its thread: `Initialize` and the loop of
-- `main` read the same arguments.
mod Tests
use os_lab_nachos.Base.{
  ◌+◌, drop, if◌then◌else◌, ℕ, ◌≤◌, ◌≡◌, refl, ap, sym, ◌∙◌, Bool, false, List, [], ◌∷◌, ◌++◌, map,
  arith, ◌==◌,
}
use os_lab_nachos.Base.Exec.{Cmd, ok, lift, ◌>>=◌, ◌>>◌}
use os_lab_nachos.Base.Text.{Str, decimal, decimal-BeginsWithDigit}
use os_lab_nachos.Options.{Options}
use os_lab_nachos.Options.Settings
use os_lab_nachos.Options.Settings.{Setting, Pair, Plain, test, pair, plain}
use os_lab_nachos.Options.System.{str_eq, Flags, no_flags, Made, initialize}
use os_lab_nachos.Options.System.Line
use os_lab_nachos.Options.System.Line.{
  Flag, other, AllOther, debug_name, seed_name, made, initialize-line,
}
use os_lab_nachos.ThreadTest.{Kernel, main}
use os_lab_nachos.ThreadTest.Forks.{threads_of, main-pair}

abbrev copyright_name : Str
copyright_name = b'-' ∷ b'z' ∷ []

pub record Nachos : Type 0 where
  pub flags : Flags
  pub made : List Made
  pub kernel : Kernel
  pub copyrights : ℕ

-- the second loop of `main`: how often it prints the copyright message
unfoldable pub copyright_loop : List Str → ℕ
copyright_loop [] = 0
copyright_loop (a ∷ args) = (if str_eq a copyright_name then 1 else 0) + copyright_loop args

-- `main`, up to the `Finish` of its thread; the second loop starts with `argc--, argv++`, too.
unfoldable pub nachos : List Str → Cmd Nachos (Unit {0})
nachos args = do
  objects ← lift (λ n. n.flags) (λ f n. record n { flags = f }) (initialize args)
  λ n. ok tt (record n { made = objects })
  rest ← lift (λ n. n.kernel) (λ k n. record n { kernel = k }) (main args)
  λ n. ok tt (record n { copyrights = n.copyrights + copyright_loop (drop 1 rest) })

-- an argument that `Initialize` passes over
abbrev pub IsPassed : Str → Type 0
IsPassed a = (str_eq a debug_name ≡ false) × (str_eq a seed_name ≡ false)

abbrev pub AllPassed : List Str → Type 0
AllPassed [] = Unit {0}
AllPassed (a ∷ args) = IsPassed a × AllPassed args

-- the arguments between the options are such
abbrev pub BetweenPassed : List (Setting × Str) → Type 0
BetweenPassed [] = Unit {0}
BetweenPassed ((s, skipped) ∷ ss) = IsPassed skipped × BetweenPassed ss

number-IsPassed : (n : ℕ) → IsPassed (decimal n)
number-IsPassed n =
    let (c, r, e, low, high) = decimal-BeginsWithDigit n in
    let dash : (c == b'-') ≡ false = ground arith in rw e (rw dash (refl, refl))

pair_letter-IsPassed : (k : Pair) → IsPassed (Settings.option (Settings.pair_letter k))
pair_letter-IsPassed Pair.dllist = (refl, refl)
pair_letter-IsPassed Pair.table = (refl, refl)
pair_letter-IsPassed Pair.boundedbuffer = (refl, refl)

plain_letter-IsPassed : (k : Plain) → IsPassed (Settings.option (Settings.plain_letter k))
plain_letter-IsPassed Plain.barrier = (refl, refl)
plain_letter-IsPassed Plain.alarm = (refl, refl)
plain_letter-IsPassed Plain.elevator = (refl, refl)

-- `Initialize` passes over the options of `main`.
render_before-AllPassed :
    (s : Setting) (skipped : Str) (rest : List Str)
    → IsPassed skipped
    → AllPassed rest
    → AllPassed (Settings.render_before s skipped ++ rest)
render_before-AllPassed (test n) skipped rest h g = ((refl, refl), (number-IsPassed n, g))
render_before-AllPassed (pair k p c) skipped rest h g =
    (pair_letter-IsPassed k, (number-IsPassed p, (number-IsPassed c, (h, g))))
render_before-AllPassed (plain k) skipped rest h g = (plain_letter-IsPassed k, (h, g))

render-AllPassed : (s : Setting) → AllPassed (Settings.render s)
render-AllPassed (test n) = ((refl, refl), (number-IsPassed n, tt))
render-AllPassed (pair k p c) =
    (pair_letter-IsPassed k, (number-IsPassed p, (number-IsPassed c, tt)))
render-AllPassed (plain k) = (plain_letter-IsPassed k, tt)

line-AllPassed :
    (ss : List (Setting × Str)) (last : Setting)
    → BetweenPassed ss
    → AllPassed (Settings.line ss last)
line-AllPassed [] last h = render-AllPassed last
line-AllPassed ((s, skipped) ∷ ss) last h =
    render_before-AllPassed s skipped (Settings.line ss last) h.0 (line-AllPassed ss last h.1)

others-line : (args : List Str) → Line.line (map other args) false ≡ args
others-line [] = refl
others-line (a ∷ args) = ap (λ (l : List Str). a ∷ l) (others-line args)

others-apply : (args : List Str) (f : Flags) → Line.apply_all (map other args) false f ≡ f
others-apply [] f = refl
others-apply (a ∷ args) f = others-apply args f

AllPassed-others : (args : List Str) → AllPassed args → AllOther (map other args)
AllPassed-others [] h = tt
AllPassed-others (a ∷ args) h = (h.0, AllPassed-others args h.1)

initialize-passed :
    (args : List Str) → AllPassed args → initialize args no_flags ≡ ok (made no_flags) no_flags
initialize-passed args h =
    ap (λ l. initialize l no_flags) (sym (others-line args))
    ∙ initialize-line (map other args) false (AllPassed-others args h)
    ∙ ap (λ f. ok (made f) f) (others-apply args no_flags)

-- the program before `main`
abbrev pub fresh : Options → Nachos
fresh o = record {
  flags = no_flags;
  made = [];
  kernel = record { options = o; actions = [] };
  copyrights = 0;
}

-- A command line that ends with `-m p c`, `-a p c` or `-b p c`, with p and c up to 50 and no `-d` or `-rs` between
-- its options, makes the global objects with a timer that is not random and no debug flag set, and
-- then the list, the table or the buffer, p producers and c consumers, and prints no copyright message,
-- not even for a `-z` among the arguments.
pub nachos-pair :
    (ss : List (Setting × Str)) (k : Pair) (p c : ℕ) (o : Options)
    → BetweenPassed ss
    → p ≤ 50
    → c ≤ 50
    → nachos (Settings.line ss (pair k p c)) (fresh o)
      ≡ ok tt (record {
        flags = no_flags;
        made = made no_flags;
        kernel = record {
          options = Settings.apply_all ss (pair k p c) o;
          actions = threads_of k p c;
        };
        copyrights = 0;
      })
unfolding nachos copyright_loop
nachos-pair ss k p c o between h g =
    rw
      (
        initialize-passed (Settings.line ss (pair k p c)) (line-AllPassed ss (pair k p c) between),
        main-pair ss k p c o h g,
      )
      refl
