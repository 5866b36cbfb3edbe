-- ===== src/Options/Tests.antt =====
-- The command lines at concrete inputs.
use os_lab_nachos.Base.{◌≡◌, refl, List, [], ◌∷◌, arith, some, true}
use os_lab_nachos.Base.Exec.{ok, fault, null_pointer}
use os_lab_nachos.Base.Int.{pos}
use os_lab_nachos.Base.Text.{Str, codes, decimal}
use os_lab_nachos.Options.{defaults, main_options}
use os_lab_nachos.Options.Settings.{
  Setting, Pair, Plain, test, pair, plain, line, main_options-line, main_options_flags,
}
use os_lab_nachos.Options.Total.{Ends, NoneLeft, main_options-Ends}
use os_lab_nachos.Options.System.{no_flags, initialize, flags}
use os_lab_nachos.Options.System.Line
use os_lab_nachos.Options.System.Line.{Flag, AllOther, initialize-line}
use os_lab_nachos.Options.System.Total

abbrev earlier : List (Setting × Str)
earlier = (pair Pair.table 3 4, codes "x") ∷ (plain Plain.alarm, codes "-rs") ∷ []

main_options-line_example :
    main_options (line earlier (test 7)) defaults
    ≡ ok [] (record { testnum = pos 7; producersnum = pos 3; consumersnum = pos 4 })
main_options-line_example =
    main_options-line earlier (test 7) defaults ((omega arith, omega arith), (tt, omega arith))

line_text :
    line earlier (test 7)
    ≡ codes "-a"
      ∷ codes "3"
      ∷ codes "4"
      ∷ codes "x"
      ∷ codes "-g"
      ∷ codes "-rs"
      ∷ codes "-q"
      ∷ codes "7"
      ∷ []
unfolding decimal
line_text = refl

main_options-Ends_example :
    Ends NoneLeft
      (codes "-m" ∷ codes "2" ∷ [])
      (main_options (codes "-m" ∷ codes "2" ∷ []) defaults)
main_options-Ends_example = main_options-Ends (codes "-m" ∷ codes "2" ∷ []) defaults

flags_run : main_options (codes "-d" ∷ codes "tq" ∷ []) defaults ≡ fault null_pointer defaults
flags_run = main_options_flags b't' [] defaults

abbrev settings : List Flag
settings = Flag.random_seed 42 ∷ Flag.other (codes "-q") ∷ Flag.other (codes "3") ∷ []

settings-AllOther : AllOther settings
settings-AllOther = (tt, ((refl, refl), ((refl, refl), tt)))

initialize-line_example :
    initialize (Line.line settings true) no_flags
    ≡ ok
        (Line.made (Line.apply_all settings true no_flags))
        (record { debug_args = codes "+"; random_yield = true; seed = some (pos 42) })
initialize-line_example = initialize-line settings true settings-AllOther

flags_run_seed : Total.Ends (λ _. Unit {0}) (codes "-rs" ∷ []) (flags (codes "-rs" ∷ []) no_flags)
flags_run_seed = Total.flags-Ends (codes "-rs" ∷ []) no_flags
