-- ===== src/Boot/Tests.antt =====
-- The start of the program at a concrete command line.
use os_lab_nachos.Base.{◌≡◌, refl, List, [], ◌∷◌, arith}
use os_lab_nachos.Base.Exec.{ok}
use os_lab_nachos.Base.Int.{pos}
use os_lab_nachos.Base.Text.{Str, codes}
use os_lab_nachos.Options.{defaults}
use os_lab_nachos.Options.Settings
use os_lab_nachos.Options.Settings.{Setting, Pair, Plain, pair, plain}
use os_lab_nachos.Options.System.{no_flags}
use os_lab_nachos.Options.System.Line.{made}
use os_lab_nachos.ThreadTest.Forks.{threads_of}
use os_lab_nachos.Boot.{nachos, fresh, nachos-pair}

abbrev earlier : List (Setting × Str)
earlier = (plain Plain.alarm, codes "-z") ∷ []

nachos-pair_example :
    nachos (Settings.line earlier (pair Pair.boundedbuffer 2 3)) (fresh defaults)
    ≡ ok tt (record {
      flags = no_flags;
      made = made no_flags;
      kernel = record {
        options = record { testnum = pos 4; producersnum = pos 2; consumersnum = pos 3 };
        actions = threads_of Pair.boundedbuffer 2 3;
      };
      copyrights = 0;
    })
nachos-pair_example =
    nachos-pair earlier Pair.boundedbuffer 2 3 defaults ((refl, refl), tt) (omega arith)
      (omega arith)
