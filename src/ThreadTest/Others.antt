-- ===== src/ThreadTest/Others.antt =====
-- The remaining thread bodies of threads/threadtest.cc: what each does, in order. `draws` is what `rand`
-- returns in each turn of a loop.
use os_lab_nachos.Base.{
  ℕ, zero, suc, ◌+◌, ◌%◌, ◌≡◌, refl, Option, none, some, List, [], ◌∷◌, ◌++◌, ◌⊎◌, inl, inr,
  Bool-cases, ◌==◌, if◌then◌else◌,
}
use os_lab_nachos.Base.Text.{codes}
use os_lab_nachos.ThreadTest.{Body, Action, fork}

pub data Event : Type 0 where
  looped : (thread num : ℕ) → Event
  yield wait complete signal : Event
  pause : ℕ → Event
  forks : Action → Event

-- the loop of `SimpleThread` from `num` on
unfoldable pub simple_loop : (which rounds num : ℕ) → List Event
simple_loop which zero num = []
simple_loop which (suc rounds) num = looped which num ∷ yield ∷ simple_loop which rounds (num + 1)

-- `SimpleThread`
unfoldable pub simple_thread : ℕ → List Event
unfolding simple_loop
simple_thread which = simple_loop which 5 0

abbrev with_yield : Option (List Event) → Option (List Event)
with_yield none = none
with_yield (some events) = some (yield ∷ events)

abbrev then_do : List Event → Option (List Event) → Option (List Event)
then_do more none = none
then_do more (some events) = some (events ++ more)

-- The loops of `TestEventBarrier_runing` and `TestEventBarrier_signal`: a yield for each turn but the last,
-- which draws 50; nothing where no turn does.
unfoldable pub until_fifty : (range : ℕ) → List ℕ → Option (List Event)
until_fifty range [] = none
until_fifty range (r ∷ draws) =
    let rest = with_yield (until_fifty range draws) in if r % range == 50 then some [] else rest

-- `TestEventBarrier_runing`
unfoldable pub run_at_barrier : List ℕ → Option (List Event)
unfolding until_fifty
run_at_barrier draws = then_do (wait ∷ complete ∷ []) (until_fifty 100 draws)

-- `TestEventBarrier_signal`
unfoldable pub signal_barrier : List ℕ → Option (List Event)
unfolding until_fifty
signal_barrier draws = then_do (signal ∷ []) (until_fifty 200 draws)

-- `TestAlarm1`
unfoldable pub test_alarm1 : (time : ℕ) → List Event
test_alarm1 time = pause time ∷ []

-- `TestAlarm`
unfoldable pub test_alarm : (time : ℕ) → List Event
test_alarm time =
    pause time ∷ (if time == 3 then forks (fork (codes "thread 3") Body.alarm_again 2) ∷ [] else [])

-- one of the draws is 50 below this range
abbrev pub Hits : ℕ → List ℕ → Type 0
Hits range [] = ⊥
Hits range (r ∷ draws) = (r % range ≡ 50) ⊎ Hits range draws

until_fifty-some :
    (range : ℕ) (draws : List ℕ)
    → Hits range draws
    → (e : List Event) × (until_fifty range draws ≡ some e)
unfolding until_fifty
until_fifty-some range [] h = absurd h
until_fifty-some range (r ∷ draws) (inl h) = ([], rw h refl)
until_fifty-some range (r ∷ draws) (inr h) = elim (Bool-cases (r % range == 50)) [
  | inl t ↦ ([], rw t refl)
  | inr f ↦ let (e, eq) = until_fifty-some range draws h in (yield ∷ e, rw (f, eq) refl)
]

-- Once one of its draws is 50, a thread leaves its loop, and then waits at the barrier and completes.
pub run_at_barrier-some :
    (draws : List ℕ)
    → Hits 100 draws
    → (e : List Event) × (run_at_barrier draws ≡ some (e ++ wait ∷ complete ∷ []))
unfolding run_at_barrier
run_at_barrier-some draws h = let (e, eq) = until_fifty-some 100 draws h in (e, rw eq refl)
