-- ===== src/ThreadTest/RiderTest.antt =====
-- `TestElevatorRider` of threads/threadtest.cc: the trip that a thread draws, the time at which it starts, and the
-- statistics that it adds to. Times are ticks, a rider finishes no earlier
-- than it starts, and the sum of the times fits an int.
pub mod Summary
use os_lab_nachos.Base.{
  ℕ, ◌+◌, ◌-◌, ◌%◌, ◌<◌, ◌≤◌, ◌≡◌, ◌≢◌, refl, sym, ◌∙◌, Option, none, some, false, Bool-cases, inl,
  inr, ◌⊎◌, List, [], ◌∷◌, ◌++◌, arith, ltb, ◌==◌, if◌then◌else◌, length,
}
use os_lab_nachos.ThreadTest.{num_floors, total_riders}

-- The loop that draws the two floors, on what `rand` returns for each pair; nothing when these run out.
unfoldable pub draw_trip : List (ℕ × ℕ) → Option (ℕ × ℕ)
draw_trip [] = none
draw_trip ((r, s) ∷ draws) =
    let rest = draw_trip draws in
    if r % num_floors == s % num_floors then rest else some (r % num_floors, s % num_floors)

-- The float arithmetic of the machine: the conversion of an int that is not negative, and `/`.
pub record Floats : Type 1 where
  pub Float : Type 0
  pub to_float : ℕ → Float
  pub divide : Float → Float → Float

-- the lines printed behind the last rider; the average is the float that `%.2f` prints
pub record Report (floats : Floats) : Type 0 where
  pub average : floats.Float
  pub longest : ℕ
  pub shortest : ℕ

-- the globals, and the reports printed
pub record Stats (floats : Floats) : Type 0 where
  pub sumtime : ℕ
  pub end_num : ℕ
  pub should_start_time : ℕ
  pub max_turnaroundtime : ℕ
  pub min_turnaroundtime : ℕ
  pub printed : List (Report floats)

module _ (floats : Floats) where
  abbrev pub init : Stats floats
  init = record {
    sumtime = 0;
    end_num = 0;
    should_start_time = 0;
    max_turnaroundtime = 0;
    min_turnaroundtime = 2147483645;
    printed = [];
  }

  -- `E_should_start_time += rand_time`, and what `Pause` is then given, where `rand` returned `r`
  unfoldable pub arrive : (r : ℕ) → Stats floats → ℕ × Stats floats
  arrive r s =
      let time = s.should_start_time + r % 2 in (time, record s { should_start_time = time })

  -- `(float)E_sumtime / total_riders`
  unfoldable pub average_of : ℕ → floats.Float
  average_of sum = floats.divide (floats.to_float sum) (floats.to_float total_riders)

  -- what follows the call of `rider`, at the time `now`
  unfoldable pub finish : (start_time now : ℕ) → Stats floats → Stats floats
  unfolding average_of
  finish start_time now s =
      let turnaroundtime = now - start_time in
      let longest =
        if ltb s.max_turnaroundtime turnaroundtime then turnaroundtime else s.max_turnaroundtime in
      let shortest =
        if ltb turnaroundtime s.min_turnaroundtime then turnaroundtime else s.min_turnaroundtime in
      let sum = s.sumtime + turnaroundtime in
      record s {
        sumtime = sum;
        end_num = s.end_num + 1;
        max_turnaroundtime = longest;
        min_turnaroundtime = shortest;
        printed =
            if s.end_num + 1 == total_riders
            then s.printed
              ++ record { average = average_of sum; longest = longest; shortest = shortest } ∷ []
            else s.printed;
      }

  -- riders that finish in this order
  unfoldable pub finish_all : List (ℕ × ℕ) → Stats floats → Stats floats
  unfolding finish
  finish_all [] s = s
  finish_all ((start_time, now) ∷ riders) s = finish_all riders (finish start_time now s)
