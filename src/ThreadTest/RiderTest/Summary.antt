-- ===== src/ThreadTest/RiderTest/Summary.antt =====
-- What the riders of `TestElevatorRider` (threads/threadtest.cc) report, and the trips that they draw.
use os_lab_nachos.Base.{
  ℕ, ◌^◌, ◌+◌, ◌-◌, ◌%◌, ◌<◌, ◌≤◌, ◌≡◌, ◌≢◌, refl, sym, ◌∙◌, Option, some, false, Bool-cases, inl,
  inr, ◌⊎◌, List, [], ◌∷◌, ◌++◌, arith, ltb, ◌==◌, if◌then◌else◌, length,
}
use os_lab_nachos.ThreadTest.{num_floors, total_riders}
use os_lab_nachos.ThreadTest.RiderTest.{
  draw_trip, Floats, Report, Stats, init, average_of, finish, finish_all,
}

abbrev pub total : List (ℕ × ℕ) → ℕ
total [] = 0
total ((start_time, now) ∷ riders) = (now - start_time) + total riders

-- the turnaround times lie in this range
abbrev pub Within : ℕ → ℕ → List (ℕ × ℕ) → Type 0
Within low high [] = Unit {0}
Within low high ((start_time, now) ∷ riders) =
    (low ≤ now - start_time) × (now - start_time ≤ high) × Within low high riders

-- one of the turnaround times is `t`
abbrev pub Occurs : ℕ → List (ℕ × ℕ) → Type 0
Occurs t [] = ⊥
Occurs t ((start_time, now) ∷ riders) = (now - start_time ≡ t) ⊎ Occurs t riders

abbrev pub longer : ℕ → ℕ → ℕ
longer m t = if ltb m t then t else m

abbrev pub shorter : ℕ → ℕ → ℕ
shorter m t = if ltb t m then t else m

abbrev longest_from : List (ℕ × ℕ) → ℕ → ℕ
longest_from [] m = m
longest_from ((start_time, now) ∷ riders) m = longest_from riders (longer m (now - start_time))

abbrev shortest_from : List (ℕ × ℕ) → ℕ → ℕ
shortest_from [] m = m
shortest_from ((start_time, now) ∷ riders) m = shortest_from riders (shorter m (now - start_time))

longer_bounds : (m t : ℕ) → (m ≤ longer m t) × (t ≤ longer m t)
longer_bounds m t = ground arith

shorter_bounds : (m t : ℕ) → (shorter m t ≤ m) × (shorter m t ≤ t)
shorter_bounds m t = ground arith

longer_one : (m t : ℕ) → (longer m t ≡ m) ⊎ (t ≡ longer m t)
longer_one m t = elim (Bool-cases (ltb m t)) [ inl h ↦ rw h (inr refl) | inr h ↦ rw h (inl refl) ]

shorter_one : (m t : ℕ) → (shorter m t ≡ m) ⊎ (t ≡ shorter m t)
shorter_one m t = elim (Bool-cases (ltb t m)) [ inl h ↦ rw h (inr refl) | inr h ↦ rw h (inl refl) ]

longest-ge : (riders : List (ℕ × ℕ)) (m : ℕ) → m ≤ longest_from riders m
longest-ge [] m = omega arith
longest-ge ((s, n) ∷ riders) m =
    omega (arith, longest-ge riders (longer m (n - s)), longer_bounds m (n - s))

shortest-le : (riders : List (ℕ × ℕ)) (m : ℕ) → shortest_from riders m ≤ m
shortest-le [] m = omega arith
shortest-le ((s, n) ∷ riders) m =
    omega (arith, shortest-le riders (shorter m (n - s)), shorter_bounds m (n - s))

range :
    (riders : List (ℕ × ℕ)) (m k : ℕ)
    → Within (shortest_from riders m) (longest_from riders k) riders
range [] m k = tt
range ((s, n) ∷ riders) m k = (
  omega (arith, shortest-le riders (shorter m (n - s)), shorter_bounds m (n - s)),
  omega (arith, longest-ge riders (longer k (n - s)), longer_bounds k (n - s)),
  range riders (shorter m (n - s)) (longer k (n - s)),
)

longest-Occurs :
    (riders : List (ℕ × ℕ)) (m : ℕ)
    → (longest_from riders m ≡ m) ⊎ Occurs (longest_from riders m) riders
longest-Occurs [] m = inl refl
longest-Occurs ((s, n) ∷ riders) m = elim (longest-Occurs riders (longer m (n - s))) [
  | inl e ↦ elim (longer_one m (n - s)) [
    | inl old ↦ inl (e ∙ old)
    | inr new ↦ inr (inl (new ∙ sym e))
  ]
  | inr o ↦ inr (inr o)
]

shortest-Occurs :
    (riders : List (ℕ × ℕ)) (m : ℕ)
    → (shortest_from riders m ≡ m) ⊎ Occurs (shortest_from riders m) riders
shortest-Occurs [] m = inl refl
shortest-Occurs ((s, n) ∷ riders) m = elim (shortest-Occurs riders (shorter m (n - s))) [
  | inl e ↦ elim (shorter_one m (n - s)) [
    | inl old ↦ inl (e ∙ old)
    | inr new ↦ inr (inl (new ∙ sym e))
  ]
  | inr o ↦ inr (inr o)
]

not_yet : (n : ℕ) → n < total_riders → (n == total_riders) ≡ false
not_yet n h = ground arith

-- the searches end at a turnaround time
longest_from-Occurs :
    (riders : List (ℕ × ℕ)) → 0 < length riders → Occurs (longest_from riders 0) riders
longest_from-Occurs [] h = absurd (omega arith)
longest_from-Occurs ((a, b) ∷ riders) h = elim (longest-Occurs ((a, b) ∷ riders) 0) [
  | inl e ↦ inl (omega (arith, e, longest-ge riders (longer 0 (b - a)), longer_bounds 0 (b - a)))
  | inr o ↦ o
]

shortest_from-Occurs :
    (riders : List (ℕ × ℕ)) (m : ℕ)
    → 0 < length riders
    → Within 0 m riders
    → Occurs (shortest_from riders (m + 1)) riders
shortest_from-Occurs [] m h w = absurd (omega arith)
shortest_from-Occurs ((a, b) ∷ riders) m h w = elim (shortest-Occurs ((a, b) ∷ riders) (m + 1)) [
  | inl e ↦ absurd (
      omega (
        arith,
        e,
        w.1,
        shortest-le riders (shorter (m + 1) (b - a)),
        shorter_bounds (m + 1) (b - a),
      ))
  | inr o ↦ o
]

module _ (floats : Floats) where
  -- the report that the riders make, after earlier ones
  abbrev report : List (ℕ × ℕ) → Stats floats → Report floats
  report riders s = record {
    average = average_of floats (s.sumtime + total riders);
    longest = longest_from riders s.max_turnaroundtime;
    shortest = shortest_from riders s.min_turnaroundtime;
  }

  printed_before :
      (riders : List (ℕ × ℕ)) (s : Stats floats)
      → s.end_num + length riders < total_riders
      → (finish_all floats riders s).printed ≡ s.printed
  unfolding finish_all
  printed_before [] s h = refl
  printed_before ((a, b) ∷ riders) s h =
      printed_before riders (finish floats a b s) (omega arith)
      ∙ rw (not_yet (s.end_num + 1) (omega arith)) refl

  printed_after :
      (riders : List (ℕ × ℕ)) (s : Stats floats)
      → s.end_num < total_riders
      → s.end_num + length riders ≡ total_riders
      → (finish_all floats riders s).printed ≡ s.printed ++ report riders s ∷ []
  unfolding finish_all
  printed_after [] s h g = absurd (omega arith)
  printed_after ((a, b) ∷ []) s h g =
      let last : s.end_num + 1 ≡ total_riders = omega arith in
      let alone : (b - a) + 0 ≡ b - a = omega arith in rw (last, alone) refl
  printed_after ((a, b) ∷ c ∷ riders) s h g =
      let sums : s.sumtime + ((b - a) + total (c ∷ riders))
          ≡ s.sumtime + (b - a) + total (c ∷ riders) =
        omega arith in
      printed_after (c ∷ riders) (finish floats a b s) (omega arith) (omega arith)
      ∙ rw (not_yet (s.end_num + 1) (omega arith), sums) refl

  -- `total_riders` riders, in the order in which they finish and each with a turnaround time below the start of the
  -- minimum and all times together below 2^31, print one report: the float of the sum of their times divided by
  -- that of their number, one of the times that none exceeds, and one that none falls below.
  pub finish_all-printed :
      (riders : List (ℕ × ℕ))
      → length riders ≡ total_riders
      → Within 0 2147483644 riders
      → total riders < 2 ^ 31
      → (r : Report floats) × ((finish_all floats riders (init floats)).printed ≡ r ∷ [])
        × (r.average
            ≡ floats.divide (floats.to_float (total riders)) (floats.to_float (length riders)))
        × Within r.shortest r.longest riders
        × Occurs r.longest riders
        × Occurs r.shortest riders
  unfolding average_of
  finish_all-printed riders h w small = (
    report riders (init floats),
    printed_after riders (init floats) (omega arith) (omega arith),
    average_lem,
    range riders (init floats).min_turnaroundtime (init floats).max_turnaroundtime,
    longest_from-Occurs riders (omega arith),
    shortest_from-Occurs riders 2147483644 (omega arith) w,
  )
    where
      none_first : 0 + total riders ≡ total riders
      none_first = omega arith

      average_lem :
          average_of floats (0 + total riders)
          ≡ floats.divide (floats.to_float (total riders)) (floats.to_float (length riders))
      average_lem = rw (h, none_first) refl

  -- Fewer riders print nothing.
  pub finish_all_before :
      (riders : List (ℕ × ℕ))
      → length riders < total_riders
      → (finish_all floats riders (init floats)).printed ≡ []
  finish_all_before riders h = printed_before riders (init floats) (omega arith)

-- The trip that is drawn goes from one floor of the building to another.
pub draw_trip-some :
    (draws : List (ℕ × ℕ)) {srcfloor dstfloor : ℕ}
    → draw_trip draws ≡ some (srcfloor, dstfloor)
    → (srcfloor ≢ dstfloor) × (srcfloor < num_floors) × (dstfloor < num_floors)
unfolding draw_trip
draw_trip-some [] h = absurd cc
draw_trip-some ((r, s) ∷ draws) {srcfloor} {dstfloor} h =
    elim (Bool-cases (r % num_floors == s % num_floors)) [
      | inl same ↦ draw_trip-some draws (rw (← h, same) refl)
      | inr apart ↦
          let e : ◌≡◌ {A = Option (ℕ × ℕ)} (some (r % num_floors, s % num_floors))
              (some (srcfloor, dstfloor)) =
            rw (← h, apart) refl in
          drawn r s srcfloor dstfloor apart e
    ]
  where
    drawn :
        (r s a b : ℕ)
        → (r % num_floors == s % num_floors) ≡ false
        → ◌≡◌ {A = Option (ℕ × ℕ)} (some (r % num_floors, s % num_floors)) (some (a, b))
        → (a ≢ b) × (a < num_floors) × (b < num_floors)
    drawn r s a b h e = (λ same. ground arith, ground arith, ground arith)
