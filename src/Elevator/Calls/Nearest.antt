-- ===== src/Elevator/Calls/Nearest.antt =====
-- The elevator that `CallUp` and `CallDown` (threads/Elevator.cc) signal, and the one that a rider
-- boards.
use mathlib.Core.Path.{subst}
use os_lab_nachos.Base.{
  ℕ, zero, suc, ◌≡◌, ◌+◌, ◌≤◌, ◌<◌, refl, ap, ◌∙◌, ◌⊎◌, inl, inr, Bool, true, false, ◌&&◌, ◌||◌,
  Option, none, some, List, [], ◌∷◌, arith, ltb, Bool-cases, get_elem?, length, set, same_self,
}
use os_lab_nachos.Base.Exec.{Returns, ok}
use os_lab_nachos.Monitor.{signal}
use os_lab_nachos.Base.Int.{ℤ, pos, minus_one}
use os_lab_nachos.Elevator.State.{ElevatorState, Elevator, Building, on_elevator_lem}
use os_lab_nachos.Elevator.Calls.{
  distance, same_floor, is_stop, nearest, boarding, choose, call_up, call_down,
}

closer : (s : Bool) (a n : ℕ) → (s && ltb a n) ≡ true → (s ≡ true) × (a < n)
closer s a n h = ground arith

not_closer : (s : Bool) (a n : ℕ) → (s && ltb a n) ≡ false → s ≡ true → n ≤ a
not_closer s a n h t = ground arith

module _ (from : ℤ) where
  abbrev pub away : Elevator → ℕ
  away e = distance e.current_floor from

  -- Every stopped elevator is at least `n` floors away.
  abbrev pub NoneCloser : ℕ → List Elevator → Type 0
  NoneCloser n l =
      (k : ℕ) (e : Elevator) → get_elem? l k ≡ some e → is_stop e.state ≡ true → n ≤ away e

  -- The elevator `m` has stopped, less than `n` floors away, and no stopped one is closer.
  abbrev pub Best : ℕ → List Elevator → ℕ → Type 0
  Best n l m =
      (e : Elevator) × (get_elem? l m ≡ some e)
      × (is_stop e.state ≡ true)
      × (away e < n)
      × NoneCloser (away e) l

  NoneCloser-cons :
      (n : ℕ) (e : Elevator) (l : List Elevator)
      → (is_stop e.state ≡ true → n ≤ away e)
      → NoneCloser n l
      → NoneCloser n (e ∷ l)
  NoneCloser-cons n e l first rest zero e' at stopped =
      let same_one : e ≡ e' = cc in
      subst (λ (e : Elevator). is_stop e.state ≡ true → n ≤ away e) same_one first stopped
  NoneCloser-cons n e l first rest (suc k) e' at stopped = rest k e' at stopped

  Best-cons :
      (n n' : ℕ) (e : Elevator) (l : List Elevator) (m : ℕ)
      → n ≤ n'
      → (is_stop e.state ≡ true → n ≤ away e)
      → Best n l m
      → Best n' (e ∷ l) (suc m)
  Best-cons n n' e l m h first (e', at, stopped, closer, best) =
      (e', at, stopped, omega arith, NoneCloser-cons (away e') e l (λ s. farther (first s)) best)
    where
      farther : n ≤ away e → away e' ≤ away e
      farther g = omega (arith, g, closer)

  -- what the loop has found, from elevator `i` on
  abbrev pub Picked : List Elevator → ℕ → ℕ → ℤ → ℤ → Type 0
  Picked l i n chosen r =
      ((r ≡ chosen) × NoneCloser n l) ⊎ ((m : ℕ) × (r ≡ pos (i + m)) × Best n l m)

  nearest_lem :
      (l : List Elevator) (i n : ℕ) (chosen : ℤ) → Picked l i n chosen (nearest from l i n chosen)
  unfolding nearest
  nearest_lem [] i n chosen = inl (refl, λ k e at stopped. absurd cc)
  nearest_lem (e ∷ l) i n chosen = elim (Bool-cases (is_stop e.state && ltb (away e) n)) [
    | inl t ↦ rw t (taken (nearest_lem l (i + 1) (away e) (pos i)) (both e n t))
    | inr f ↦ rw f (passed (nearest_lem l (i + 1) n chosen) (not_both e n f))
  ]
    where
      both :
          (e : Elevator) (n : ℕ)
          → (is_stop e.state && ltb (away e) n) ≡ true
          → (is_stop e.state ≡ true) × (away e < n)
      both e n h = closer (is_stop e.state) (away e) n h

      not_both :
          (e : Elevator) (n : ℕ)
          → (is_stop e.state && ltb (away e) n) ≡ false
          → is_stop e.state ≡ true
          → n ≤ away e
      not_both e n h s = not_closer (is_stop e.state) (away e) n h s

      taken :
          {r : ℤ}
          → Picked l (i + 1) (away e) (pos i) r
          → (is_stop e.state ≡ true) × (away e < n)
          → Picked (e ∷ l) i n chosen r
      taken (inl (found, none_closer)) (stopped, near) = inr (
        0,
        found ∙ ap pos (omega arith),
        (e, refl, stopped, near, NoneCloser-cons (away e) e l (λ s. omega arith) none_closer),
      )
      taken (inr (m, found, best)) (stopped, near) = inr (
        suc m,
        found ∙ ap pos (omega arith),
        Best-cons (away e) n e l m (omega (arith, near)) (λ s. omega arith) best,
      )

      passed :
          {r : ℤ}
          → Picked l (i + 1) n chosen r
          → (is_stop e.state ≡ true → n ≤ away e)
          → Picked (e ∷ l) i n chosen r
      passed (inl (found, none_closer)) far = inl (found, NoneCloser-cons n e l far none_closer)
      passed (inr (m, found, best)) far =
          inr (suc m, found ∙ ap pos (omega arith), Best-cons n n e l m (omega arith) far best)

  -- what a call leaves of the building
  abbrev pub Called : Building → Building → Type 0
  Called b b' =
      ((b' ≡ b) × NoneCloser (b.num_floors + 1) b.elevator)
      ⊎ ((m : ℕ) × (best : Best (b.num_floors + 1) b.elevator m) × (b' ≡ record b {
        elevator = set b.elevator m (record best.0 { have_request = signal best.0.have_request });
      }))

  call_down_lem :
      (me : ℕ) (b : Building)
      → b.building_lock ≡ none
      → Returns (λ _ b'. Called b b') (call_down me from b)
  unfolding call_down
  call_down_lem me b free = elim (nearest_lem b.elevator 0 (b.num_floors + 1) minus_one) [
    | inl (found, none_closer) ↦ rw (free, found, same_self me) (inl (refl, none_closer))
    | inr (m, found, (e, at, stopped, near, best)) ↦
        let found' : nearest from b.elevator 0 (b.num_floors + 1) minus_one ≡ pos m =
          found ∙ ap pos (omega arith) in
        rw
          (
            free,
            found',
            same_self me,
            on_elevator_lem {X = Unit {0}} m
                (λ e. ok tt (record e { have_request = signal e.have_request }))
                (record b { building_lock = some me }) e at,
            same_self me,
          )
          (inr (m, (e, at, stopped, near, best), refl))
  ]

  -- `CallUp` and `CallDown`, called with the building's lock free, return with it free. They signal the
  -- stopped elevator that is nearest to the floor; nobody is signalled, and nothing changes, when no
  -- elevator has stopped within as many floors as the building has.
  pub call-Called :
      (me : ℕ) (b : Building)
      → b.building_lock ≡ none
      → Returns (λ _ b'. Called b b') (call_up me from b)
        × Returns (λ _ b'. Called b b') (call_down me from b)
  unfolding call_up call_down
  call-Called me b free = (call_down_lem me b free, call_down_lem me b free)

-- The first elevator at the floor that a rider may board; the loop leaves `re` unset when none is.
abbrev pub boards : (ElevatorState → Bool) → ℤ → Elevator → Bool
boards goes from e =
    same_floor e.current_floor from && (goes e.state || is_stop e.state) && e.can_enter

abbrev pub NoneBoards : (ElevatorState → Bool) → ℤ → List Elevator → ℕ → Type 0
NoneBoards goes from l n =
    (k : ℕ) (e : Elevator) → k < n → get_elem? l k ≡ some e → boards goes from e ≡ false

-- `some (i + m)` with the first elevator that may be boarded, or `none` without any
abbrev pub Boarded : (ElevatorState → Bool) → ℤ → List Elevator → ℕ → Option ℕ → Type 0
Boarded goes from l i r =
    ((r ≡ none) × NoneBoards goes from l (length l))
    ⊎ ((m : ℕ) × (e : Elevator) × (r ≡ some (i + m))
        × (get_elem? l m ≡ some e)
        × (boards goes from e ≡ true)
        × NoneBoards goes from l m)

module _ (goes : ElevatorState → Bool) (from : ℤ) where
  NoneBoards-cons :
      (e : Elevator) (l : List Elevator) (n : ℕ)
      → boards goes from e ≡ false
      → NoneBoards goes from l n
      → NoneBoards goes from (e ∷ l) (suc n)
  NoneBoards-cons e l n first rest zero e' h at =
      let same_one : e ≡ e' = cc in
      subst (λ (e : Elevator). boards goes from e ≡ false) same_one first
  NoneBoards-cons e l n first rest (suc k) e' h at = rest k e' (omega arith) at

  boarding_lem : (l : List Elevator) (i : ℕ) → Boarded goes from l i (boarding goes from l i)
  unfolding boarding
  boarding_lem [] i = inl (refl, λ k e h at. absurd cc)
  boarding_lem (e ∷ l) i = elim (Bool-cases (boards goes from e)) [
    | inl t ↦ rw t (inr (0, e, ap some (omega arith), refl, t, λ k e' h at. absurd (omega arith)))
    | inr f ↦ rw f (passed (boarding_lem l (i + 1)) f)
  ]
    where
      passed :
          {r : Option ℕ}
          → Boarded goes from l (i + 1) r
          → boards goes from e ≡ false
          → Boarded goes from (e ∷ l) i r
      passed (inl (found, none_boards)) f =
          inl (found, NoneBoards-cons e l (length l) f none_boards)
      passed (inr (m, e', found, at, t, none_boards)) f =
          inr (suc m, e', found ∙ ap some (omega arith), at, t, NoneBoards-cons e l m f none_boards)

  -- A rider whom the barrier has let pass finds, with the building's lock free, the first elevator that
  -- is at the floor, goes the way or has stopped, and takes riders in; the code takes whatever the unset
  -- pointer holds when there is none. The building stays as it is.
  pub choose-Boarded :
      (me : ℕ) (b : Building)
      → b.building_lock ≡ none
      → Returns (λ r b'. Boarded goes from b.elevator 0 r × (b' ≡ b)) (choose me goes from b)
  unfolding choose
  choose-Boarded me b free = rw (free, same_self me) (boarding_lem b.elevator 0, refl)
