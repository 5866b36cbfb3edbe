-- ===== src/Elevator/Control/Range.antt =====
-- Whether the elevator that `ElevatorControl` (threads/Elevator.cc) moves stays at the floors of its
-- building.
use mathlib.Core.Path.{subst}
use os_lab_nachos.Base.{
  ℕ, zero, suc, ◌≡◌, ◌≢◌, ◌+◌, ◌-◌, ◌≤◌, ◌<◌, refl, ap, sym, ◌∙◌, ◌⊎◌, inl, inr, Bool, true, false,
  ◌&&◌, ◌||◌, not, arith, ◌==◌, Bool-cases,
}
use os_lab_nachos.Base.Int.{ℤ, pos, minus_one}
use os_lab_nachos.Elevator.State.{ElevatorState, up, down, stop}
use os_lab_nachos.Elevator.Calls.{same_floor}
use os_lab_nachos.Elevator.Control.{
  Pc, Seen, Control, look, halted, decide, loop, doors_loop, visit_loop, relook, arrived,
  doors_turn, turn_look, visit_turn, doors_on, visit_on, step, is_none, below, opposite, branch,
}

-- -1, or a floor from `lo` on and below `hi`
abbrev pub NoneOrIn : ℕ → ℕ → ℤ → Type 0
NoneOrIn lo hi d = (d ≡ minus_one) ⊎ ((m : ℕ) × (d ≡ pos m) × (lo ≤ m) × (m < hi))

-- What `GetLastRequestFloor` can return in a building of `n` floors to an elevator at floor `i`.
abbrev pub Within : ElevatorState → ℕ → ℕ → ℤ → Type 0
Within stop n i = NoneOrIn 0 n
Within up n i = NoneOrIn i n
Within down n i = NoneOrIn 0 (i + 1)

-- The floor `i` is the last one on the way.
abbrev pub AtEnd : ElevatorState → ℕ → ℕ → Type 0
AtEnd stop n i = ⊥
AtEnd up n i = i + 1 ≡ n
AtEnd down n i = i ≡ 0

abbrev pub CanMove : ElevatorState → ℕ → ℕ → Type 0
CanMove stop n i = ⊥
CanMove up n i = i + 1 < n
CanMove down n i = 0 < i

abbrev pub Moving : ElevatorState → Type 0
Moving stop = ⊥
Moving _ = Unit {0}

-- What a stretch may see: nobody waits to go on beyond the last floor, and an elevator that has turned
-- and served its floor at the end of the building finds no request there again.
abbrev pub Sees : ℕ → ℕ → Pc → ElevatorState → Seen → Type 0
Sees n i pc st seen =
    Within st n i seen.last_request_floor
    × (AtEnd st n i → seen.same_way ≡ false)
    × (pc ≡ turn_look → AtEnd st n i → seen.last_request_floor ≡ minus_one)

abbrev pub PcOk : Pc → ElevatorState → ℕ → ℕ → ℤ → Type 0
PcOk look st n i d = Unit {0}
PcOk halted st n i d = Unit {0}
PcOk decide st n i d = Unit {0}
PcOk loop st n i d = Moving st × Within st n i d
PcOk doors_loop st n i d = CanMove st n i
PcOk visit_loop st n i d = CanMove st n i
PcOk relook st n i d = Moving st
PcOk arrived st n i d = Moving st
PcOk doors_turn st n i d = Moving st
PcOk turn_look st n i d = Moving st
PcOk visit_turn st n i d = CanMove st n i
PcOk doors_on st n i d = CanMove st n i
PcOk visit_on st n i d = CanMove st n i

-- The elevator stands at a floor of the building, and can make the move that it is about to make.
abbrev pub InRange : ℕ → Control → Type 0
InRange n c = (i : ℕ) × (c.current_floor ≡ pos i) × (i < n) × PcOk c.pc c.state n i c.dest_floor

abbrev pub at_floor : Pc → ElevatorState → ℕ → ℤ → Bool → Control
at_floor pc st i d flag = record {
  pc = pc;
  state = st;
  current_floor = pos i;
  dest_floor = d;
  no_requset_flag = flag;
}

end_or_move : (st : ElevatorState) (n i : ℕ) → Moving st → i < n → AtEnd st n i ⊎ CanMove st n i
end_or_move up n i m h = elim (Bool-cases (i + 1 == n)) [
  | inl t ↦ inl (ground arith)
  | inr f ↦ inr (ground arith)
]
end_or_move down n i m h = elim (Bool-cases (i == 0)) [
  | inl t ↦ inl (ground arith)
  | inr f ↦ inr (ground arith)
]
end_or_move stop n i m h = absurd m

opposite-Moving : (st : ElevatorState) → Moving st → Moving (opposite st)
opposite-Moving up m = tt
opposite-Moving down m = tt
opposite-Moving stop m = m

none_fails :
    (i : ℕ) (d : ℤ) → d ≡ minus_one → (not (same_floor (pos i) d) && not (is_none d)) ≢ true
none_fails i d e =
    subst (λ d. (not (same_floor (pos i) d) && not (is_none d)) ≢ true) (sym e)
      (fails (not (same_floor (pos i) minus_one)))
  where
    fails : (b : Bool) → (b && false) ≢ true
    fails b h = ground arith

other_floor : (i k : ℕ) → (not (same_floor (pos i) (pos k)) && not (is_none (pos k))) ≡ true → i ≢ k
other_floor i k h e = ground arith

-- The test of the inner loop passes only with a floor ahead.
loop_test-CanMove :
    (st : ElevatorState) (n i : ℕ) (d : ℤ)
    → Moving st
    → Within st n i d
    → (not (same_floor (pos i) d) && not (is_none d)) ≡ true
    → CanMove st n i
loop_test-CanMove up n i d m (inl e) t = absurd (none_fails i d e t)
loop_test-CanMove up n i d m (inr (k, e, lo, hi)) t =
    let differs =
      other_floor i k (subst (λ d. (not (same_floor (pos i) d) && not (is_none d)) ≡ true) e t) in
    ahead i k n differs lo hi
  where
    ahead : (i k n : ℕ) → i ≢ k → i ≤ k → k < n → i + 1 < n
    ahead i k n differs h g = ground arith
loop_test-CanMove down n i d m (inl e) t = absurd (none_fails i d e t)
loop_test-CanMove down n i d m (inr (k, e, lo, hi)) t =
    let differs =
      other_floor i k (subst (λ d. (not (same_floor (pos i) d) && not (is_none d)) ≡ true) e t) in
    ahead i k differs hi
  where
    ahead : (i k : ℕ) → i ≢ k → k < i + 1 → 0 < i
    ahead i k differs h = ground arith
loop_test-CanMove stop n i d m w t = absurd m

differ : true ≢ false
differ h = absurd cc

below_lem : (i : ℕ) → 0 < i → below (pos i) ≡ pos (i - 1)
below_lem zero h = absurd (omega arith)
below_lem (suc i) h = ap pos (omega arith)

module _ (n i : ℕ) (seen : Seen) where
  branch-PcOk : (st : ElevatorState) (d : ℤ) → Within st n i d → PcOk (branch st) st n i d
  branch-PcOk stop d w = tt
  branch-PcOk up d w = (tt, w)
  branch-PcOk down d w = (tt, w)

  pub step_at-InRange :
      (pc : Pc) (st : ElevatorState) (d : ℤ) (flag : Bool)
      → i < n
      → PcOk pc st n i d
      → Sees n i pc st seen
      → InRange n (step seen (at_floor pc st i d flag))
  unfolding step
  step_at-InRange look st d flag h ok_here sees = (i, refl, h, branch-PcOk st _ sees.0)
  step_at-InRange halted st d flag h ok_here sees = (i, refl, h, tt)
  step_at-InRange decide st d flag h ok_here sees = (i, refl, h, tt)
  step_at-InRange loop st d flag h (moving, within) sees =
      elim (Bool-cases (not (same_floor (pos i) d) && not (is_none d))) [
        | inl t ↦
            let can = loop_test-CanMove st n i d moving within t in
            rw t (elim (Bool-cases (seen.same_way || seen.gets_out)) [
              | inl s ↦ rw s (i, refl, h, can)
              | inr s ↦ rw s (i, refl, h, can)
            ])
        | inr f ↦ rw f (i, refl, h, moving)
      ]
  step_at-InRange doors_loop st d flag h can sees = (i, refl, h, can)
  step_at-InRange visit_loop up d flag h can sees = (i + 1, refl, can, tt)
  step_at-InRange visit_loop down d flag h can sees = (i - 1, below_lem i can, omega arith, tt)
  step_at-InRange visit_loop stop d flag h can sees = absurd can
  step_at-InRange relook st d flag h moving sees = (i, refl, h, (moving, sees.0))
  step_at-InRange arrived st d flag h moving sees = elim (Bool-cases (is_none d)) [
    | inl t ↦
        rw t
          (elim (Bool-cases flag) [ inl s ↦ rw s (i, refl, h, tt) | inr s ↦ rw s (i, refl, h, tt) ])
    | inr f ↦ rw f (elim (Bool-cases seen.same_way) [
      | inl s ↦ elim (end_or_move st n i moving h) [
        | inl at_end ↦ absurd (differ (sym s ∙ sees.1 at_end))
        | inr can ↦ rw s (i, refl, h, can)
      ]
      | inr s ↦ rw s (i, refl, h, opposite-Moving st moving)
    ])
  ]
  step_at-InRange doors_turn st d flag h moving sees = (i, refl, h, moving)
  step_at-InRange turn_look st d flag h moving sees =
      elim (Bool-cases (is_none seen.last_request_floor)) [
        | inl t ↦ rw t (i, refl, h, tt)
        | inr f ↦ elim (end_or_move st n i moving h) [
          | inl at_end ↦ absurd (differ (sym (ap is_none (sees.2 refl at_end)) ∙ f))
          | inr can ↦ rw f (i, refl, h, can)
        ]
      ]
  step_at-InRange visit_turn up d flag h can sees = (i + 1, refl, can, tt)
  step_at-InRange visit_turn down d flag h can sees = (i - 1, below_lem i can, omega arith, tt)
  step_at-InRange visit_turn stop d flag h can sees = absurd can
  step_at-InRange doors_on st d flag h can sees = (i, refl, h, can)
  step_at-InRange visit_on up d flag h can sees = (i + 1, refl, can, tt)
  step_at-InRange visit_on down d flag h can sees = (i - 1, below_lem i can, omega arith, tt)
  step_at-InRange visit_on stop d flag h can sees = absurd can
