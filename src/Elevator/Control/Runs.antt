-- ===== src/Elevator/Control/Runs.antt =====
-- The runs of `ElevatorControl` (threads/Elevator.cc), from its start on a new elevator.
use mathlib.Core.Path.{subst}
use os_lab_nachos.Base.{ℕ, ◌≡◌, ◌<◌, refl, sym, inl, inr, List}
use os_lab_nachos.Base.Int.{ℤ, pos}
use os_lab_nachos.Barrier.{EventBarrier}
use os_lab_nachos.Elevator.State.{ElevatorState, up, down, stop}
use os_lab_nachos.Elevator.Requests.Turning.{IsTurning}
use os_lab_nachos.Elevator.Control.{Seen, Control, step, begin}
use os_lab_nachos.Elevator.Control.Range.{Within, Sees, InRange, step_at-InRange}

-- The floor that `GetLastRequestFloor` returns is one that the control loop may see.
pub IsTurning-Within :
    (st : ElevatorState) (n c : ℕ) (up_b out_b down_b : List EventBarrier) (r : ℤ)
    → IsTurning st n c up_b out_b down_b r
    → Within st n c r
IsTurning-Within stop n c u o d r (inl (e, nowhere)) = inl e
IsTurning-Within stop n c u o d r (inr (m, e, lo, hi, w, nowhere)) = inr (m, e, lo, hi)
IsTurning-Within up n c u o d r (inl (e, nowhere)) = inl e
IsTurning-Within up n c u o d r (inr (m, e, lo, hi, w, nowhere)) = inr (m, e, lo, hi)
IsTurning-Within down n c u o d r (inl (e, nowhere)) = inl e
IsTurning-Within down n c u o d r (inr (m, e, lo, hi, w, nowhere)) = inr (m, e, lo, hi)

pub data Step (n : ℕ) (c : Control) : Control → Type 0 where
  runs :
      (seen : Seen) (i : ℕ)
      → c.current_floor ≡ pos i
      → Sees n i c.pc c.state seen
      → Step n c (step seen c)

pub data Reach (n : ℕ) : Control → Type 0 where
  start : Reach n begin
  later : {c c' : Control} → Reach n c → Step n c c' → Reach n c'

step-InRange : (n : ℕ) (c c' : Control) → InRange n c → Step n c c' → InRange n c'
step-InRange n c c' (i, here, h, ok_here) (runs seen j same_here sees) =
    let same_one : j ≡ i = cc in
    subst (λ (f : ℤ). InRange n (step seen (record c { current_floor = f }))) (sym here)
      (step_at-InRange n i seen c.pc c.state c.dest_floor c.no_requset_flag h ok_here
        (subst (λ (k : ℕ). Sees n k c.pc c.state seen) same_one sees))

-- In a building with a floor, whatever the requests are, the elevator stays at the floors and heads for
-- one whenever it moves, as long as nobody waits to go up at the top or down at the bottom, and no
-- request comes in at the last floor of its way while it turns there with its doors open.
pub control-InRange : (n : ℕ) (c : Control) → 0 < n → Reach n c → InRange n c
control-InRange n c h start = (0, refl, h, tt)
control-InRange n c h (later {c = b} reach s) = step-InRange n b c (control-InRange n b h reach) s
