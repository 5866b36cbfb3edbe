-- ===== src/Elevator/Requests/Turning.antt =====
-- `GetLastRequestFloor` (threads/Elevator.cc) on an elevator that stands at one of its floors.
use mathlib.Core.Path.{subst}
use os_lab_nachos.Base.{
  ℕ, zero, suc, ◌≡◌, ◌+◌, ◌-◌, ◌<◌, refl, sym, Bool, true, false, ◌||◌, Option, none, some, List,
  [], ◌∷◌, arith, same_self, length, get_or, get_elem?,
}
use os_lab_nachos.Base.Exec.{Returns}
use os_lab_nachos.Base.Int.{ℤ, pos}
use os_lab_nachos.Barrier.{EventBarrier, init}
use os_lab_nachos.Elevator.State.{ElevatorState, up, down, stop, Elevator}
use os_lab_nachos.Elevator.Requests.{
  busy, either, busy_at, requested, last_request, get_last_request_floor_of,
}
use os_lab_nachos.Elevator.Requests.Farthest.{
  IsLeast, IsGreatest, Found, scan_up_lem, scan_down_lem,
}

-- whether anybody waits at one of three barriers of a floor
abbrev pub wanted : (first second third : List EventBarrier) → ℕ → Bool
wanted first second third j =
    busy (get_or first j init) || busy (get_or second j init) || busy (get_or third j init)

-- The floor at which the elevator turns: the topmost request at or above it on the way up, the lowest
-- at or below it on the way down, the lowest of all when it has stopped; -1 without any.
abbrev pub IsTurning : ElevatorState → ℕ → ℕ → (up_b out_b down_b : List EventBarrier) → ℤ → Type 0
IsTurning stop floors c up_b out_b down_b = IsLeast (wanted up_b out_b down_b) 0 floors
IsTurning up floors c up_b out_b down_b = IsGreatest (wanted down_b out_b up_b) c floors
IsTurning down floors c up_b out_b down_b = IsLeast (wanted down_b out_b up_b) 0 (c + 1)

get_in_range :
    {A : Type 0} (l : List A) (j : ℕ) (d : A) → j < length l → get_elem? l j ≡ some (get_or l j d)
get_in_range [] j d h = absurd (omega arith)
get_in_range (a ∷ l) zero d h = refl
get_in_range (a ∷ l) (suc j) d h = get_in_range l j d (omega arith)

pub busy_at_lem :
    (l : List EventBarrier) (j : ℕ)
    → j < length l
    → busy_at l (pos j) ≡ some (busy (get_or l j init))
busy_at_lem l j h = rw (busy_at, get_in_range l j init h) refl

either_lem : (a b c : Bool) → either (some a) (either (some b) (some c)) ≡ some (a || b || c)
either_lem true b c = refl
either_lem false true c = refl
either_lem false false c = refl

requested_lem :
    (first second third : List EventBarrier) (j : ℕ)
    → j < length first
    → j < length second
    → j < length third
    → requested first second third (pos j) ≡ some (wanted first second third j)
unfolding requested
requested_lem first second third j h1 h2 h3 =
    rw (busy_at_lem first j h1, busy_at_lem second j h2, busy_at_lem third j h3) (either_lem _ _ _)

last_request_lem :
    (s : ElevatorState) (floors c : ℕ) (up_b out_b down_b : List EventBarrier)
    → length up_b ≡ floors
    → length out_b ≡ floors
    → length down_b ≡ floors
    → c < floors
    → Found
        (IsTurning s floors c up_b out_b down_b)
        (last_request s floors (pos c) up_b out_b down_b)
unfolding last_request
last_request_lem stop floors c u o d hu ho hd h =
    scan_up_lem (requested u o d) (wanted u o d) floors 0 floors (omega arith)
      (λ j _ g. requested_lem u o d j (omega arith) (omega arith) (omega arith))
last_request_lem up floors c u o d hu ho hd h =
    scan_down_lem (requested d o u) (wanted d o u) (floors - c) c floors (omega arith)
      (λ j _ g. requested_lem d o u j (omega arith) (omega arith) (omega arith))
last_request_lem down floors c u o d hu ho hd h =
    scan_up_lem (requested d o u) (wanted d o u) (c + 1) 0 (c + 1) (omega arith)
      (λ j _ g. requested_lem d o u j (omega arith) (omega arith) (omega arith))

-- `GetLastRequestFloor`, called with the elevator's lock free on an elevator at one of its floors, and
-- with as many barriers of each kind as floors, reads no barrier that is not there, returns the floor at
-- which the elevator turns, and leaves the elevator as it was.
pub get_last_request_floor-IsTurning :
    (me c : ℕ) (up_b down_b : List EventBarrier) (e : Elevator)
    → e.elevator_lock ≡ none
    → e.current_floor ≡ pos c
    → c < e.num_floors
    → length up_b ≡ e.num_floors
    → length e.out_barrier ≡ e.num_floors
    → length down_b ≡ e.num_floors
    → Returns
        (λ r e'. IsTurning e.state e.num_floors c up_b e.out_barrier down_b r × (e' ≡ e))
        (get_last_request_floor_of me up_b down_b e)
unfolding get_last_request_floor_of
get_last_request_floor-IsTurning me c up_b down_b e free here h hu ho hd =
    by_result (last_request e.state e.num_floors e.current_floor up_b e.out_barrier down_b) refl (
      subst
        (λ (f : ℤ). Found turning (last_request e.state e.num_floors f up_b e.out_barrier down_b))
        (sym here) (last_request_lem e.state e.num_floors c up_b e.out_barrier down_b hu ho hd h))
  where
    turning : ℤ → Type 0
    turning = IsTurning e.state e.num_floors c up_b e.out_barrier down_b

    by_result :
        (o : Option ℤ)
        → last_request e.state e.num_floors e.current_floor up_b e.out_barrier down_b ≡ o
        → Found turning o
        → Returns (λ r e'. turning r × (e' ≡ e)) (get_last_request_floor_of me up_b down_b e)
    by_result none found h = absurd h
    by_result (some r) found h = rw (free, found, same_self me) (h, refl)
