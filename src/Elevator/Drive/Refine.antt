-- ===== src/Elevator/Drive/Refine.antt =====
-- `Elevator::ElevatorControl` (threads/Elevator.cc) on the elevator against the machine of Control.antt.
use os_lab_nachos.Base.{
  ◌-◌, if◌then◌else◌, ℕ, ◌≡◌, refl, ap, inl, inr, none, List, get_or, same_self, ltb, Bool-cases,
}
use os_lab_nachos.Base.Exec.{Result, Returns, ok, asleep, fault}
use os_lab_nachos.Base.Int.{ℤ}
use os_lab_nachos.Barrier.{EventBarrier, init}
use os_lab_nachos.Elevator.State.{Elevator}
use os_lab_nachos.Elevator.Requests.{busy, get_last_request_floor_of}
use os_lab_nachos.Elevator.Requests.Turning.{IsTurning, get_last_request_floor-IsTurning}
use os_lab_nachos.Elevator.Control.{Seen, decide}
use os_lab_nachos.Elevator.Drive.{Locals, way_of, halt_woken, same_way}
use os_lab_nachos.Elevator.Drive.View.{Placed}

returned :
    {S A : Type 0} (T : A → Type 0) (s : S) (r : Result S A)
    → Returns (λ a s'. T a × (s' ≡ s)) r
    → (a : A) × T a × (r ≡ ok a s)
returned T s (ok a s') (t, q) = (a, t, ap (ok a) q)
returned T s (asleep s') h = absurd h
returned T s (fault f s') h = absurd h

module _ (me i : ℕ) (up_b down_b : List EventBarrier) (e : Elevator)
    (at : Placed up_b down_b i e) where
  abbrev FoundFloor : Type 0
  FoundFloor =
      (r : ℤ) × IsTurning e.state e.num_floors i up_b e.out_barrier down_b r
      × (get_last_request_floor_of me up_b down_b e ≡ ok r e)

  finds : FoundFloor
  finds =
      returned (IsTurning e.state e.num_floors i up_b e.out_barrier down_b) e
        (get_last_request_floor_of me up_b down_b e)
        (get_last_request_floor-IsTurning me i up_b down_b e at.free at.here at.floor-InRange at.ups
          at.outs at.downs)

  abbrev seen : Seen
  seen = record {
    last_request_floor = finds.0;
    same_way = busy (get_or (way_of e.state up_b down_b) i init);
    gets_out = busy (get_or e.out_barrier i init);
  }

-- a stopped elevator that is woken, on a free lock
abbrev wakes_for_request : Elevator → Elevator
wakes_for_request e = record e {
  have_request = record e.have_request { wakeups = e.have_request.wakeups - 1 };
}

halt_woken_lem :
    (me : ℕ) (c : Locals) (e : Elevator)
    → e.elevator_lock ≡ none
    → halt_woken me c e ≡ (
        if ltb 0 e.have_request.wakeups
        then ok (record c { pc = decide }) (wakes_for_request e)
        else asleep e)
unfolding halt_woken
halt_woken_lem me c e free = elim (Bool-cases (ltb 0 e.have_request.wakeups)) [
  | inl t ↦ rw (t, free, same_self me) refl
  | inr f ↦ rw f refl
]
