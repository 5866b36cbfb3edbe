-- ===== src/Alarm/OnTime.antt =====
-- Which threads `CheckIfDue` of Alarm.antt wakes when its queue is in order of the times.
use mathlib.Core.Path.{subst}
use mathlib.Core.List.{Perm}
use mathlib.Core.List.Perm
use os_lab_nachos.Base.{
  ℕ, ◌≡◌, ◌≤◌, ◌<◌, ◌+◌, ◌^◌, refl, ap, ◌∙◌, false, List, [], ◌∷◌, ◌++◌, arith, Bool-cases, inl,
  inr, leb, length, if◌then◌else◌,
}
use os_lab_nachos.Base.Exec.{Returns, Returns-mono}
use os_lab_nachos.DlList.Remove.{NoNull}
use os_lab_nachos.DlList.Sorted.{AllGe, IsSorted, inserted-IsSorted, inserted-perm}
use os_lab_nachos.Alarm.{Alarm, check_if_due}
use os_lab_nachos.Alarm.Due.{is_due-leb}
use os_lab_nachos.Alarm.Queue.{SortedQueue}
use os_lab_nachos.Alarm.Wake.{drain, Drained, check_if_due_lem}

-- The threads whose time has come, and the entries whose time lies ahead.
abbrev pub due_items : ℕ → List (ℕ × ℕ) → List ℕ
due_items now [] = []
due_items now ((v, k) ∷ l) = if leb k now then v ∷ due_items now l else due_items now l

abbrev pub later : ℕ → List (ℕ × ℕ) → List (ℕ × ℕ)
later now [] = []
later now ((v, k) ∷ l) = if leb k now then later now l else (v, k) ∷ later now l

-- a time that is not negative
abbrev pub IsTime : ℕ → Type 0
IsTime t = (2 ^ 31 ≤ t) × (t < 2 ^ 32)

abbrev pub AllTimes : List (ℕ × ℕ) → Type 0
AllTimes [] = Unit {0}
AllTimes ((v, k) ∷ l) = IsTime k × AllTimes l

nothing_due :
    (now : ℕ) (k : ℕ) (l : List (ℕ × ℕ))
    → now < k
    → AllGe k l
    → (due_items now l ≡ []) × (later now l ≡ l)
nothing_due now k [] h ge = (refl, refl)
nothing_due now k ((v, j) ∷ l) h ge =
    let (a, b) = nothing_due now k l h ge.1 in
    rw (late now j (omega (arith, h, ge.0))) (a, ap (λ (r : List (ℕ × ℕ)). (v, j) ∷ r) b)
  where
    late : (now j : ℕ) → now < j → leb j now ≡ false
    late now j h = ground arith

drain_lem :
    (now : ℕ) (l : List (ℕ × ℕ))
    → IsTime now
    → AllTimes l
    → IsSorted l
    → ((drain now l).0 ≡ due_items now l)
      × IsSorted (drain now l).1
      × Perm (drain now l).1 (later now l)
drain_lem now [] time times sorted = (refl, tt, Perm.refl [])
drain_lem now ((v, k) ∷ l) time times sorted =
    rw (is_due-leb k now times.0.0 times.0.1 time.0 time.1) (elim (Bool-cases (leb k now)) [
      | inl t ↦
          let (a, b, c) = drain_lem now l time times.1 sorted.1 in
          rw t (ap (λ (r : List ℕ). v ∷ r) a, b, c)
      | inr f ↦
          let (a, b) = nothing_due now k l (later_than k now f) sorted.0 in
          rw (f, a, b) (refl, inserted-IsSorted v k l sorted.1, inserted-perm v k l)
    ])
  where
    later_than : (k now : ℕ) → leb k now ≡ false → now < k
    later_than k now h = ground arith

module _ (Q : SortedQueue) where
  -- On a queue in order of its times, none negative, `CheckIfDue` returns having handed on exactly the
  -- threads whose time has come, in order; exactly the others stay queued, still in order, and the count
  -- of waiters sinks by the number woken.
  pub check_if_due-on_time :
      (now : ℕ) (l : List (ℕ × ℕ)) (a : Alarm Q)
      → Q.Queued a.queue l
      → NoNull l
      → length l ≤ a.waiters
      → IsTime now
      → AllTimes l
      → IsSorted l
      → Returns
          (λ _ a'.
            (rest : List (ℕ × ℕ)) × Q.Queued a'.queue rest
            × IsSorted rest
            × Perm rest (later now l)
            × (a'.ready ≡ a.ready ++ due_items now l)
            × (a'.waiters + length (due_items now l) ≡ a.waiters))
          (check_if_due Q now a)
  check_if_due-on_time now l a queued real count time times sorted =
      let (woken, order, perm) = drain_lem now l time times sorted in
      Returns-mono (λ _ a'. Drained Q now l a a') _ (check_if_due Q now a)
        (λ _ a' h. (
          (drain now l).1,
          h.0,
          order,
          perm,
          h.1 ∙ ap (λ (r : List ℕ). a.ready ++ r) woken,
          subst (λ (r : List ℕ). a'.waiters + length r ≡ a.waiters) woken h.2,
        ))
        (check_if_due_lem Q now l a queued real count)
