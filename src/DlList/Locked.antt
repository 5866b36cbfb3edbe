-- ===== src/DlList/Locked.antt =====
-- A method takes the lock, runs its body and gives the lock back.
use os_lab_nachos.Base.{ℕ, ◌≡◌, refl, none, some, arith, List, [], ◌∷◌, true, false}
use os_lab_nachos.Base.Exec.{Returns, Result, ok, asleep, fault, and_then, pure, ◌>>◌}
use os_lab_nachos.Monitor.{acquire, release}
use os_lab_nachos.DlList.Heap.{DlList}
use os_lab_nachos.DlList.{locking, is_empty}
use os_lab_nachos.DlList.Chain.{Cell, IsList}

abbrev pub relocked : DlList → DlList
relocked d = record d { lock = none }

module _ (me : ℕ) (d : DlList) where
  abbrev pub entered : DlList
  entered = record d { lock = some me }

  pub entering : d.lock ≡ none → locking (acquire me) d ≡ ok tt entered
  unfolding acquire
  entering free = ground arith

  pub exiting : d.lock ≡ some me → locking (release me) d ≡ ok tt (relocked d)
  unfolding release
  exiting held = ground arith

  pub entered-IsList : {xs : List Cell} → IsList d xs → IsList entered xs
  entered-IsList is = record {
    linked = is.linked;
    first = is.first;
    last = is.last;
    distinct = is.distinct;
    below = is.below;
    count = is.count;
  }

pub relocked-IsList : {d : DlList} {xs : List Cell} → IsList d xs → IsList (relocked d) xs
relocked-IsList is = record {
  linked = is.linked;
  first = is.first;
  last = is.last;
  distinct = is.distinct;
  below = is.below;
  count = is.count;
}

module _ (me : ℕ) {A : Type 0} (P : A → DlList → Type 0) where
  -- What a body must achieve under the lock.
  abbrev pub Body : Result DlList A → Type 0
  Body = Returns (λ a d. P a (relocked d) × (d.lock ≡ some me))

  pub leaving :
      (r : Result DlList A)
      → Body r
      → Returns (λ a d. P a d × (d.lock ≡ none)) (and_then r (λ a. locking (release me) >> pure a))
  leaving (ok a d) h = rw (exiting me d h.1) (h.0, refl)
  leaving (asleep d) h = h
  leaving (fault e d) h = h

pub leaving_unit :
    (me : ℕ) (P : Unit {0} → DlList → Type 0) (r : Result DlList (Unit {0}))
    → Body me P r
    → Returns (λ a d. P a d × (d.lock ≡ none)) (and_then r (λ _. locking (release me)))
leaving_unit me P (ok a d) h = rw (exiting me d h.1) (h.0, refl)
leaving_unit me P (asleep d) h = h
leaving_unit me P (fault e d) h = h

pub is_empty-nil : {d : DlList} → IsList d [] → is_empty d ≡ true
unfolding is_empty
is_empty-nil is = ground (arith, is.first, is.last)

pub is_empty-cons :
    {d : DlList} {c : Cell} {xs : List Cell} → IsList d (c ∷ xs) → is_empty d ≡ false
unfolding is_empty
is_empty-cons {d} {c} {xs} is = ground (arith, is.first, is.below.0)
