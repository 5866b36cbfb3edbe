-- ===== src/ThreadTest/ListTest.antt =====
-- The producers and consumers of threads/threadtest.cc on one DLList. A round is one turn of a thread's
-- loop; each calls one method, which holds the list's lock, so the turns of all threads come in some order.
use mathlib.Core.Path.{subst}
use mathlib.Core.List.{Perm, perm_middle}
use mathlib.Core.List.Perm
use os_lab_nachos.Base.{
  ℕ, zero, suc, ◌+◌, ◌%◌, ◌<◌, ◌≡◌, sym, ap, none, Bool, true, false, not, List, [], ◌∷◌, ◌++◌,
  arith, length, ◌==◌, append_assoc,
}
use os_lab_nachos.Base.Exec.{
  Cmd, Result, Returns, Returns-bind, Fault, ok, asleep, fault, and_then, pure, assert, ◌>>=◌, ◌>>◌,
}
use os_lab_nachos.Base.Int.{int}
use os_lab_nachos.DlList.Heap.{null, DlList}
use os_lab_nachos.DlList.{sorted_insert, remove}
use os_lab_nachos.DlList.Chain.{Holds}
use os_lab_nachos.DlList.Insert.{inserted, length-inserted, sorted_insert_lem}
use os_lab_nachos.DlList.Remove.{NoNull, NoNull-inserted, ne_null, remove_lem}
use os_lab_nachos.DlList.Sorted.{IsSorted, inserted-IsSorted, inserted-perm}

-- A turn of the thread `me`; a producer draws the key and the letter, and `items` is its array of letters.
pub data Round : Type 0 where
  produces : (me items key letter : ℕ) → Round
  consumes : (me : ℕ) → Round

-- the item and the key of a producer's round
abbrev pub drawn : ℕ → ℕ → ℕ → ℕ × ℕ
drawn items key letter = (items + letter % 26, int (key % 1001))

-- the body of the loop of `TestDllist_producer`
unfoldable pub produce : (me items key letter : ℕ) → Cmd DlList (Unit {0})
produce me items key letter = sorted_insert me (items + letter % 26) (int (key % 1001))

-- the body of the loop of `TestDllist_consumer`: the item and the key that it prints
unfoldable pub consume : (me : ℕ) → Cmd DlList (ℕ × ℕ)
consume me = do (item, key) ← remove me true; assert (not (item == null)); pure (item, key)

-- the rounds in their order, and what the consumers print behind `out`
unfoldable pub run : List Round → List (ℕ × ℕ) → Cmd DlList (List (ℕ × ℕ))
run [] out = pure out
run (produces me items key letter ∷ rounds) out = produce me items key letter >> run rounds out
run (consumes me ∷ rounds) out = do got ← consume me; run rounds (out ++ got ∷ [])

-- Every consumer's turn finds an item, where the list holds `n` at first.
abbrev pub enough : ℕ → List Round → Bool
enough n [] = true
enough n (produces me items key letter ∷ rounds) = enough (n + 1) rounds
enough zero (consumes me ∷ rounds) = false
enough (suc n) (consumes me ∷ rounds) = enough n rounds

-- the entries that the producers put in
abbrev pub produced : List Round → List (ℕ × ℕ) → List (ℕ × ℕ)
produced [] bag = bag
produced (produces me items key letter ∷ rounds) bag =
    produced rounds (drawn items key letter ∷ bag)
produced (consumes me ∷ rounds) bag = produced rounds bag

-- The letters lie at addresses.
abbrev pub Placed : List Round → Type 0
Placed [] = Unit {0}
Placed (produces me items key letter ∷ rounds) = (0 < items) × Placed rounds
Placed (consumes me ∷ rounds) = Placed rounds

-- What has been printed and what the list holds, in order, are the entries of `bag`.
abbrev pub Kept : List (ℕ × ℕ) → List (ℕ × ℕ) → DlList → Type 0
Kept bag out d = (l : List (ℕ × ℕ)) × Holds d l × (d.lock ≡ none) × IsSorted l × Perm (out ++ l) bag

-- the outcome of a run in which every consumer finds an item, and of one in which one does not
abbrev pub Outcome : Bool → List (ℕ × ℕ) → Result DlList (List (ℕ × ℕ)) → Type 0
Outcome true bag (ok out d) = Kept bag out d
Outcome false bag (fault Fault.assertion d) = Unit {0}
Outcome _ _ _ = ⊥

produced-perm :
    (v k : ℕ) (l out bag : List (ℕ × ℕ))
    → Perm (out ++ l) bag
    → Perm (out ++ inserted v k l) ((v, k) ∷ bag)
produced-perm v k l out bag p =
    Perm.trans (Perm.append_left out (inserted-perm v k l))
      (Perm.trans (perm_middle out l) (Perm.cons (v, k) p))

-- A consumer takes the entry of the least key, or the assertion stops it on an empty list.
consume-ok :
    (me : ℕ) (d : DlList) (v k : ℕ) (l : List (ℕ × ℕ))
    → Holds d ((v, k) ∷ l)
    → d.lock ≡ none
    → 0 < v
    → Returns (λ r d'. (r ≡ (v, k)) × Holds d' l × (d'.lock ≡ none)) (consume me d)
unfolding consume
consume-ok me d v k l holds free real =
    Returns-bind (λ r d'. ((r ≡ (v, k)) × Holds d' l) × (d'.lock ≡ none)) _ (remove me true d) _
      (remove_lem me d ((v, k) ∷ l) holds free)
      λ (w, j) d' (got, still).
        let e : w ≡ v = ap (λ (q : ℕ × ℕ). q.0) got.0 in
        rw (e, ne_null v real) (ap (λ (q : ℕ × ℕ). (v, q.1)) got.0, got.1, still)

-- The program stops at an assertion.
abbrev Asserts : {A : Type 0} → Result DlList A → Type 0
Asserts (fault Fault.assertion d) = Unit {0}
Asserts _ = ⊥

consume-nil : (me : ℕ) (d : DlList) → Holds d [] → d.lock ≡ none → Asserts (consume me d)
unfolding consume
consume-nil me d holds free = stops (remove me true d) (remove_lem me d [] holds free)
  where
    stops :
        (r : Result DlList (ℕ × ℕ))
        → Returns (λ r d'. ((r ≡ (null, 0)) × Holds d' []) × (d'.lock ≡ none)) r
        → Asserts {A = ℕ × ℕ}
            (and_then r (λ (item, key). assert (not (item == null)) >> pure (item, key)))
    stops (ok (w, j) d') (got, still) = let e : w ≡ null = ap (λ (q : ℕ × ℕ). q.0) got.0 in rw e tt
    stops (asleep d') h = absurd h
    stops (fault e d') h = absurd h

module _ (b : Bool) (bag : List (ℕ × ℕ)) where
  -- the rounds behind a call that returns
  Outcome-bind :
      {A : Type 0} (P : A → DlList → Type 0) (r : Result DlList A)
      (next : A → Cmd DlList (List (ℕ × ℕ)))
      → Returns P r
      → ((a : A) (d : DlList) → P a d → Outcome b bag (next a d))
      → Outcome b bag (and_then r next)
  Outcome-bind P (ok a d) next h then = then a d h
  Outcome-bind P (asleep d) next h then = absurd h
  Outcome-bind P (fault e d) next h then = absurd h

Outcome-Asserts :
    (bag : List (ℕ × ℕ)) (r : Result DlList (ℕ × ℕ)) (next : ℕ × ℕ → Cmd DlList (List (ℕ × ℕ)))
    → Asserts r
    → Outcome false bag (and_then r next)
Outcome-Asserts bag (ok a d) next h = absurd h
Outcome-Asserts bag (asleep d) next h = absurd h
Outcome-Asserts bag (fault Fault.assertion d) next h = tt
Outcome-Asserts bag (fault Fault.null_pointer d) next h = absurd h
Outcome-Asserts bag (fault Fault.out_of_bounds d) next h = absurd h
Outcome-Asserts bag (fault Fault.out_of_fuel d) next h = absurd h

run-Outcome :
    (rounds : List Round) (d : DlList) (l out bag : List (ℕ × ℕ))
    → Placed rounds
    → Holds d l
    → d.lock ≡ none
    → IsSorted l
    → NoNull l
    → Perm (out ++ l) bag
    → Outcome (enough (length l) rounds) (produced rounds bag) (run rounds out d)
unfolding run produce
run-Outcome [] d l out bag placed holds free sorted real perm = (l, holds, free, sorted, perm)
run-Outcome (produces me items key letter ∷ rounds) d l out bag placed holds free sorted real perm =
    Outcome-bind _ _ (λ _ d'. Holds d' (inserted v k l) × (d'.lock ≡ none)) _ _
      (sorted_insert_lem me v k d l holds free)
      λ _ d' (holds', free').
        subst (λ n. Outcome (enough n rounds) (produced rounds ((v, k) ∷ bag)) (run rounds out d'))
          (length-inserted v k l)
          (run-Outcome rounds d' (inserted v k l) out ((v, k) ∷ bag) placed.1 holds' free'
            (inserted-IsSorted v k l sorted) (NoNull-inserted v k l (omega (arith, placed.0)) real)
            (produced-perm v k l out bag perm))
  where
    v : ℕ
    v = items + letter % 26

    k : ℕ
    k = int (key % 1001)
run-Outcome (consumes me ∷ rounds) d [] out bag placed holds free sorted real perm =
    Outcome-Asserts (produced rounds bag) _ _ (consume-nil me d holds free)
run-Outcome (consumes me ∷ rounds) d ((v, k) ∷ l) out bag placed holds free sorted real perm =
    Outcome-bind _ _ (λ r d'. (r ≡ (v, k)) × Holds d' l × (d'.lock ≡ none)) _ _
      (consume-ok me d v k l holds free real.0)
      λ r d' (got, holds', free'). rw got (
        run-Outcome rounds d' l (out ++ (v, k) ∷ []) bag placed holds' free' sorted.1 real.1
          (subst (λ (q : List (ℕ × ℕ)). Perm q bag) (sym (append_assoc out ((v, k) ∷ []) l)) perm))

-- Turns of any producers and consumers in any order, from an empty list whose lock is free, the letters
-- lying at addresses: where each consumer's turn finds an item, what is printed and what the list then
-- holds are together the entries produced, none lost and none twice, and the list is in order of its keys
-- with its lock free; where a consumer's turn finds the list empty, the program stops at its assertion.
pub run-produced :
    (rounds : List Round) (d : DlList)
    → Placed rounds
    → Holds d []
    → d.lock ≡ none
    → Outcome (enough 0 rounds) (produced rounds []) (run rounds [] d)
run-produced rounds d placed holds free =
    run-Outcome rounds d [] [] [] placed holds free tt tt (Perm.refl [])
