-- ===== src/Driver.antt =====
-- threads/dllist-driver.cc: a list filled at random and emptied from its head. What `Random` returns,
-- and where the letters lie in memory, are arguments.
mod Tests
use mathlib.Core.List.{Perm}
use mathlib.Core.List.Perm
use os_lab_nachos.Base.{
  ℕ, zero, suc, ◌+◌, ◌%◌, ◌<◌, ◌≤◌, ◌≡◌, ◌≢◌, refl, ap, sym, ◌∙◌, none, true, false, List, [], ◌∷◌,
  ◌++◌, map, arith, Bool-cases, ltb, inl, inr, length, take, drop, ◌==◌, if◌then◌else◌,
  append_assoc, append-nil,
}
use os_lab_nachos.Base.Exec.{
  Cmd, Result, Returns, Returns-mono, Returns-bind, ok, asleep, fault, and_then, pure, ◌>>=◌, ◌>>◌,
}
use os_lab_nachos.Base.Int.{int}
use os_lab_nachos.DlList.Heap.{null, DlList}
use os_lab_nachos.DlList.{sorted_insert, remove}
use os_lab_nachos.DlList.Chain.{Holds}
use os_lab_nachos.DlList.Insert.{inserted, length-inserted, sorted_insert_lem}
use mathlib.Core.Path.{subst}
use os_lab_nachos.DlList.Remove.{NoNull, NoNull-inserted, ne_null, popped, remove_lem}
use os_lab_nachos.DlList.Sorted.{IsSorted, inserted-IsSorted, inserted-perm}

module _ (items me : ℕ) where
  -- the key and the item that one round draws
  abbrev pub drawn : ℕ × ℕ → ℕ × ℕ
  drawn (r, s) = (items + s % 26, int (r % 1001))

  -- `RandomGenerateList`; the list holds the two numbers that `Random` returns in each round.
  unfoldable pub random_generate_list : List (ℕ × ℕ) → Cmd DlList (Unit {0})
  random_generate_list [] = pure tt
  random_generate_list ((r, s) ∷ rounds) = do
    sorted_insert me (items + s % 26) (int (r % 1001))
    random_generate_list rounds

  -- `RemoveFromHead`: the lines printed, an item and its key each, behind those printed before.
  unfoldable pub remove_from_head : ℕ → List (ℕ × ℕ) → Cmd DlList (List (ℕ × ℕ))
  remove_from_head zero out = pure out
  remove_from_head (suc n) out = do
    (item, key) ← remove me true
    let rest = remove_from_head n (out ++ (item, key) ∷ [])
    if item == null then pure out else rest

  -- what has been printed and what is left, after `n` rounds on a list that holds `l`
  abbrev pub Printed : ℕ → List (ℕ × ℕ) → List (ℕ × ℕ) → List (ℕ × ℕ) → DlList → Type 0
  Printed n l out printed d = (printed ≡ out ++ take n l) × Holds d (drop n l) × (d.lock ≡ none)

  -- `RemoveFromHead` of `n` items prints the first `n` entries, or all if there are fewer, and leaves
  -- the others.
  pub remove_from_head_lem :
      (n : ℕ) (d : DlList) (l out : List (ℕ × ℕ))
      → Holds d l
      → d.lock ≡ none
      → NoNull l
      → Returns (Printed n l out) (remove_from_head n out d)
  unfolding remove_from_head
  remove_from_head_lem zero d l out holds free real = (sym (append-nil out), holds, free)
  remove_from_head_lem (suc n) d [] out holds free real =
      Returns-bind (λ r d'. ((r ≡ (null, 0)) × Holds d' []) × (d'.lock ≡ none)) _ (remove me true d)
        _ (remove_lem me d [] holds free)
        λ r d' (got, still). rw (ap (λ (q : ℕ × ℕ). q.0) got.0) (sym (append-nil out), got.1, still)
  remove_from_head_lem (suc n) d ((v, k) ∷ l) out holds free real =
      Returns-bind (λ r d'. ((r ≡ (v, k)) × Holds d' l) × (d'.lock ≡ none)) _ (remove me true d) _
        (remove_lem me d ((v, k) ∷ l) holds free)
        λ r d' (got, still).
          subst
            (λ (q : ℕ × ℕ).
              Returns (Printed (suc n) ((v, k) ∷ l) out) (
                (if q.0 == null then pure out else remove_from_head n (out ++ (q.0, q.1) ∷ [])) d'))
            (sym got.0)
            (rw (ne_null v real.0) (
              Returns-mono (Printed n l (out ++ (v, k) ∷ [])) _ _
                (λ printed e h. (h.0 ∙ append_assoc out ((v, k) ∷ []) (take n l), h.1, h.2))
                (remove_from_head_lem n d' l (out ++ (v, k) ∷ []) got.1 still real.1)))

  -- the entries drawn in these rounds, the last in front
  abbrev pub all_drawn : List (ℕ × ℕ) → List (ℕ × ℕ) → List (ℕ × ℕ)
  all_drawn [] bag = bag
  all_drawn (r ∷ rounds) bag = all_drawn rounds (drawn r ∷ bag)

  length-all_drawn :
      (rounds bag : List (ℕ × ℕ)) → length (all_drawn rounds bag) ≡ length rounds + length bag
  length-all_drawn [] bag = omega arith
  length-all_drawn (r ∷ rounds) bag = omega (arith, length-all_drawn rounds (drawn r ∷ bag))

  take_all : (n : ℕ) (l : List (ℕ × ℕ)) → length l ≤ n → (take n l ≡ l) × (drop n l ≡ [])
  take_all zero [] h = (refl, refl)
  take_all zero (e ∷ l) h = absurd (omega arith)
  take_all (suc n) [] h = (refl, refl)
  take_all (suc n) (e ∷ l) h =
      let rest = take_all n l (omega arith) in (ap (λ (r : List (ℕ × ℕ)). e ∷ r) rest.0, rest.1)

  -- A list in order that holds real items, these ones in some order.
  abbrev pub Filled : List (ℕ × ℕ) → DlList → Type 0
  Filled bag d =
      (l : List (ℕ × ℕ)) × Holds d l
      × IsSorted l
      × Perm l bag
      × NoNull l
      × (length l ≡ length bag)
      × (d.lock ≡ none)

  generate_Filled :
      (rounds : List (ℕ × ℕ)) (bag : List (ℕ × ℕ)) (d : DlList)
      → 0 < items
      → Filled bag d
      → Returns (λ _ d'. Filled (all_drawn rounds bag) d') (random_generate_list rounds d)
  unfolding random_generate_list
  generate_Filled [] bag d pos f = f
  generate_Filled ((r, s) ∷ rounds) bag d pos (l, holds, sorted, perm, real, count, free) =
      Returns-bind (λ _ d'. Holds d' (inserted v k l) × (d'.lock ≡ none)) _ (sorted_insert me v k d)
        _ (sorted_insert_lem me v k d l holds free)
        λ _ d' h. generate_Filled rounds ((v, k) ∷ bag) d' pos (
          inserted v k l,
          h.0,
          inserted-IsSorted v k l sorted,
          Perm.trans (inserted-perm v k l) (Perm.cons (v, k) perm),
          NoNull-inserted v k l (omega arith) real,
          omega (arith, length-inserted v k l, count),
          h.1,
        )
    where
      v : ℕ
      v = items + s % 26

      k : ℕ
      k = int (r % 1001)

  -- Filling an empty list at random and removing as many items prints the drawn entries, none lost and
  -- none made up, in the order of their keys, and leaves the list empty.
  pub generate_then_remove :
      (rounds : List (ℕ × ℕ)) (d : DlList)
      → 0 < items
      → Holds d []
      → d.lock ≡ none
      → Returns
          (λ printed d'. IsSorted printed × Perm printed (all_drawn rounds []) × Holds d' [])
          (and_then (random_generate_list rounds d) (λ _. remove_from_head (length rounds) []))
  generate_then_remove rounds d pos holds free =
      Returns-bind (λ _ d'. Filled (all_drawn rounds []) d') _ (random_generate_list rounds d) _
        (generate_Filled rounds [] d pos ([], holds, tt, Perm.refl [], tt, refl, free))
        λ _ d' (l, holds', sorted, perm, real, count, free').
          let all = take_all (length rounds) l (omega (arith, length-all_drawn rounds [])) in
          Returns-mono (Printed (length rounds) l []) _ _
            (λ printed e h. (
              subst IsSorted (sym (h.0 ∙ all.0)) sorted,
              subst (λ (r : List (ℕ × ℕ)). Perm r (all_drawn rounds [])) (sym (h.0 ∙ all.0)) perm,
              subst (Holds e) all.1 h.1,
            ))
            (remove_from_head_lem (length rounds) d' l [] holds' free' real)
