-- ===== src/DlList/SortedRemove.antt =====
-- `SortedRemove` on the items and keys that a list holds.
use mathlib.Core.Path.{subst}
use os_lab_nachos.Base.{
  ℕ, ◌<◌, ◌≡◌, ◌≢◌, refl, ◌∙◌, ap, sym, ◌⊎◌, inl, inr, Bool, true, none, some, List, [], ◌∷◌, ◌++◌,
  arith, ◌==◌, length, if◌then◌else◌, Bool-cases, ==_iff,
}
use os_lab_nachos.Base.Exec.{Returns, fault, null_pointer, ok}
use os_lab_nachos.DlList.Heap.{null, DlList}
use os_lab_nachos.DlList.{find, remove_body, sorted_remove}
use os_lab_nachos.DlList.Chain.{Cell, IsList, Holds, entries, head_of, Below-split}
use os_lab_nachos.DlList.Find.{upto, from, upto-append-from, find_lem}
use os_lab_nachos.DlList.Locked.{
  relocked-IsList, entered, entering, entered-IsList, is_empty-nil, is_empty-cons, leaving,
}
use os_lab_nachos.DlList.Unlink.{unlink_lem}
use os_lab_nachos.DlList.Branches.{unlink_alone}
use os_lab_nachos.DlList.Remove.{ne_null}

-- The entries without the first under a key, and the item of that one, NULL if there is none.
abbrev pub without : ℕ → List (ℕ × ℕ) → List (ℕ × ℕ)
without k [] = []
without k ((v, j) ∷ l) = if j == k then l else (v, j) ∷ without k l

abbrev pub item_at : ℕ → List (ℕ × ℕ) → ℕ
item_at k [] = null
item_at k ((v, j) ∷ l) = if j == k then v else item_at k l

abbrev test : ℕ → ℕ → Bool
test k j = j == k

-- no cell with the key, or the first one behind others
search_cases :
    (k : ℕ) (xs : List Cell)
    → ((from (test k) xs ≡ [])
        × (without k (entries xs) ≡ entries xs)
        × (item_at k (entries xs) ≡ null))
      ⊎ ((c : Cell) × (zs : List Cell) × (from (test k) xs ≡ c ∷ zs)
          × (without k (entries xs) ≡ entries (upto (test k) xs ++ zs))
          × (item_at k (entries xs) ≡ c.item))
search_cases k [] = inl (refl, refl, refl)
search_cases k (x ∷ xs) = elim (Bool-cases (x.key == k)) [
  | inl hit ↦ rw hit (inr (x, xs, refl, refl, refl))
  | inr miss ↦ rw miss (elim (search_cases k xs) [
    | inl (a, b, c) ↦ inl (a, ap (λ l. (x.item, x.key) ∷ l) b, c)
    | inr (c, zs, a, b, e) ↦ inr (c, zs, a, ap (λ l. (x.item, x.key) ∷ l) b, e)
  ])
]

module _ (d : DlList) (k : ℕ) (x : Cell) (xs : List Cell) (is : IsList d (x ∷ xs)) where
  found :
      (ws : List Cell)
      → from (test k) (x ∷ xs) ≡ ws
      → find (λ j. j == k) d.fresh d.first d ≡ ok (head_of ws null) d
  found ws e =
      ap (λ (p : ℕ). find (test k) d.fresh p d) is.first
      ∙ find_lem (test k) d null (x ∷ xs) d.fresh is.linked is.below is.count
      ∙ ap (λ (l : List Cell). ok (head_of l null) d) e

  remove_body_miss : from (test k) (x ∷ xs) ≡ [] → remove_body k d ≡ ok null d
  unfolding remove_body
  remove_body_miss e = rw (is_empty-cons is, found [] e)

  module _ (c : Cell) (zs : List Cell) (e : from (test k) (x ∷ xs) ≡ c ∷ zs) where
    abbrev ys : List Cell
    ys = upto (test k) (x ∷ xs)

    whole : ys ++ c ∷ zs ≡ x ∷ xs
    whole = ap (λ (l : List Cell). ys ++ l) (sym e) ∙ upto-append-from (test k) (x ∷ xs)

    split : IsList d (ys ++ c ∷ zs)
    split = subst (IsList d) (sym whole) is

    positive : null < c.address
    positive = (Below-split d.fresh ys (c ∷ zs) split.below).1.0

    remove_body_hit :
        1 < length (x ∷ xs)
        → (d' : DlList) × (remove_body k d ≡ ok c.item d')
          × IsList d' (ys ++ zs)
          × (d'.lock ≡ d.lock)
    unfolding remove_body
    remove_body_hit more =
        let (d', runs, is', loads, held) = unlink_lem d ys c zs split (rw whole more) in
        (
          d',
          rw (is_empty-cons is, found (c ∷ zs) e, ne_null c.address positive, runs, loads),
          is',
          held,
        )

remove_body_alone :
    (d : DlList) (k : ℕ) (x : Cell)
    → IsList d (x ∷ [])
    → (x.key == k) ≡ true
    → remove_body k d ≡ fault null_pointer (record d { first = null })
unfolding remove_body
remove_body_alone d k x is hit =
    rw (is_empty-cons is, found d k x [] is (x ∷ []) (rw hit), ne_null x.address is.below.0)
      (rw (unlink_alone d x.address _ is.below.0 (sym is.first) is.linked.0 refl))

remove_body_lem :
    (d : DlList) (k : ℕ) (xs : List Cell)
    → IsList d xs
    → (length xs ≢ 1) ⊎ (from (test k) xs ≡ [])
    → (d' : DlList) × (remove_body k d ≡ ok (item_at k (entries xs)) d')
      × Holds d' (without k (entries xs))
      × (d'.lock ≡ d.lock)
unfolding remove_body
remove_body_lem d k [] is more = (d, rw (is_empty-nil is), (_, is, refl), refl)
remove_body_lem d k (x ∷ xs) is more = elim (search_cases k (x ∷ xs)) [
  | inl (e, same, no_item) ↦ (
    d,
    remove_body_miss d k x xs is e ∙ ap (λ (v : ℕ). ok v d) (sym no_item),
    (_, is, sym same),
    refl,
  )
  | inr (c, zs, e, less, item) ↦
      let (d', runs, is', held) = remove_body_hit d k x xs is c zs e (several c zs e more) in
      (d', runs ∙ ap (λ (v : ℕ). ok v d') (sym item), (_, is', sym less), held)
]
  where
    several :
        (c : Cell) (zs : List Cell)
        → from (test k) (x ∷ xs) ≡ c ∷ zs
        → (length (x ∷ xs) ≢ 1) ⊎ (from (test k) (x ∷ xs) ≡ [])
        → 1 < length (x ∷ xs)
    several c zs e (inl ne) = omega arith
    several c zs e (inr none_there) = (let clash : c ∷ zs ≡ [] = sym e ∙ none_there in cc)

several_or_miss :
    (k : ℕ) (xs : List Cell)
    → ((v : ℕ) → entries xs ≢ (v, k) ∷ [])
    → (length xs ≢ 1) ⊎ (from (test k) xs ≡ [])
several_or_miss k [] not_alone = inr refl
several_or_miss k (x ∷ y ∷ xs) not_alone = inl (omega arith)
several_or_miss k (x ∷ []) not_alone = elim (Bool-cases (x.key == k)) [
  | inl hit ↦ absurd (not_alone x.item (ap (λ (j : ℕ). (x.item, j) ∷ []) ((==_iff x.key k).0 hit)))
  | inr miss ↦ inr (rw miss)
]

-- Unless the list is one entry with that key, `SortedRemove` returns the first item under the key, or
-- NULL if there is none, takes only that entry out, and leaves the lock free.
pub sorted_remove_lem :
    (me k : ℕ) (d : DlList) (l : List (ℕ × ℕ))
    → Holds d l
    → d.lock ≡ none
    → ((v : ℕ) → l ≢ (v, k) ∷ [])
    → Returns
        (λ r d'. ((r ≡ item_at k l) × Holds d' (without k l)) × (d'.lock ≡ none))
        (sorted_remove me k d)
unfolding sorted_remove
sorted_remove_lem me k d l (xs, is, e) free not_alone =
    let (d', runs, (ys, is', e'), held) =
      remove_body_lem (entered me d) k xs (entered-IsList me d is)
        (several_or_miss k xs (λ v q. not_alone v (sym e ∙ q))) in
    rw (entering me d free, runs)
      (leaving me (λ r d'. (r ≡ item_at k l) × Holds d' (without k l))
        (ok (item_at k (entries xs)) d')
        ((ap (item_at k) e, (ys, relocked-IsList is', e' ∙ ap (without k) e)), held))

sorted_remove_cell :
    (me k : ℕ) (d : DlList) (x : Cell)
    → IsList d (x ∷ [])
    → d.lock ≡ none
    → x.key ≡ k
    → sorted_remove me k d ≡ fault null_pointer (record d { first = null; lock = some me })
unfolding sorted_remove
sorted_remove_cell me k d x is free e = rw (
  entering me d free,
  remove_body_alone (entered me d) k x (entered-IsList me d is) ((==_iff x.key k).1 e),
)

-- `SortedRemove` of the only entry of a list writes through NULL, with the lock held: it tests for
-- the first element and never for the last one left.
pub sorted_remove_alone :
    (me v k : ℕ) (d : DlList)
    → Holds d ((v, k) ∷ [])
    → d.lock ≡ none
    → sorted_remove me k d ≡ fault null_pointer (record d { first = null; lock = some me })
sorted_remove_alone me v k d ([], is, e) free = cc
sorted_remove_alone me v k d (x ∷ [], is, e) free =
    sorted_remove_cell me k d x is free (ground arith)
sorted_remove_alone me v k d (x ∷ y ∷ xs, is, e) free = cc
