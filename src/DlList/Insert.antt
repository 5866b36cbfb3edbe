-- ===== src/DlList/Insert.antt =====
-- `SortedInsert` on the items and keys that a list holds.
use mathlib.Core.Path.{subst}
use mathlib.Core.List.{append-nil}
use os_lab_nachos.Base.{
  ℕ, ◌≡◌, ◌+◌, refl, ◌∙◌, ap, sym, none, List, [], ◌∷◌, ◌++◌, arith, length, ltb, if◌then◌else◌,
}
use os_lab_nachos.Base.Exec.{Returns, ok}
use os_lab_nachos.DlList.Heap.{null, Heap, DlList}
use os_lab_nachos.DlList.{find, insert_body, sorted_insert}
use os_lab_nachos.DlList.Chain.{
  Cell, Linked, IsList, entries, Holds, not-has, Linked-frame, place-ne, has-ne, Below-suc, has-ne,
}
use os_lab_nachos.DlList.Locked.{relocked-IsList, entered, entering, entered-IsList, leaving_unit}
use os_lab_nachos.DlList.Find.{upto, from, upto-append-from, find_lem}
use os_lab_nachos.DlList.Link.{
  new_cell, grown-IsList, enlarged, Inserts, Finds, insert_alone, insert_first, insert_last,
  insert_between,
}

-- The entry goes behind all whose key is not larger than its own.
abbrev pub inserted : ℕ → ℕ → List (ℕ × ℕ) → List (ℕ × ℕ)
inserted v k [] = (v, k) ∷ []
inserted v k ((w, j) ∷ l) = if ltb k j then (v, k) ∷ (w, j) ∷ l else (w, j) ∷ inserted v k l

entries-inserted :
    (d : DlList) (v k : ℕ) (xs : List Cell)
    → entries (upto (ltb k) xs ++ new_cell d k v ∷ from (ltb k) xs) ≡ inserted v k (entries xs)
entries-inserted d v k [] = refl
entries-inserted d v k (c ∷ xs) = ground (arith, entries-inserted d v k xs)

module _ (d : DlList) (k v : ℕ) where
  insert_any :
      (ys zs : List Cell)
      → IsList d (ys ++ zs)
      → Finds d k v zs
      → (g : Heap) × Inserts d k v ys zs g
  insert_any [] [] is at = insert_alone d k v is
  insert_any [] (c ∷ zs) is at = insert_first d k v c zs is at
  insert_any (y ∷ ys) [] is at =
      insert_last d k v y ys (subst (IsList d) (append-nil (y ∷ ys)) is) at
  insert_any (y ∷ ys) (c ∷ zs) is at = insert_between d k v y ys c zs is at

  Finds-from : (xs : List Cell) → IsList d xs → Finds d k v (from (ltb k) xs)
  Finds-from xs is =
      ap (λ (p : ℕ). find (ltb k) (d.fresh + 1) p larger) is.first
      ∙ find_lem (ltb k) larger null xs (d.fresh + 1) kept (Below-suc d.fresh xs is.below)
          (omega (arith, is.count))
    where
      larger : DlList
      larger = record d { cells = enlarged d k v; fresh = d.fresh + 1 }

      kept : Linked (enlarged d k v) null xs null
      kept = Linked-frame d.cells (enlarged d k v) null xs null is.linked λ a i.
          place-ne d.cells _
            (λ e. has-ne xs i (not-has d.fresh d.fresh xs is.below (omega arith)) (sym e))

  insert_body_lem :
      (xs : List Cell)
      → IsList d xs
      → (d' : DlList) × (insert_body v k d ≡ ok tt d')
        × IsList d' (upto (ltb k) xs ++ new_cell d k v ∷ from (ltb k) xs)
        × (d'.lock ≡ d.lock)
  insert_body_lem xs is =
      let split = subst (IsList d) (sym (upto-append-from (ltb k) xs)) is in
      let (g, (runs, m)) =
        insert_any (upto (ltb k) xs) (from (ltb k) xs) split (Finds-from xs is) in
      (_, runs, grown-IsList d (upto (ltb k) xs) (from (ltb k) xs) k v split g m, refl)

pub length-inserted : (v k : ℕ) (l : List (ℕ × ℕ)) → length (inserted v k l) ≡ length l + 1
length-inserted v k [] = refl
length-inserted v k ((w, j) ∷ l) = ground (arith, length-inserted v k l)

-- `SortedInsert` returns with the lock free and the entry behind all whose key is not larger, the
-- others in their order.
pub sorted_insert_lem :
    (me v k : ℕ) (d : DlList) (l : List (ℕ × ℕ))
    → Holds d l
    → d.lock ≡ none
    → Returns (λ _ d'. Holds d' (inserted v k l) × (d'.lock ≡ none)) (sorted_insert me v k d)
unfolding sorted_insert
sorted_insert_lem me v k d l (xs, is, e) free =
    let (d', runs, is', held) = insert_body_lem (entered me d) k v xs (entered-IsList me d is) in
    rw (entering me d free, runs)
      (leaving_unit me (λ _ d'. Holds d' (inserted v k l)) (ok tt d')
        ((_, relocked-IsList is', entries-inserted d v k xs ∙ ap (inserted v k) e), held))
