-- ===== src/DlList/Find.antt =====
-- The search loops of `SortedInsert` and `SortedRemove`.
use os_lab_nachos.Base.{
  ℕ, suc, zero, ◌<◌, ◌≡◌, refl, Bool, List, [], ◌∷◌, ◌++◌, arith, length, if◌then◌else◌,
}
use os_lab_nachos.Base.Exec.{ok}
use os_lab_nachos.DlList.Heap.{null, DlList, load}
use os_lab_nachos.DlList.{find}
use os_lab_nachos.DlList.Chain.{Cell, head_of, Linked, Below}

-- The cells before the first whose key passes the test, and those from there on.
module _ (test : ℕ → Bool) where
  abbrev pub upto : List Cell → List Cell
  upto [] = []
  upto (c ∷ xs) = if test c.key then [] else c ∷ upto xs

  abbrev pub from : List Cell → List Cell
  from [] = []
  from (c ∷ xs) = if test c.key then c ∷ xs else from xs

  pub upto-append-from : (xs : List Cell) → upto xs ++ from xs ≡ xs
  upto-append-from [] = refl
  upto-append-from (c ∷ xs) = ground (arith, upto-append-from xs)

  -- The search stops at the first cell that passes the test, or at NULL, within one round for each.
  pub find_lem :
      (d : DlList) (before : ℕ) (xs : List Cell) (fuel : ℕ)
      → Linked d.cells before xs null
      → Below d.fresh xs
      → length xs < fuel
      → find test fuel (head_of xs null) d ≡ ok (head_of (from xs) null) d
  unfolding find load
  find_lem d before xs zero l b enough = absurd (omega arith)
  find_lem d before [] (suc fuel) l b enough = refl
  find_lem d before (c ∷ xs) (suc fuel) l b enough =
      ground (arith, l.0, b.0, find_lem d c.address xs fuel l.1 b.2)
