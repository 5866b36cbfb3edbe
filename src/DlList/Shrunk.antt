-- ===== src/DlList/Shrunk.antt =====
-- A list in memory without one of its cells.
use os_lab_nachos.Base.{ℕ, ◌≡◌, sym, true, false, List, ◌∷◌, ◌++◌, arith, length-append}
use os_lab_nachos.DlList.Heap.{null, Heap, DlList}
use os_lab_nachos.DlList.Chain.{
  Cell, has, head_of, last_of, Linked, Distinct, Below, IsList, Linked-relink_next,
  Linked-relink_prev, relink_next, relink_prev, Linked-append, Linked-split, Distinct-append,
  Distinct-split, Below-append, Below-split, head_of-append, last_of-append,
}

-- What the removal of the cell between `ys` and `zs` must bring about in memory.
pub record Removed (d : DlList) (ys zs : List Cell) (g : Heap) : Type 0 where
  pub left :
      (a : ℕ) → has a ys ≡ true → g a ≡ relink_next d.cells (last_of null ys) (head_of zs null) a
  pub right :
      (a : ℕ) → has a zs ≡ true → g a ≡ relink_prev d.cells (head_of zs null) (last_of null ys) a

abbrev pub shrunk : DlList → List Cell → List Cell → Heap → DlList
shrunk d ys zs g = record d {
  cells = g;
  first = head_of ys (head_of zs null);
  last = last_of (last_of null ys) zs;
}

module _ (d : DlList) (ys : List Cell) (c : Cell) (zs : List Cell)
    (is : IsList d (ys ++ c ∷ zs)) where
  pub shrunk-IsList : (g : Heap) → Removed d ys zs g → IsList (shrunk d ys zs g) (ys ++ zs)
  shrunk-IsList g m = record {
    linked =
        Linked-append g null ys zs null
          (Linked-relink_next d.cells g null ys _ (head_of zs null) parts.0 apart.0 m.left)
          (Linked-relink_prev d.cells g c.address zs null (last_of null ys) parts.1.1 apart.1.1
            m.right);
    first = sym (head_of-append ys zs null);
    last = sym (last_of-append null ys zs);
    distinct = Distinct-append ys zs apart.0 apart.1.1 (λ a i. ground (arith, apart.2 a i));
    below = Below-append d.fresh ys zs small.0 small.1.2;
    count = omega (arith, length-append ys (c ∷ zs), length-append ys zs, is.count);
  }
    where
      parts :
          Linked d.cells null ys (head_of (c ∷ zs) null)
          × Linked d.cells (last_of null ys) (c ∷ zs) null
      parts = Linked-split d.cells null ys (c ∷ zs) null is.linked

      apart : Distinct ys × Distinct (c ∷ zs) × ((a : ℕ) → has a ys ≡ true → has a (c ∷ zs) ≡ false)
      apart = Distinct-split ys (c ∷ zs) is.distinct

      small : Below d.fresh ys × Below d.fresh (c ∷ zs)
      small = Below-split d.fresh ys (c ∷ zs) is.below
