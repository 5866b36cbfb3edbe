-- ===== src/DlList/Link.antt =====
-- What `SortedInsert` does to memory, by the place where the element comes.
use mathlib.Core.Path.{ap₂}
use os_lab_nachos.Base.{
  ℕ, ◌<◌, ◌≤◌, ◌≡◌, ◌≢◌, ◌+◌, refl, ◌∙◌, sym, true, false, some, List, [], ◌∷◌, ◌++◌, arith, ltb,
  length-append,
}
use os_lab_nachos.Base.Exec.{ok}
use os_lab_nachos.DlList.Heap.{null, Element, Heap, DlList, modify, place}
use os_lab_nachos.DlList.{find, insert_body}
use os_lab_nachos.DlList.Chain.{
  Cell, has, head_of, last_of, Linked, Distinct, Below, IsList, not-has, Linked-relink_next,
  Linked-relink_prev, relink_next, relink_prev, Linked-append, Linked-split, Distinct-append,
  Distinct-split, Below-append, Below-split, Below-suc, at_last, has_head, has_last, has-ne,
  Below-last, head_of-append, last_of-append,
}

-- What a new element between `ys` and `zs` must bring about in memory.
pub record Inserted (d : DlList) (ys : List Cell) (k v : ℕ) (zs : List Cell) (g : Heap)
    : Type 0 where
  pub here :
      g d.fresh
      ≡ some (record { next = head_of zs null; prev = last_of null ys; key = k; item = v })
  pub left : (a : ℕ) → has a ys ≡ true → g a ≡ relink_next d.cells (last_of null ys) d.fresh a
  pub right : (a : ℕ) → has a zs ≡ true → g a ≡ relink_prev d.cells (head_of zs null) d.fresh a

abbrev pub new_cell : DlList → ℕ → ℕ → Cell
new_cell d k v = record { address = d.fresh; key = k; item = v }

-- The list after a new element has come between `ys` and `zs`.
abbrev pub grown : DlList → List Cell → List Cell → Heap → DlList
grown d ys zs g = record d {
  cells = g;
  fresh = d.fresh + 1;
  first = head_of ys d.fresh;
  last = last_of d.fresh zs;
}

module _ (d : DlList) (ys zs : List Cell) (k v : ℕ) (is : IsList d (ys ++ zs)) where
  pub grown-IsList :
      (g : Heap) → Inserted d ys k v zs g → IsList (grown d ys zs g) (ys ++ new_cell d k v ∷ zs)
  grown-IsList g m = record {
    linked =
        Linked-append g null ys (new_cell d k v ∷ zs) null
          (Linked-relink_next d.cells g null ys _ d.fresh parts.0 apart.0 m.left)
          (m.here, Linked-relink_prev d.cells g _ zs null d.fresh parts.1 apart.1 m.right);
    first = sym (head_of-append ys (new_cell d k v ∷ zs) null);
    last = sym (last_of-append null ys (new_cell d k v ∷ zs));
    distinct =
        Distinct-append ys (new_cell d k v ∷ zs) apart.0
          (not-has d.fresh d.fresh zs small.1 (omega arith), apart.1)
          (λ a i. ground (arith, apart.2 a i, not-has d.fresh d.fresh ys small.0));
    below =
        Below-append (d.fresh + 1) ys (new_cell d k v ∷ zs) (Below-suc d.fresh ys small.0)
          (omega (arith, is.count), omega arith, Below-suc d.fresh zs small.1);
    count = omega (arith, length-append ys (new_cell d k v ∷ zs), length-append ys zs, is.count);
  }
    where
      parts : Linked d.cells null ys (head_of zs null) × Linked d.cells (last_of null ys) zs null
      parts = Linked-split d.cells null ys zs null is.linked

      apart : Distinct ys × Distinct zs × ((a : ℕ) → has a ys ≡ true → has a zs ≡ false)
      apart = Distinct-split ys zs is.distinct

      small : Below d.fresh ys × Below d.fresh zs
      small = Below-split d.fresh ys zs is.below

-- Memory with the new element in it.
abbrev pub enlarged : DlList → ℕ → ℕ → Heap
enlarged d k v = place d.cells d.fresh (record { next = null; prev = null; key = k; item = v })

module _ (d : DlList) (k v : ℕ) where
  -- `g` is what an insertion between `ys` and `zs` leaves in memory.
  abbrev pub Inserts : List Cell → List Cell → Heap → Type 0
  Inserts ys zs g = (insert_body v k d ≡ ok tt (grown d ys zs g)) × Inserted d ys k v zs g

  abbrev pub Finds : List Cell → Type 0
  Finds zs =
      let e = record d { cells = enlarged d k v; fresh = d.fresh + 1 } in
      find (ltb k) (d.fresh + 1) d.first e ≡ ok (head_of zs null) e

  pub insert_alone : IsList d [] → (g : Heap) × Inserts [] [] g
  unfolding insert_body place
  insert_alone is = (
    enlarged d k v,
    (ground arith, record { here = ground arith; left = λ a i. cc; right = λ a i. cc }),
  )

  pub insert_first :
      (c : Cell) (zs : List Cell)
      → IsList d (c ∷ zs)
      → Finds (c ∷ zs)
      → (g : Heap) × Inserts [] (c ∷ zs) g
  unfolding insert_body place modify
  insert_first c zs is at = (
    relink_prev (relink_prev (relink_next (enlarged d k v) d.fresh d.first) d.first d.fresh) d.fresh
        null,
    (
      ground (arith, at, is.linked.0, is.first, is.last, is.below),
      record {
        here = ground (arith, is.first, is.below);
        left = λ a i. cc;
        right = λ a i. ground (arith, is.first, not-has d.fresh d.fresh (c ∷ zs) is.below);
      },
    ),
  )

  pub insert_last :
      (y : Cell) (ys : List Cell)
      → IsList d (y ∷ ys)
      → Finds []
      → (g : Heap) × Inserts (y ∷ ys) [] g
  unfolding insert_body place modify
  insert_last y ys is at =
      let (e, found) = at_last d.cells null y ys null is.linked in
      (
        relink_next (relink_next (relink_prev (enlarged d k v) d.fresh d.last) d.last d.fresh)
            d.fresh null,
        (
          ground (arith, at, found, is.first, is.last, is.below, Below-last d.fresh y ys is.below),
          record {
            here = ground (arith, is.last, Below-last d.fresh y ys is.below);
            left = λ a i. ground (arith, is.last, not-has d.fresh d.fresh (y ∷ ys) is.below);
            right = λ a i. cc;
          },
        ),
      )

  -- `SortedInsert` between the elements at `p` and `q`.
  module _ (p q : ℕ) where
    abbrev linked_in : Heap
    linked_in =
        relink_prev
          (relink_next (relink_prev (relink_next (enlarged d k v) p d.fresh) d.fresh p) d.fresh q) q
          d.fresh

    insert_at :
        (e f : Element)
        → (null < p) × (p < d.fresh) × (null < q) × (q < d.fresh) × (null < d.first)
        → (p ≢ q) × (q ≢ d.first)
        → d.cells p ≡ some e
        → d.cells q ≡ some f
        → f.prev ≡ p
        → find
            (ltb k)
            (d.fresh + 1)
            d.first
            (record d { cells = enlarged d k v; fresh = d.fresh + 1 })
          ≡ ok q (record d { cells = enlarged d k v; fresh = d.fresh + 1 })
        → insert_body v k d ≡ ok tt (record d { cells = linked_in; fresh = d.fresh + 1 })
    unfolding insert_body place modify
    insert_at e f bounds ends at_p at_q back at = ground arith

    linked_in-here :
        (p < d.fresh) × (q < d.fresh)
        → linked_in d.fresh ≡ some (record { next = q; prev = p; key = k; item = v })
    unfolding place modify
    linked_in-here small = ground arith

    linked_in-left : (a : ℕ) → a ≢ d.fresh → a ≢ q → linked_in a ≡ relink_next d.cells p d.fresh a
    unfolding place modify
    linked_in-left a new other = ground arith

    linked_in-right : (a : ℕ) → a ≢ d.fresh → a ≢ p → linked_in a ≡ relink_prev d.cells q d.fresh a
    unfolding place modify
    linked_in-right a new other = ground arith

  pub insert_between :
      (y : Cell) (ys : List Cell) (c : Cell) (zs : List Cell)
      → IsList d ((y ∷ ys) ++ c ∷ zs)
      → Finds (c ∷ zs)
      → (g : Heap) × Inserts (y ∷ ys) (c ∷ zs) g
  insert_between y ys c zs is at = (
    linked_in p c.address,
    (
      insert_at p c.address last.0 _ (low.0, low.1, small.1.0, small.1.1, rw is.first small.0.0)
            (ends, λ e. apart_ne y.address (has_head y ys) (sym (e ∙ is.first))) last.1 parts.1.0
            refl at
          ∙ ap₂
              (λ (f l : ℕ). ok tt (record d {
                cells = linked_in p c.address;
                fresh = d.fresh + 1;
                first = f;
                last = l;
              }))
              is.first (is.last ∙ last_of-append y.address ys (c ∷ zs)),
      record {
        here = linked_in-here p c.address (low.1, small.1.1);
        left = λ a i.
            linked_in-left p c.address a
              (has-ne (y ∷ ys) i (not-has d.fresh d.fresh (y ∷ ys) small.0 le))
              (λ e. apart_ne a i e);
        right = λ a i.
            linked_in-right p c.address a
              (has-ne (c ∷ zs) i (not-has d.fresh d.fresh (c ∷ zs) small.1 le))
              (has-ne (c ∷ zs) i (apart.2 p (has_last y ys)));
      },
    ),
  )
    where
      p : ℕ
      p = last_of y.address ys

      parts :
          Linked d.cells null (y ∷ ys) c.address
          × Linked d.cells (last_of y.address ys) (c ∷ zs) null
      parts = Linked-split d.cells null (y ∷ ys) (c ∷ zs) null is.linked

      small : Below d.fresh (y ∷ ys) × Below d.fresh (c ∷ zs)
      small = Below-split d.fresh (y ∷ ys) (c ∷ zs) is.below

      apart :
          Distinct (y ∷ ys)
          × Distinct (c ∷ zs)
          × ((a : ℕ) → has a (y ∷ ys) ≡ true → has a (c ∷ zs) ≡ false)
      apart = Distinct-split (y ∷ ys) (c ∷ zs) is.distinct

      last : (e : Element) × (d.cells (last_of y.address ys) ≡ some e)
      last = at_last d.cells null y ys c.address parts.0

      low : (null < last_of y.address ys) × (last_of y.address ys < d.fresh)
      low = Below-last d.fresh y ys small.0

      le : d.fresh ≤ d.fresh
      le = omega arith

      apart_ne : (a : ℕ) → has a (y ∷ ys) ≡ true → a ≢ c.address
      apart_ne a i e = has-ne (c ∷ zs) (has_head c zs) (apart.2 a i) (sym e)

      ends : last_of y.address ys ≢ c.address
      ends = apart_ne _ (has_last y ys)
