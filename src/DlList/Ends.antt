-- ===== src/DlList/Ends.antt =====
-- `Prepend` and `Append` on the items and keys that a list holds.
use mathlib.Core.Path.{subst}
use mathlib.Core.List.{append-nil}
use os_lab_nachos.Base.{
  ℕ, ◌<◌, ◌≡◌, ◌≢◌, ◌+◌, refl, ◌∙◌, ap, sym, none, some, List, [], ◌∷◌, ◌++◌, arith,
}
use os_lab_nachos.Base.Exec.{Returns, ok}
use os_lab_nachos.Base.Int.{int, inc, dec}
use os_lab_nachos.DlList.Heap.{null, Element, Heap, DlList, modify, place}
use os_lab_nachos.DlList.{prepend_body, append_body, prepend, append}
use os_lab_nachos.DlList.Chain.{
  Cell, last_of, IsList, entries, Holds, not-has, has-ne, relink_next, relink_prev, at_last_key,
  last_key, has-ne, Below-last,
}
use os_lab_nachos.DlList.Locked.{relocked-IsList, entered, entering, entered-IsList, leaving_unit}
use os_lab_nachos.DlList.Link.{new_cell, grown, grown-IsList, enlarged}

-- An entry in front, with a key one below the first; 0 in an empty list.
abbrev pub prepended : ℕ → List (ℕ × ℕ) → List (ℕ × ℕ)
prepended v [] = (v, int 0) ∷ []
prepended v ((w, j) ∷ l) = (v, dec j) ∷ (w, j) ∷ l

-- An entry behind, with a key one above the last; 0 in an empty list.
abbrev pub appended : ℕ → List (ℕ × ℕ) → List (ℕ × ℕ)
appended v [] = (v, int 0) ∷ []
appended v ((w, j) ∷ []) = (w, j) ∷ (v, inc j) ∷ []
appended v (a ∷ b ∷ l) = a ∷ appended v (b ∷ l)

module _ (d : DlList) (v : ℕ) where
  prepend_empty :
      IsList d []
      → (d' : DlList) × (prepend_body v d ≡ ok tt d')
        × IsList d' (new_cell d (int 0) v ∷ [])
        × (d'.lock ≡ d.lock)
  unfolding prepend_body place
  prepend_empty is = (
    grown d [] [] (enlarged d (int 0) v),
    ground arith,
    grown-IsList d [] [] (int 0) v is _
        (record { here = ground arith; left = λ a i. cc; right = λ a i. cc }),
    refl,
  )

  prepend_cons :
      (c : Cell) (zs : List Cell)
      → IsList d (c ∷ zs)
      → (d' : DlList) × (prepend_body v d ≡ ok tt d')
        × IsList d' (new_cell d (dec c.key) v ∷ c ∷ zs)
        × (d'.lock ≡ d.lock)
  unfolding prepend_body place modify
  prepend_cons c zs is = (
    grown d [] (c ∷ zs) memory,
    ground (arith, is.linked.0, is.first, is.last, is.below),
    grown-IsList d [] (c ∷ zs) (dec c.key) v is memory (record {
      here = ground (arith, is.first, is.below);
      left = λ a i. cc;
      right = λ a i. ground (arith, is.first, not-has d.fresh d.fresh (c ∷ zs) is.below);
    }),
    refl,
  )
    where
      memory : Heap
      memory =
          relink_prev
            (relink_prev
              (relink_next
                (modify (enlarged d (int 0) v) d.fresh (λ e. record e { key = dec c.key })) d.fresh
                d.first)
              d.fresh null)
            d.first d.fresh

  -- memory after `Append` behind an element with this key
  abbrev extended : ℕ → Heap
  extended key =
      relink_next
        (relink_prev
          (relink_next (modify (enlarged d (int 0) v) d.fresh (λ e. record e { key = inc key }))
            d.fresh null)
          d.fresh d.last)
        d.last d.fresh

  append_at :
      (e : Element)
      → d.cells d.last ≡ some e
      → (null < d.last) × (d.last < d.fresh) × (null < d.first)
      → append_body v d
        ≡ ok tt (record d { cells = extended e.key; fresh = d.fresh + 1; last = d.fresh })
  unfolding append_body place modify
  append_at e found bounds = ground arith

  extended-here :
      (key : ℕ)
      → d.last < d.fresh
      → extended key d.fresh ≡ some (record { next = null; prev = d.last; key = inc key; item = v })
  unfolding place modify
  extended-here key small = ground arith

  extended-left : (key a : ℕ) → a ≢ d.fresh → extended key a ≡ relink_next d.cells d.last d.fresh a
  unfolding place modify
  extended-left key a new = ground arith

  append_cons :
      (y : Cell) (ys : List Cell)
      → IsList d (y ∷ ys)
      → (d' : DlList) × (append_body v d ≡ ok tt d')
        × IsList d' ((y ∷ ys) ++ new_cell d (inc (last_key y ys)) v ∷ [])
        × (d'.lock ≡ d.lock)
  append_cons y ys is = (
    grown d (y ∷ ys) [] (extended e.key),
    append_at e (ap d.cells is.last ∙ found)
          (rw is.last low.0, rw is.last low.1, rw is.first is.below.0)
        ∙ ap
            (λ (p : ℕ).
              ok tt (record d {
                cells = extended e.key;
                fresh = d.fresh + 1;
                first = p;
                last = d.fresh;
              }))
            is.first,
    subst
        (λ (k : ℕ).
          IsList (grown d (y ∷ ys) [] (extended e.key)) ((y ∷ ys) ++ new_cell d (inc k) v ∷ []))
        key
        (grown-IsList d (y ∷ ys) [] (inc e.key) v (subst (IsList d) (sym (append-nil (y ∷ ys))) is)
          _
          (record {
            here =
                extended-here e.key (rw is.last low.1)
                ∙ ap (λ (p : ℕ). some (record { next = null; prev = p; key = inc e.key; item = v }))
                    is.last;
            left = λ a i.
                extended-left e.key a
                  (has-ne (y ∷ ys) i (not-has d.fresh d.fresh (y ∷ ys) is.below (omega arith)))
                ∙ ap (λ (p : ℕ). relink_next d.cells p d.fresh a) is.last;
            right = λ a i. cc;
          })),
    refl,
  )
    where
      end : (e : Element) × (d.cells (last_of y.address ys) ≡ some e) × (e.key ≡ last_key y ys)
      end = at_last_key d.cells null y ys null is.linked

      e : Element
      e = end.0

      found : d.cells (last_of y.address ys) ≡ some e
      found = end.1

      key : e.key ≡ last_key y ys
      key = end.2

      low : (null < last_of y.address ys) × (last_of y.address ys < d.fresh)
      low = Below-last d.fresh y ys is.below

  append_empty :
      IsList d []
      → (d' : DlList) × (append_body v d ≡ ok tt d')
        × IsList d' (new_cell d (int 0) v ∷ [])
        × (d'.lock ≡ d.lock)
  unfolding append_body place
  append_empty is = (
    grown d [] [] (enlarged d (int 0) v),
    ground arith,
    grown-IsList d [] [] (int 0) v is _
        (record { here = ground arith; left = λ a i. cc; right = λ a i. cc }),
    refl,
  )

entries-appended :
    (d : DlList) (v : ℕ) (y : Cell) (ys : List Cell)
    → entries ((y ∷ ys) ++ new_cell d (inc (last_key y ys)) v ∷ []) ≡ appended v (entries (y ∷ ys))
entries-appended d v y [] = refl
entries-appended d v y (x ∷ ys) = ap (λ l. (y.item, y.key) ∷ l) (entries-appended d v x ys)

prepend_body_lem :
    (d : DlList) (v : ℕ) (xs : List Cell)
    → IsList d xs
    → (d' : DlList) × (prepend_body v d ≡ ok tt d')
      × Holds d' (prepended v (entries xs))
      × (d'.lock ≡ d.lock)
prepend_body_lem d v [] is =
    let (d', runs, is', held) = prepend_empty d v is in (d', runs, (_, is', refl), held)
prepend_body_lem d v (c ∷ zs) is =
    let (d', runs, is', held) = prepend_cons d v c zs is in (d', runs, (_, is', refl), held)

append_body_lem :
    (d : DlList) (v : ℕ) (xs : List Cell)
    → IsList d xs
    → (d' : DlList) × (append_body v d ≡ ok tt d')
      × Holds d' (appended v (entries xs))
      × (d'.lock ≡ d.lock)
append_body_lem d v [] is =
    let (d', runs, is', held) = append_empty d v is in (d', runs, (_, is', refl), held)
append_body_lem d v (y ∷ ys) is =
    let (d', runs, is', held) = append_cons d v y ys is in
    (d', runs, (_, is', entries-appended d v y ys), held)

-- `Prepend` returns with the lock free and the entry in front, its key one below the first.
pub prepend_lem :
    (me v : ℕ) (d : DlList) (l : List (ℕ × ℕ))
    → Holds d l
    → d.lock ≡ none
    → Returns (λ _ d'. Holds d' (prepended v l) × (d'.lock ≡ none)) (prepend me v d)
unfolding prepend
prepend_lem me v d l (xs, is, e) free =
    let (d', runs, (ys, is', e'), held) =
      prepend_body_lem (entered me d) v xs (entered-IsList me d is) in
    rw (entering me d free, runs)
      (leaving_unit me (λ _ d'. Holds d' (prepended v l)) (ok tt d')
        ((ys, relocked-IsList is', e' ∙ ap (prepended v) e), held))

-- `Append` returns with the lock free and the entry behind, its key one above the last.
pub append_lem :
    (me v : ℕ) (d : DlList) (l : List (ℕ × ℕ))
    → Holds d l
    → d.lock ≡ none
    → Returns (λ _ d'. Holds d' (appended v l) × (d'.lock ≡ none)) (append me v d)
unfolding append
append_lem me v d l (xs, is, e) free =
    let (d', runs, (ys, is', e'), held) =
      append_body_lem (entered me d) v xs (entered-IsList me d is) in
    rw (entering me d free, runs)
      (leaving_unit me (λ _ d'. Holds d' (appended v l)) (ok tt d')
        ((ys, relocked-IsList is', e' ∙ ap (appended v) e), held))
