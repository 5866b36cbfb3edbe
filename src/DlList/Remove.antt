-- ===== src/DlList/Remove.antt =====
-- `Remove` and the destructor on the items and keys that a list holds.
use mathlib.Core.Path.{subst}
use os_lab_nachos.Base.{
  ℕ, suc, ◌<◌, ltb, Bool-cases, inl, inr, ◌≡◌, refl, ◌∙◌, ap, true, false, none, List, [], ◌∷◌,
  arith, ◌==◌,
}
use os_lab_nachos.Base.Exec.{Returns, fault, null_pointer, ok}
use os_lab_nachos.DlList.Heap.{null, DlList}
use os_lab_nachos.DlList.{take_first, remove, destroy}
use os_lab_nachos.DlList.Chain.{Cell, IsList, Holds, entries, load-ok}
use os_lab_nachos.DlList.Locked.{
  relocked-IsList, entered, entering, entered-IsList, is_empty-nil, is_empty-cons, leaving,
}
use os_lab_nachos.DlList.Insert.{inserted}
use os_lab_nachos.DlList.Unlink.{take_first_lem}

-- Every item in the list is a real one.
abbrev pub NoNull : List (ℕ × ℕ) → Type 0
NoNull [] = Unit {0}
NoNull ((v, k) ∷ l) = (0 < v) × NoNull l

pub ne_null : (a : ℕ) → null < a → (a == null) ≡ false
ne_null a h = ground arith

pub NoNull-inserted : (v k : ℕ) (l : List (ℕ × ℕ)) → 0 < v → NoNull l → NoNull (inserted v k l)
NoNull-inserted v k [] pos real = (pos, tt)
NoNull-inserted v k ((w, j) ∷ l) pos real = elim (Bool-cases (ltb k j)) [
  | inl t ↦ rw t (pos, (real.0, real.1))
  | inr f ↦ rw f (real.0, NoNull-inserted v k l pos real.1)
]

-- The first entry, NULL for an empty list, and what is left.
abbrev pub popped : List (ℕ × ℕ) → (ℕ × ℕ) × List (ℕ × ℕ)
popped [] = ((null, 0), [])
popped (e ∷ l) = (e, l)

remove_cells :
    (me : ℕ) (d : DlList) (xs : List Cell)
    → IsList d xs
    → d.lock ≡ none
    → Returns
        (λ r d'.
          ((r ≡ (popped (entries xs)).0) × Holds d' (popped (entries xs)).1) × (d'.lock ≡ none))
        (remove me true d)
unfolding remove
remove_cells me d [] is free =
    rw (entering me d free, is_empty-nil (entered-IsList me d is))
      (leaving me (λ r d'. (r ≡ (null, 0)) × Holds d' []) (ok (null, 0) (entered me d))
        ((refl, (_, relocked-IsList (entered-IsList me d is), refl)), refl))
remove_cells me d (c ∷ zs) is free =
    let (d', runs, is', held) = take_first_lem (entered me d) c zs (entered-IsList me d is) in
    rw (entering me d free, is_empty-cons (entered-IsList me d is), runs)
      (leaving me (λ r d'. (r ≡ (c.item, c.key)) × Holds d' (entries zs)) (ok (c.item, c.key) d')
        ((refl, (_, relocked-IsList is', refl)), held))

-- `Remove` with a place for the key returns the first item and its key, or NULL from an empty list,
-- and leaves the other entries in order and the lock free.
pub remove_lem :
    (me : ℕ) (d : DlList) (l : List (ℕ × ℕ))
    → Holds d l
    → d.lock ≡ none
    → Returns
        (λ r d'. ((r ≡ (popped l).0) × Holds d' (popped l).1) × (d'.lock ≡ none))
        (remove me true d)
remove_lem me d l (xs, is, e) free =
    subst
      (λ (l : List (ℕ × ℕ)).
        Returns (λ r d'. ((r ≡ (popped l).0) × Holds d' (popped l).1) × (d'.lock ≡ none))
          (remove me true d))
      e (remove_cells me d xs is free)

take_null_key :
    (d : DlList) (c : Cell) (zs : List Cell)
    → IsList d (c ∷ zs)
    → take_first false d ≡ fault null_pointer d
unfolding take_first
take_null_key d c zs is =
    rw (load-ok d d.first (rw is.first is.below.0) (ap d.cells is.first ∙ is.linked.0))

remove_null_cells :
    (me : ℕ) (d : DlList) (c : Cell) (zs : List Cell)
    → IsList d (c ∷ zs)
    → d.lock ≡ none
    → remove me false d ≡ fault null_pointer (entered me d)
unfolding remove
remove_null_cells me d c zs is free = rw (
  entering me d free,
  is_empty-cons (entered-IsList me d is),
  take_null_key (entered me d) c zs (entered-IsList me d is),
)

-- Without a place for the key, as the destructor calls it, `Remove` of any list that is not empty
-- writes through NULL with the lock held; so the destructor does.
pub remove_null_key :
    (me : ℕ) (d : DlList) (e : ℕ × ℕ) (l : List (ℕ × ℕ)) (fuel : ℕ)
    → Holds d (e ∷ l)
    → d.lock ≡ none
    → (remove me false d ≡ fault null_pointer (entered me d))
      × (destroy me (suc fuel) d ≡ fault null_pointer (entered me d))
unfolding destroy
remove_null_key me d e l fuel ([], is, q) free = cc
remove_null_key me d e l fuel (c ∷ zs, is, q) free =
    let stops = remove_null_cells me d c zs is free in (stops, rw stops)
