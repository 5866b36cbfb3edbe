-- ===== src/DlList/Sorted.antt =====
-- The order of the keys.
use mathlib.Core.List.{Perm}
use mathlib.Core.List.Perm
use os_lab_nachos.Base.{
  ℕ, ◌<◌, ◌≤◌, ◌≡◌, ◌+◌, ◌^◌, none, List, [], ◌∷◌, arith, ltb, Bool-cases, inl, inr,
}
use os_lab_nachos.Base.Exec.{Returns, Returns-mono}
use os_lab_nachos.DlList.Heap.{DlList}
use os_lab_nachos.DlList.{prepend, append, sorted_insert}
use os_lab_nachos.DlList.Chain.{Holds}
use os_lab_nachos.DlList.Insert.{inserted, sorted_insert_lem}
use os_lab_nachos.DlList.Ends.{prepended, appended, prepend_lem, append_lem}

abbrev pub AllGe : ℕ → List (ℕ × ℕ) → Type 0
AllGe k [] = Unit {0}
AllGe k ((v, j) ∷ l) = (k ≤ j) × AllGe k l

abbrev pub IsSorted : List (ℕ × ℕ) → Type 0
IsSorted [] = Unit {0}
IsSorted ((v, j) ∷ l) = AllGe j l × IsSorted l

-- the key of the first entry lies above the least int, that of the last below the greatest
abbrev pub RoomBelow : List (ℕ × ℕ) → Type 0
RoomBelow [] = Unit {0}
RoomBelow ((v, j) ∷ l) = (0 < j) × (j < 2 ^ 32)

abbrev pub RoomAbove : List (ℕ × ℕ) → Type 0
RoomAbove [] = Unit {0}
RoomAbove ((v, j) ∷ []) = j + 1 < 2 ^ 32
RoomAbove (a ∷ b ∷ l) = RoomAbove (b ∷ l)

AllGe-trans : (j k : ℕ) (l : List (ℕ × ℕ)) → j ≤ k → AllGe k l → AllGe j l
AllGe-trans j k [] h a = tt
AllGe-trans j k ((v, i) ∷ l) h a = (omega (arith, a.0), AllGe-trans j k l h a.1)

AllGe-inserted : (i v k : ℕ) (l : List (ℕ × ℕ)) → i ≤ k → AllGe i l → AllGe i (inserted v k l)
AllGe-inserted i v k [] h a = (h, tt)
AllGe-inserted i v k ((w, j) ∷ l) h a = elim (Bool-cases (ltb k j)) [
  | inl t ↦ rw t (h, (a.0, a.1))
  | inr f ↦ rw f (a.0, AllGe-inserted i v k l h a.1)
]

pub inserted-IsSorted : (v k : ℕ) (l : List (ℕ × ℕ)) → IsSorted l → IsSorted (inserted v k l)
inserted-IsSorted v k [] s = (tt, tt)
inserted-IsSorted v k ((w, j) ∷ l) s = elim (Bool-cases (ltb k j)) [
  | inl t ↦ rw t ((ground arith, AllGe-trans k j l (ground arith) s.0), (s.0, s.1))
  | inr f ↦ rw f (AllGe-inserted j v k l (ground arith) s.0, inserted-IsSorted v k l s.1)
]

pub inserted-perm : (v k : ℕ) (l : List (ℕ × ℕ)) → Perm (inserted v k l) ((v, k) ∷ l)
inserted-perm v k [] = Perm.refl ((v, k) ∷ [])
inserted-perm v k ((w, j) ∷ l) = elim (Bool-cases (ltb k j)) [
  | inl t ↦ rw t (Perm.refl ((v, k) ∷ (w, j) ∷ l))
  | inr f ↦ rw f (Perm.trans (Perm.cons (w, j) (inserted-perm v k l)) (Perm.swap (v, k) (w, j) l))
]

-- On a list in order of its keys `SortedInsert` returns with the lock free, the entry added, none lost,
-- and the keys in order.
pub sorted_insert-IsSorted :
    (me v k : ℕ) (d : DlList) (l : List (ℕ × ℕ))
    → Holds d l
    → d.lock ≡ none
    → IsSorted l
    → Returns
        (λ _ d'.
          (l' : List (ℕ × ℕ)) × Holds d' l' × IsSorted l' × Perm l' ((v, k) ∷ l) × (d'.lock ≡ none))
        (sorted_insert me v k d)
sorted_insert-IsSorted me v k d l holds free s =
    Returns-mono (λ _ d'. Holds d' (inserted v k l) × (d'.lock ≡ none))
      (λ _ d'.
        (l' : List (ℕ × ℕ)) × Holds d' l' × IsSorted l' × Perm l' ((v, k) ∷ l) × (d'.lock ≡ none))
      (sorted_insert me v k d)
      (λ _ d' h. (inserted v k l, h.0, inserted-IsSorted v k l s, inserted-perm v k l, h.1))
      (sorted_insert_lem me v k d l holds free)

prepended-IsSorted :
    (v : ℕ) (l : List (ℕ × ℕ)) → RoomBelow l → IsSorted l → IsSorted (prepended v l)
prepended-IsSorted v [] room s = (tt, tt)
prepended-IsSorted v ((w, j) ∷ l) room s =
    ((omega arith, AllGe-trans _ j l (omega arith) s.0), (s.0, s.1))

AllGe-appended :
    (i v : ℕ) (a : ℕ × ℕ) (l : List (ℕ × ℕ))
    → RoomAbove (a ∷ l)
    → AllGe i (a ∷ l)
    → AllGe i (appended v (a ∷ l))
AllGe-appended i v a [] room h = (h.0, (omega arith, tt))
AllGe-appended i v a (b ∷ l) room h = (h.0, AllGe-appended i v b l room h.1)

appended-IsSorted : (v : ℕ) (l : List (ℕ × ℕ)) → RoomAbove l → IsSorted l → IsSorted (appended v l)
appended-IsSorted v [] room s = (tt, tt)
appended-IsSorted v (a ∷ []) room s = ((omega arith, tt), (tt, tt))
appended-IsSorted v (a ∷ b ∷ l) room s =
    (AllGe-appended a.1 v b l room s.0, appended-IsSorted v (b ∷ l) room s.1)

-- `Prepend` and `Append` keep the keys in order, unless the new key would overflow the int.
pub ends-IsSorted :
    (me v : ℕ) (d : DlList) (l : List (ℕ × ℕ))
    → Holds d l
    → d.lock ≡ none
    → IsSorted l
    → (RoomBelow l
        → Returns (λ _ d'. Holds d' (prepended v l) × IsSorted (prepended v l)) (prepend me v d))
      × (RoomAbove l
          → Returns (λ _ d'. Holds d' (appended v l) × IsSorted (appended v l)) (append me v d))
ends-IsSorted me v d l holds free s = (
  λ room.
      Returns-mono (λ _ d'. Holds d' (prepended v l) × (d'.lock ≡ none)) _ (prepend me v d)
        (λ _ d' h. (h.0, prepended-IsSorted v l room s)) (prepend_lem me v d l holds free),
  λ room.
      Returns-mono (λ _ d'. Holds d' (appended v l) × (d'.lock ≡ none)) _ (append me v d)
        (λ _ d' h. (h.0, appended-IsSorted v l room s)) (append_lem me v d l holds free),
)
