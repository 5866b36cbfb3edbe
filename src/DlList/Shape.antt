-- ===== src/DlList/Shape.antt =====
-- The list that the pointers of class DLList (threads/dllist.cc) hold.
use os_lab_nachos.Base.{ℕ, ◌<◌, ◌≡◌, Bool, false, ◌||◌, some, List, [], ◌∷◌, map, ◌==◌, length}
use os_lab_nachos.DlList.Heap.{null, Heap, DlList}

-- An element of the list: its address, key and item.
pub record Cell : Type 0 where
  pub address : ℕ
  pub key : ℕ
  pub item : ℕ

abbrev pub has : ℕ → List Cell → Bool
has a [] = false
has a (c ∷ xs) = (c.address == a) || has a xs

abbrev pub head_of : List Cell → ℕ → ℕ
head_of [] after = after
head_of (c ∷ xs) after = c.address

abbrev pub last_of : ℕ → List Cell → ℕ
last_of before [] = before
last_of before (c ∷ xs) = last_of c.address xs

-- From behind `before` the links lead both ways through the cells of `xs` to `after`.
abbrev pub Linked : Heap → ℕ → List Cell → ℕ → Type 0
Linked h before [] after = Unit {0}
Linked h before (c ∷ xs) after =
    (h c.address
      ≡ some (record { next = head_of xs after; prev = before; key = c.key; item = c.item }))
    × Linked h c.address xs after

abbrev pub Distinct : List Cell → Type 0
Distinct [] = Unit {0}
Distinct (c ∷ xs) = (has c.address xs ≡ false) × Distinct xs

-- The addresses are not NULL and below the next one to be given out.
abbrev pub Below : ℕ → List Cell → Type 0
Below n [] = Unit {0}
Below n (c ∷ xs) = (null < c.address) × (c.address < n) × Below n xs

pub record IsList (d : DlList) (xs : List Cell) : Type 0 where
  pub linked : Linked d.cells null xs null
  pub first : d.first ≡ head_of xs null
  pub last : d.last ≡ last_of null xs
  pub distinct : Distinct xs
  pub below : Below d.fresh xs
  pub count : length xs < d.fresh

-- What a client sees of an element: its item and its key.
abbrev pub entries : List Cell → List (ℕ × ℕ)
entries = map (λ c. (c.item, c.key))

-- The list holds these items under these keys, in this order.
abbrev pub Holds : DlList → List (ℕ × ℕ) → Type 0
Holds d l = (xs : List Cell) × IsList d xs × (entries xs ≡ l)
