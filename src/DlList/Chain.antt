-- ===== src/DlList/Chain.antt =====
-- Doubly linked chains of elements, and how they change when an element enters or leaves.
use os_lab_nachos.Base.{
  ℕ, ◌<◌, ◌≤◌, ◌≡◌, ◌≢◌, ◌+◌, refl, ◌∙◌, true, false, ◌||◌, some, List, [], ◌∷◌, ◌++◌, arith,
}
use os_lab_nachos.DlList.Heap.{null, Element, Heap, DlList, modify, place, load}
use os_lab_nachos.Base.Exec.{ok}
pub use os_lab_nachos.DlList.Shape.{
  Cell, has, head_of, last_of, Linked, Distinct, Below, IsList, entries, Holds,
}

pub has-append : (a : ℕ) (xs ys : List Cell) → has a (xs ++ ys) ≡ (has a xs || has a ys)
has-append a [] ys = refl
has-append a (c ∷ xs) ys = ground (arith, has-append a xs ys)

pub not-has : (n a : ℕ) (xs : List Cell) → Below n xs → n ≤ a → has a xs ≡ false
not-has n a [] b h = refl
not-has n a (c ∷ xs) b h = ground (arith, not-has n a xs b.2)

pub not-has-null : (n : ℕ) (xs : List Cell) → Below n xs → has null xs ≡ false
not-has-null n [] b = refl
not-has-null n (c ∷ xs) b = ground (arith, not-has-null n xs b.2)

pub has_last : (c : Cell) (xs : List Cell) → has (last_of c.address xs) (c ∷ xs) ≡ true
has_last c [] = ground arith
has_last c (x ∷ xs) = ground (arith, has_last x xs)

-- Memory may change anywhere else.
pub Linked-frame :
    (h g : Heap) (before : ℕ) (xs : List Cell) (after : ℕ)
    → Linked h before xs after
    → ((a : ℕ) → has a xs ≡ true → g a ≡ h a)
    → Linked g before xs after
Linked-frame h g before [] after l same = tt
Linked-frame h g before (c ∷ xs) after l same = (
  ground (arith, same c.address),
  Linked-frame h g c.address xs after l.1 (λ a i. same a (ground arith)),
)

abbrev pub relink_next : Heap → ℕ → ℕ → Heap
relink_next h p q = modify h p (λ e. record e { next = q })

abbrev pub relink_prev : Heap → ℕ → ℕ → Heap
relink_prev h p q = modify h p (λ e. record e { prev = q })

pub modify-ne : (h : Heap) {p a : ℕ} (f : Element → Element) → p ≢ a → modify h p f a ≡ h a
unfolding modify
modify-ne h f ne = ground arith

pub modify-cong :
    (g h : Heap) (p a : ℕ) (f : Element → Element) → g a ≡ h a → modify g p f a ≡ modify h p f a
unfolding modify
modify-cong g h p a f e = ground arith

pub load-ok : (d : DlList) (p : ℕ) {e : Element} → null < p → d.cells p ≡ some e → load p d ≡ ok e d
unfolding load
load-ok d p bound at_p = ground arith

pub place-ne : (h : Heap) {p a : ℕ} (e : Element) → p ≢ a → place h p e a ≡ h a
unfolding place
place-ne h e ne = ground arith

pub has_head : (c : Cell) (xs : List Cell) → has c.address (c ∷ xs) ≡ true
has_head c xs = ground arith

pub has-ne : {a b : ℕ} (xs : List Cell) → has a xs ≡ true → has b xs ≡ false → a ≢ b
has-ne xs i o e = cc

-- The last cell of a chain is pointed on to `q`.
pub Linked-relink_next :
    (h g : Heap) (before : ℕ) (xs : List Cell) (after q : ℕ)
    → Linked h before xs after
    → Distinct xs
    → ((a : ℕ) → has a xs ≡ true → g a ≡ relink_next h (last_of before xs) q a)
    → Linked g before xs q
unfolding modify
Linked-relink_next h g before [] after q l d e = tt
Linked-relink_next h g before (c ∷ []) after q l d e = (ground (arith, e c.address), tt)
Linked-relink_next h g before (c ∷ x ∷ xs) after q l d e = (
  e c.address (has_head c (x ∷ xs)) ∙ modify-ne h _ (has-ne (x ∷ xs) (has_last x xs) d.0) ∙ l.0,
  Linked-relink_next h g c.address (x ∷ xs) after q l.1 d.1 (λ a i. e a (ground arith)),
)

-- The first cell of a chain is pointed back to `q`.
pub Linked-relink_prev :
    (h g : Heap) (before : ℕ) (xs : List Cell) (after q : ℕ)
    → Linked h before xs after
    → Distinct xs
    → ((a : ℕ) → has a xs ≡ true → g a ≡ relink_prev h (head_of xs after) q a)
    → Linked g q xs after
unfolding modify
Linked-relink_prev h g before [] after q l d e = tt
Linked-relink_prev h g before (c ∷ xs) after q l d e = (
  ground (arith, e c.address),
  Linked-frame h g c.address xs after l.1 (λ a i. ground (arith, e a)),
)

pub head_of-append : (xs ys : List Cell) (z : ℕ) → head_of (xs ++ ys) z ≡ head_of xs (head_of ys z)
head_of-append [] ys z = refl
head_of-append (x ∷ xs) ys z = refl

pub last_of-append : (b : ℕ) (xs ys : List Cell) → last_of b (xs ++ ys) ≡ last_of (last_of b xs) ys
last_of-append b [] ys = refl
last_of-append b (x ∷ xs) ys = last_of-append x.address xs ys

pub Linked-append :
    (h : Heap) (before : ℕ) (xs ys : List Cell) (after : ℕ)
    → Linked h before xs (head_of ys after)
    → Linked h (last_of before xs) ys after
    → Linked h before (xs ++ ys) after
Linked-append h before [] ys after l m = m
Linked-append h before (x ∷ xs) ys after l m =
    (rw head_of-append l.0, Linked-append h x.address xs ys after l.1 m)

pub Linked-split :
    (h : Heap) (before : ℕ) (xs ys : List Cell) (after : ℕ)
    → Linked h before (xs ++ ys) after
    → Linked h before xs (head_of ys after) × Linked h (last_of before xs) ys after
Linked-split h before [] ys after l = (tt, l)
Linked-split h before (x ∷ xs) ys after l =
    let rest = Linked-split h x.address xs ys after l.1 in
    ((rw head_of-append at l.0, rest.0), rest.1)

pub Distinct-split :
    (xs ys : List Cell)
    → Distinct (xs ++ ys)
    → Distinct xs × Distinct ys × ((a : ℕ) → has a xs ≡ true → has a ys ≡ false)
Distinct-split [] ys d = (tt, d, λ a i. cc)
Distinct-split (x ∷ xs) ys d =
    let rest = Distinct-split xs ys d.1 in
    (
      (ground (arith, has-append x.address xs ys), rest.0),
      rest.1,
      λ a i. ground (arith, has-append x.address xs ys, rest.2 a),
    )

pub Distinct-append :
    (xs ys : List Cell)
    → Distinct xs
    → Distinct ys
    → ((a : ℕ) → has a xs ≡ true → has a ys ≡ false)
    → Distinct (xs ++ ys)
Distinct-append [] ys d e apart = e
Distinct-append (x ∷ xs) ys d e apart = (
  ground (arith, has-append x.address xs ys, apart x.address),
  Distinct-append xs ys d.1 e (λ a i. apart a (ground arith)),
)

pub Below-split : (n : ℕ) (xs ys : List Cell) → Below n (xs ++ ys) → Below n xs × Below n ys
Below-split n [] ys b = (tt, b)
Below-split n (x ∷ xs) ys b = let rest = Below-split n xs ys b.2 in ((b.0, b.1, rest.0), rest.1)

pub Below-append : (n : ℕ) (xs ys : List Cell) → Below n xs → Below n ys → Below n (xs ++ ys)
Below-append n [] ys b c = c
Below-append n (x ∷ xs) ys b c = (b.0, b.1, Below-append n xs ys b.2 c)

pub Below-suc : (n : ℕ) (xs : List Cell) → Below n xs → Below (n + 1) xs
Below-suc n [] b = tt
Below-suc n (x ∷ xs) b = (b.0, omega (arith, b.1), Below-suc n xs b.2)

-- The element at the end of a chain.
pub at_last :
    (h : Heap) (before : ℕ) (c : Cell) (xs : List Cell) (after : ℕ)
    → Linked h before (c ∷ xs) after
    → (e : Element) × (h (last_of c.address xs) ≡ some e)
at_last h before c [] after l = (_, l.0)
at_last h before c (x ∷ xs) after l = at_last h c.address x xs after l.1

pub Below-last :
    (n : ℕ) (c : Cell) (xs : List Cell)
    → Below n (c ∷ xs)
    → (null < last_of c.address xs) × (last_of c.address xs < n)
Below-last n c [] b = (b.0, b.1)
Below-last n c (x ∷ xs) b = Below-last n x xs b.2

abbrev pub last_key : Cell → List Cell → ℕ
last_key c [] = c.key
last_key c (x ∷ xs) = last_key x xs

pub at_last_key :
    (h : Heap) (before : ℕ) (c : Cell) (xs : List Cell) (after : ℕ)
    → Linked h before (c ∷ xs) after
    → (e : Element) × (h (last_of c.address xs) ≡ some e) × (e.key ≡ last_key c xs)
at_last_key h before c [] after l = (_, l.0, refl)
at_last_key h before c (x ∷ xs) after l = at_last_key h c.address x xs after l.1
