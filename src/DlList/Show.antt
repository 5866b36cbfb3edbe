-- ===== src/DlList/Show.antt =====
-- The two traversals print the list from both ends.
use mathlib.Core.List.{reverse, reverse-append, append_assoc, append-nil}
use mathlib.Core.Path.{ap₂, subst}
use os_lab_nachos.Base.{
  ℕ, suc, zero, ◌<◌, ◌≡◌, ◌+◌, ◌-◌, refl, ◌∙◌, ap, sym, List, [], ◌∷◌, ◌++◌, arith, length,
}
use os_lab_nachos.Base.Exec.{ok}
use os_lab_nachos.DlList.Heap.{null, Element, DlList, load}
use os_lab_nachos.DlList.{walk, show_elements, show_elements_reverse}
use os_lab_nachos.DlList.Chain.{
  Cell, IsList, Holds, entries, head_of, last_of, Linked, Below, load-ok,
}
use os_lab_nachos.DlList.Locked.{is_empty-nil, is_empty-cons}
use os_lab_nachos.DlList.Remove.{NoNull}

-- what is printed of the entries
abbrev pub shown : (ℕ → ℕ) → List (ℕ × ℕ) → List (ℕ × ℕ)
shown chars [] = []
shown chars ((v, k) ∷ l) = (chars v, k) ∷ shown chars l

module _ (chars : ℕ → ℕ) where
  walk-next :
      (d : DlList) (before : ℕ) (xs : List Cell) (fuel : ℕ) (out : List (ℕ × ℕ))
      → Linked d.cells before xs null
      → Below d.fresh xs
      → NoNull (entries xs)
      → length xs < fuel
      → walk chars (λ e. e.next) fuel (head_of xs null) out d
        ≡ ok (out ++ shown chars (entries xs)) d
  unfolding walk load
  walk-next d before xs zero out l b real enough = absurd (omega arith)
  walk-next d before [] (suc fuel) out l b real enough = rw append-nil
  walk-next d before (c ∷ xs) (suc fuel) out l b real enough = ground (
    arith,
    l.0,
    b.0,
    real.0,
    walk-next d c.address xs fuel (out ++ (chars c.item, c.key) ∷ []) l.1 b.2 real.1 (omega arith),
    append_assoc out ((chars c.item, c.key) ∷ []) (shown chars (entries xs)),
  )

  step-prev :
      (d : DlList) (before after : ℕ) (c : Cell) (xs : List Cell) (fuel : ℕ) (out : List (ℕ × ℕ))
      → Linked d.cells before (c ∷ xs) after
      → null < c.address
      → 0 < c.item
      → walk chars (λ e. e.prev) (suc fuel) c.address out d
        ≡ walk chars (λ e. e.prev) fuel before (out ++ (chars c.item, c.key) ∷ []) d
  unfolding walk
  step-prev d before after c xs fuel out l b real = ground (arith, real, load-ok d c.address b l.0)

  -- Walking back from the end of `xs` prints it reversed and goes on from `before`.
  walk-prev :
      (d : DlList) (before : ℕ) (xs : List Cell) (after fuel : ℕ) (out : List (ℕ × ℕ))
      → Linked d.cells before xs after
      → Below d.fresh xs
      → NoNull (entries xs)
      → walk chars (λ e. e.prev) (length xs + fuel) (last_of before xs) out d
        ≡ walk chars (λ e. e.prev) fuel before (out ++ reverse (shown chars (entries xs))) d
  walk-prev d before [] after fuel out l b real =
      ap₂ (λ (n : ℕ) (o : List (ℕ × ℕ)). walk chars (λ e. e.prev) n before o d) (omega arith)
        (sym (append-nil out))
  walk-prev d before (c ∷ xs) after fuel out l b real =
      ap (λ (n : ℕ). walk chars (λ e. e.prev) n (last_of c.address xs) out d) (omega arith)
      ∙ walk-prev d c.address xs after (suc fuel) out l.1 b.2 real.1
      ∙ step-prev d before after c xs fuel (out ++ reverse (shown chars (entries xs))) l b.0 real.0
      ∙ ap (λ (o : List (ℕ × ℕ)). walk chars (λ e. e.prev) fuel before o d)
          (append_assoc out (reverse (shown chars (entries xs))) ((chars c.item, c.key) ∷ [])
            ∙ ap (λ (o : List (ℕ × ℕ)). out ++ o)
                (sym (reverse-append ((chars c.item, c.key) ∷ []) (shown chars (entries xs)))))

  walk_end :
      (d : DlList) (step : Element → ℕ) (fuel : ℕ) (out : List (ℕ × ℕ))
      → 0 < fuel
      → walk chars step fuel null out d ≡ ok out d
  unfolding walk
  walk_end d step zero out h = absurd (omega arith)
  walk_end d step (suc fuel) out h = refl

  show_cells :
      (d : DlList) (xs : List Cell)
      → IsList d xs
      → NoNull (entries xs)
      → (show_elements chars d ≡ ok (shown chars (entries xs)) d)
        × (show_elements_reverse chars d ≡ ok (reverse (shown chars (entries xs))) d)
  unfolding show_elements show_elements_reverse
  show_cells d [] is real = (rw (is_empty-nil is), rw (is_empty-nil is))
  show_cells d (c ∷ xs) is real = (
    rw (is_empty-cons is) (
        ap (λ (p : ℕ). walk chars (λ e. e.next) d.fresh p [] d) is.first
        ∙ walk-next d null (c ∷ xs) d.fresh [] is.linked is.below real is.count),
    rw (is_empty-cons is) (
        ap₂ (λ (n p : ℕ). walk chars (λ e. e.prev) n p [] d) enough is.last
        ∙ walk-prev d null (c ∷ xs) null (d.fresh - length (c ∷ xs)) [] is.linked is.below real
        ∙ walk_end d _ (d.fresh - length (c ∷ xs)) _ (omega (arith, is.count))),
  )
    where
      enough : d.fresh ≡ length (c ∷ xs) + (d.fresh - length (c ∷ xs))
      enough = omega (arith, is.count)

  -- On a list with no NULL item, `ShowElements` prints the chars that the items point to and the keys in
  -- order, `ShowElementsReverse` the same backwards; neither changes the list.
  pub show_lem :
      (d : DlList) (l : List (ℕ × ℕ))
      → Holds d l
      → NoNull l
      → (show_elements chars d ≡ ok (shown chars l) d)
        × (show_elements_reverse chars d ≡ ok (reverse (shown chars l)) d)
  show_lem d l (xs, is, e) real =
      subst
        (λ (l : List (ℕ × ℕ)).
          (show_elements chars d ≡ ok (shown chars l) d)
          × (show_elements_reverse chars d ≡ ok (reverse (shown chars l)) d))
        e (show_cells d xs is (subst NoNull (sym e) real))
