-- ===== src/Elevator/Requests/Farthest.antt =====
-- The floor that `GetLastRequestFloor` (threads/Elevator.cc) finds.
use mathlib.Core.Path.{subst}
use os_lab_nachos.Base.{
  ℕ, zero, suc, ◌≡◌, ◌+◌, ◌≤◌, ◌<◌, refl, ◌⊎◌, inl, inr, Bool, true, false, Option, none, some,
  arith, Bool-cases, ◌==◌, ==_iff,
}
use os_lab_nachos.Base.Int.{ℤ, pos, minus_one}
use os_lab_nachos.Elevator.Requests.{scan_up, scan_down}

-- No floor from `lo` on and below `hi` is wanted.
abbrev pub Nowhere : (ℕ → Bool) → ℕ → ℕ → Type 0
Nowhere wanted lo hi = (j : ℕ) → lo ≤ j → j < hi → wanted j ≡ false

-- the least and the greatest wanted floor of a range, or -1
abbrev pub IsLeast : (ℕ → Bool) → ℕ → ℕ → ℤ → Type 0
IsLeast wanted lo hi r =
    ((r ≡ minus_one) × Nowhere wanted lo hi)
    ⊎ ((m : ℕ) × (r ≡ pos m) × (lo ≤ m) × (m < hi) × (wanted m ≡ true) × Nowhere wanted lo m)

abbrev pub IsGreatest : (ℕ → Bool) → ℕ → ℕ → ℤ → Type 0
IsGreatest wanted lo hi r =
    ((r ≡ minus_one) × Nowhere wanted lo hi)
    ⊎ ((m : ℕ) × (r ≡ pos m) × (lo ≤ m) × (m < hi) × (wanted m ≡ true) × Nowhere wanted (m + 1) hi)

abbrev pub Found : (ℤ → Type 0) → Option ℤ → Type 0
Found P none = ⊥
Found P (some r) = P r

Found-mono : (P R : ℤ → Type 0) (o : Option ℤ) → ((r : ℤ) → P r → R r) → Found P o → Found R o
Found-mono P R none weaken h = h
Found-mono P R (some r) weaken h = weaken r h

module _ (test : ℤ → Option Bool) (wanted : ℕ → Bool) where
  abbrev pub Reads : ℕ → ℕ → Type 0
  Reads lo hi = (j : ℕ) → lo ≤ j → j < hi → test (pos j) ≡ some (wanted j)

  Nowhere-below :
      (lo hi : ℕ) → wanted lo ≡ false → Nowhere wanted (lo + 1) hi → Nowhere wanted lo hi
  Nowhere-below lo hi f rest j h g = elim (Bool-cases (lo == j)) [
    | inl t ↦ subst (λ (j : ℕ). wanted j ≡ false) ((==_iff lo j).0 t) f
    | inr n ↦ rest j (ground arith) g
  ]

  Nowhere-above :
      (lo top hi : ℕ)
      → wanted top ≡ false
      → hi ≡ top + 1
      → Nowhere wanted lo top
      → Nowhere wanted lo hi
  Nowhere-above lo top hi f e rest j h g = elim (Bool-cases (top == j)) [
    | inl t ↦ subst (λ (j : ℕ). wanted j ≡ false) ((==_iff top j).0 t) f
    | inr n ↦ rest j h (ground arith)
  ]

  IsLeast-below :
      (lo hi : ℕ) (r : ℤ)
      → wanted lo ≡ false
      → IsLeast wanted (lo + 1) hi r
      → IsLeast wanted lo hi r
  IsLeast-below lo hi r f (inl (e, nowhere)) = inl (e, Nowhere-below lo hi f nowhere)
  IsLeast-below lo hi r f (inr (m, e, h, g, w, nowhere)) =
      inr (m, e, omega arith, g, w, Nowhere-below lo m f nowhere)

  IsGreatest-above :
      (lo top hi : ℕ) (r : ℤ)
      → wanted top ≡ false
      → hi ≡ top + 1
      → IsGreatest wanted lo top r
      → IsGreatest wanted lo hi r
  IsGreatest-above lo top hi r f same_top (inl (e, nowhere)) =
      inl (e, Nowhere-above lo top hi f same_top nowhere)
  IsGreatest-above lo top hi r f same_top (inr (m, e, h, g, w, nowhere)) =
      inr (m, e, h, omega arith, w, Nowhere-above (m + 1) top hi f same_top nowhere)

  pub scan_up_lem :
      (n lo hi : ℕ) → hi ≡ lo + n → Reads lo hi → Found (IsLeast wanted lo hi) (scan_up test lo n)
  unfolding scan_up
  scan_up_lem zero lo hi e reads = inl (refl, λ j h g. absurd (omega arith))
  scan_up_lem (suc n) lo hi e reads =
      rw (Found, reads lo (omega arith) (omega arith))
        (elim (Bool-cases (wanted lo)) [
          | inl t ↦
              rw t (inr (lo, refl, omega arith, omega arith, t, λ j h g. absurd (omega arith)))
          | inr f ↦ rw f (
              Found-mono (IsLeast wanted (lo + 1) hi) (IsLeast wanted lo hi)
                (scan_up test (lo + 1) n) (λ r. IsLeast-below lo hi r f)
                (scan_up_lem n (lo + 1) hi (omega arith) (λ j h g. reads j (omega arith) g)))
        ])

  pub scan_down_lem :
      (n lo hi : ℕ)
      → hi ≡ lo + n
      → Reads lo hi
      → Found (IsGreatest wanted lo hi) (scan_down test lo n)
  unfolding scan_down
  scan_down_lem zero lo hi e reads = inl (refl, λ j h g. absurd (omega arith))
  scan_down_lem (suc n) lo hi e reads =
      rw (Found, reads (lo + n) (omega arith) (omega arith))
        (elim (Bool-cases (wanted (lo + n))) [
          | inl t ↦
              rw t (inr (lo + n, refl, omega arith, omega arith, t, λ j h g. absurd (omega arith)))
          | inr f ↦ rw f (
              Found-mono (IsGreatest wanted lo (lo + n)) (IsGreatest wanted lo hi)
                (scan_down test lo n) (λ r. IsGreatest-above lo (lo + n) hi r f (omega arith))
                (scan_down_lem n lo (lo + n) refl (λ j h g. reads j h (omega arith))))
        ])
