-- ===== src/Synch/Exclusion/Owner.antt =====
-- Who may be between the acquisition and the release of a lock of threads/synch.cc.
use os_lab_nachos.Base.{
  ℕ, ◌≡◌, ◌≢◌, ◌+◌, ◌-◌, ◌<◌, refl, ap, sym, ◌∙◌, ◌⊎◌, inl, inr, Bool, true, false, Option, none,
  some, arith, ◌==◌, ==_iff, Bool-cases,
}
use os_lab_nachos.Synch.Exclusion.{Pc, taken, critical, entering, checking, clearing, update}

-- The thread has the unit of `sem`.
abbrev pub inside : Pc → Bool
inside taken = true
inside critical = true
inside entering = true
inside checking = true
inside clearing = true
inside _ = false

-- `LockHoder` names the thread.
abbrev pub named : Pc → ℕ → Option ℕ
named critical t = some t
named entering t = some t
named checking t = some t
named _ t = none

-- Nobody is inside, or one thread alone.
abbrev pub Owned : (units : ℕ) → Option ℕ → (ℕ → Pc) → Type 0
Owned units holder pc =
    ((units ≡ 1) × (holder ≡ none) × ((t : ℕ) → inside (pc t) ≡ false))
    ⊎ ((units ≡ 0)
        × ((o : ℕ) × (inside (pc o) ≡ true)
            × (holder ≡ named (pc o) o)
            × ((t : ℕ) → inside (pc t) ≡ true → t ≡ o)))

update_self : (pc : ℕ → Pc) (me : ℕ) (q : Pc) → update pc me q me ≡ q
update_self pc me q = ground arith

update_other : (pc : ℕ → Pc) (me t : ℕ) (q : Pc) → t ≢ me → update pc me q t ≡ pc t
update_other pc me t q h = ground arith

module _ (pc : ℕ → Pc) (me : ℕ) (q : Pc) where
  all_out :
      inside q ≡ false
      → ((t : ℕ) → t ≢ me → inside (pc t) ≡ false)
      → (t : ℕ) → inside (update pc me q t) ≡ false
  all_out out rest t = elim (Bool-cases (t == me)) [
    | inl e ↦ rw e out
    | inr f ↦ rw f (rest t (λ same_one. differ t same_one f))
  ]
    where
      differ : (t : ℕ) → t ≡ me → (t == me) ≢ false
      differ t e f = ground arith

  only_one :
      (o : ℕ)
      → ((t : ℕ) → t ≢ me → inside (pc t) ≡ true → t ≡ o)
      → (inside q ≡ true → me ≡ o)
      → (t : ℕ) → inside (update pc me q t) ≡ true
      → t ≡ o
  only_one o rest mine t = elim (Bool-cases (t == me)) [
    | inl e ↦ rw e (λ i. (==_iff t me).0 e ∙ mine i)
    | inr f ↦ rw f (rest t (λ same_one. differ t same_one f))
  ]
    where
      differ : (t : ℕ) → t ≡ me → (t == me) ≢ false
      differ t e f = ground arith

  not_me : (o : ℕ) → inside (pc o) ≡ true → inside (pc me) ≡ false → o ≢ me
  not_me o i out e = absurd cc

  pub stays_out :
      (u : ℕ) (h : Option ℕ)
      → inside (pc me) ≡ false
      → inside q ≡ false
      → Owned u h pc
      → Owned u h (update pc me q)
  stays_out u h out out' (inl (unit, none_named, none_in)) =
      inl (unit, none_named, all_out out' (λ t _. none_in t))
  stays_out u h out out' (inr (unit, (o, i, holder, only))) =
      let other = update_other pc me o q (not_me o i out) in
      inr (
        unit,
        (
          o,
          ap inside other ∙ i,
          holder ∙ sym (ap (λ r. named r o) other),
          only_one o (λ t _. only t) (λ i'. absurd cc),
        ),
      )

  pub enters :
      (u : ℕ) (h : Option ℕ)
      → 0 < u
      → inside q ≡ true
      → named q me ≡ none
      → Owned u h pc
      → Owned (u - 1) h (update pc me q)
  enters u h pos in' unnamed (inl (unit, none_named, none_in)) = inr (
    omega arith,
    (
      me,
      ap inside (update_self pc me q) ∙ in',
      none_named ∙ sym (ap (λ r. named r me) (update_self pc me q) ∙ unnamed),
      only_one me (λ t _ i. absurd (none_true t i)) (λ _. refl),
    ),
  )
    where
      none_true : (t : ℕ) → inside (pc t) ≢ true
      none_true t i = let out = none_in t in absurd cc
  enters u h pos in' unnamed (inr (unit, owner)) = absurd (omega arith)

  pub owner_is :
      (u : ℕ) (h : Option ℕ)
      → inside (pc me) ≡ true
      → Owned u h pc
      → (u ≡ 0) × (h ≡ named (pc me) me) × ((t : ℕ) → inside (pc t) ≡ true → t ≡ me)
  owner_is u h i (inl (unit, none_named, none_in)) = let out = none_in me in absurd cc
  owner_is u h i (inr (unit, (o, i', holder, only))) =
      let mine : o ≡ me = sym (only me i) in
      (unit, holder ∙ ap (λ o. named (pc o) o) mine, λ t j. only t j ∙ mine)

  pub moves_on :
      (u : ℕ) (h : Option ℕ)
      → inside (pc me) ≡ true
      → inside q ≡ true
      → Owned u h pc
      → Owned u (named q me) (update pc me q)
  moves_on u h i i' owned =
      let (unit, holder, only) = owner_is u h i owned in
      inr (
        unit,
        (
          me,
          ap inside (update_self pc me q) ∙ i',
          sym (ap (λ r. named r me) (update_self pc me q)),
          only_one me (λ t _. only t) (λ _. refl),
        ),
      )

  pub leaves :
      (u : ℕ) (h : Option ℕ)
      → inside (pc me) ≡ true
      → inside q ≡ false
      → named (pc me) me ≡ none
      → Owned u h pc
      → Owned (u + 1) h (update pc me q)
  leaves u h i out unnamed owned =
      let (unit, holder, only) = owner_is u h i owned in
      inl (omega arith, holder ∙ unnamed, all_out out (λ t other. not_in t other only))
    where
      not_in : (t : ℕ) → t ≢ me → ((t : ℕ) → inside (pc t) ≡ true → t ≡ me) → inside (pc t) ≡ false
      not_in t other only = elim (Bool-cases (inside (pc t))) [
        | inl j ↦ absurd (other (only t j))
        | inr f ↦ f
      ]
