-- ===== src/Table/Laws.antt =====
-- What each operation of the table promises its callers.
use os_lab_nachos.Base.{
  ℕ, zero, suc, ◌+◌, ◌≤◌, ◌<◌, ◌≡◌, refl, sym, ap, ◌∙◌, ◌≢◌, inl, inr, Option, none, some, arith,
  get_or, set, length-set, length-replicate, replicate, get_or-set_self, get_or-set_ne, dec_lt,
  is_some, true,
}
use os_lab_nachos.Base.Exec.{Returns, ok, fault, assertion, out_of_bounds}
use os_lab_nachos.Base.Int.{pos, negsuc}
use os_lab_nachos.Table.{Table, init, scan, alloc, get, release_slot}
use os_lab_nachos.Table.Slots.{IsValid, Free, Used, Scanned, scan-Scanned}

module _ (me : ℕ) (beyond : Option ℕ) (t : Table) (v : IsValid t) (free : t.lock ≡ none) where
  abbrev found : ℕ
  found = scan beyond t (t.table_size + 1) 0

  found-Scanned : Scanned t 0 found
  found-Scanned = scan-Scanned beyond t v (t.table_size + 1) 0 (omega arith) (omega arith)

  alloc-ok :
      (object : Option ℕ)
      → found < t.table_size
      → alloc me beyond object t
        ≡ ok found (record t { base = set t.base found object; lock = none })
  unfolding alloc
  alloc-ok object h = ground arith

  -- On a table with a free slot, `Alloc` returns the lowest free index, stores the object there and
  -- nowhere else, and has released the lock.
  pub alloc-Free :
      (object : Option ℕ) (i : ℕ)
      → Free t i
      → Returns
          (λ r t'.
            Free t r × Used t 0 r × (t' ≡ record t { base = set t.base r object; lock = none }))
          (alloc me beyond object t)
  alloc-Free object i slot = elim found-Scanned.stopped [
    | inl e ↦ absurd (ground (arith, found-Scanned.used i))
    | inr f ↦ rw (alloc-ok object f.0) (f, found-Scanned.used, refl)
  ]

  -- `Alloc` takes the first slot where that is free.
  pub alloc_first :
      (object : Option ℕ)
      → Free t 0
      → alloc me beyond object t ≡ ok 0 (record t { base = set t.base 0 object; lock = none })
  alloc_first object slot =
      let at : found ≡ 0 = elim (dec_lt 0 found) [
        | yes lt ↦ absurd (taken slot.1 (found-Scanned.used 0 (omega arith) lt))
        | no ge ↦ omega arith
      ] in
      alloc-ok object (rw at slot.0)
      ∙ ap (λ n. ok n (record t { base = set t.base n object; lock = none })) at
    where
      taken : {o : Option ℕ} → o ≡ none → is_some o ≡ true → ⊥
      taken {o = none} e h = cc
      taken {o = some x} e h = cc

  -- On a full table `Alloc` does not return -1: whatever word stands behind the array, it stops at its
  -- assertion, with the lock held and the slots as they were.
  pub alloc-full :
      (object : Option ℕ)
      → Used t 0 t.table_size
      → alloc me beyond object t ≡ fault assertion (record t { lock = some me })
  unfolding alloc
  alloc-full object full = ground (arith, found-Scanned, full found)

module _ (me : ℕ) (t : Table) (free : t.lock ≡ none) where
  -- `Get` of an index below the size returns the slot and changes nothing.
  pub get-pos : (i : ℕ) → i < t.table_size → get me (pos i) t ≡ ok (get_or t.base i none) t
  unfolding get
  get-pos i h = ground arith

  -- `Get` and `Release` of an index at or above the size stop at their assertion and change no slot;
  -- a negative index passes the same assertion and goes below the array.
  pub bad_index :
      ((i : ℕ)
        → t.table_size ≤ i
        → (get me (pos i) t ≡ fault assertion (record t { lock = some me }))
          × (release_slot me (pos i) t ≡ fault assertion (record t { lock = some me })))
      × ((n : ℕ)
          → (get me (negsuc n) t ≡ fault out_of_bounds (record t { lock = some me }))
            × (release_slot me (negsuc n) t ≡ fault out_of_bounds (record t { lock = some me })))
  unfolding get release_slot
  bad_index = (λ i h. (ground arith, ground arith), λ n. (ground arith, ground arith))

  pub release_slot-pos :
      (i : ℕ)
      → i < t.table_size
      → release_slot me (pos i) t ≡ ok tt (record t { base = set t.base i none; lock = none })
  unfolding release_slot
  release_slot-pos i h = ground arith

-- A table in which slot `r` has been written and whose lock is free.
abbrev stored : Table → ℕ → Option ℕ → Table
stored t r object = record t { base = set t.base r object; lock = none }

module _ (me : ℕ) (t : Table) (v : IsValid t) (object : Option ℕ) (r : ℕ)
    (h : r < t.table_size) where
  stored-IsValid : IsValid (stored t r object)
  stored-IsValid = record { filled = length-set t.base r object ∙ v.filled }

  slot_self : get_or (stored t r object).base r none ≡ object
  slot_self = get_or-set_self t.base r object none (omega (arith, v.filled))

  get_self : get me (pos r) (stored t r object) ≡ ok object (stored t r object)
  get_self = get-pos me (stored t r object) refl r h ∙ ap (λ o. ok o (stored t r object)) slot_self

  get-other :
      (j : ℕ)
      → j ≢ r
      → j < t.table_size
      → get me (pos j) (stored t r object) ≡ ok (get_or t.base j none) (stored t r object)
  get-other j ne lt =
      get-pos me (stored t r object) refl j lt
      ∙ ap (λ o. ok o (stored t r object)) (get_or-set_ne t.base object none (λ e. ne (sym e)))

module _ (me : ℕ) (beyond : Option ℕ) (t : Table) (v : IsValid t) (free : t.lock ≡ none) where
  -- What `Alloc` returns is the index under which `Get` finds the object, for every other index `Get`
  -- finds what it found before, and the table stays valid with its lock free.
  pub get-alloc :
      (object : Option ℕ) (i : ℕ)
      → Free t i
      → Returns
          (λ r t'.
            IsValid t'
            × (t'.lock ≡ none)
            × (get me (pos r) t' ≡ ok object t')
            × ((j : ℕ)
                → j ≢ r
                → j < t.table_size
                → get me (pos j) t' ≡ ok (get_or t.base j none) t'))
          (alloc me beyond object t)
  get-alloc object i slot = elim (found-Scanned me beyond t v free).stopped [
    | inl e ↦ absurd (ground (arith, (found-Scanned me beyond t v free).used i))
    | inr f ↦ rw (alloc-ok me beyond t v free object f.0) (
      stored-IsValid me t v object _ f.0,
      refl,
      get_self me t v object _ f.0,
      get-other me t v object _ f.0,
    )
  ]

module _ (me : ℕ) (t : Table) (v : IsValid t) (free : t.lock ≡ none) where
  -- `Release` of an index in range empties its slot for `Get`, keeps the others, and makes the index
  -- free for `Alloc`; the table stays valid with its lock free.
  pub get-release_slot :
      (i : ℕ)
      → i < t.table_size
      → Returns
          (λ _ t'.
            IsValid t'
            × (t'.lock ≡ none)
            × Free t' i
            × (get me (pos i) t' ≡ ok none t')
            × ((j : ℕ)
                → j ≢ i
                → j < t.table_size
                → get me (pos j) t' ≡ ok (get_or t.base j none) t'))
          (release_slot me (pos i) t)
  get-release_slot i h = rw (release_slot-pos me t free i h) (
    stored-IsValid me t v none i h,
    refl,
    (h, slot_self me t v none i h),
    get_self me t v none i h,
    get-other me t v none i h,
  )

get_or-replicate : (n i : ℕ) → get_or {A = Option ℕ} (replicate n none) i none ≡ none
get_or-replicate zero i = refl
get_or-replicate (suc n) zero = refl
get_or-replicate (suc n) (suc i) = get_or-replicate n i

-- A new table is valid, its lock is free and each of its slots is.
pub init-IsValid :
    (size : ℕ)
    → IsValid (init size) × ((init size).lock ≡ none) × ((i : ℕ) → i < size → Free (init size) i)
unfolding init
init-IsValid size =
    (record { filled = length-replicate size none }, refl, λ i h. (h, get_or-replicate size i))
