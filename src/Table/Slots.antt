-- ===== src/Table/Slots.antt =====
-- Free slots, and the loop of `Alloc`.
use os_lab_nachos.Base.{
  ℕ, zero, suc, ◌+◌, ◌≤◌, ◌<◌, ◌≡◌, refl, ◌⊎◌, inl, inr, true, Option, none, arith, Bool-cases,
  is_some, length, get_or, List, ◌∷◌, [], dec_lt, lt→ltb, le→ltb, and_false,
}
use os_lab_nachos.Table.{Table, scan}

pub record IsValid (t : Table) : Type 0 where
  pub filled : length t.base ≡ t.table_size

abbrev pub Free : Table → ℕ → Type 0
Free t i = (i < t.table_size) × (get_or t.base i none ≡ none)

-- Slots `from` to `to` hold objects.
abbrev pub Used : Table → ℕ → ℕ → Type 0
Used t from to = (j : ℕ) → from ≤ j → j < to → is_some (get_or t.base j none) ≡ true

-- The loop stops by its test: at the end of the table or at a free slot, behind used ones only.
pub record Scanned (t : Table) (from to : ℕ) : Type 0 where
  pub above : from ≤ to
  pub within : to ≤ t.table_size
  pub used : Used t from to
  pub stopped : (to ≡ t.table_size) ⊎ Free t to

get_or_in_range :
    (xs : List (Option ℕ)) (i : ℕ) (d e : Option ℕ) → i < length xs → get_or xs i d ≡ get_or xs i e
get_or_in_range [] i d e h = absurd (omega arith)
get_or_in_range (x ∷ xs) zero d e h = refl
get_or_in_range (x ∷ xs) (suc i) d e h = get_or_in_range xs i d e (omega arith)

module _ (beyond : Option ℕ) (t : Table) (v : IsValid t) where
  Scanned-step :
      (i to : ℕ) → is_some (get_or t.base i none) ≡ true → Scanned t (i + 1) to → Scanned t i to
  Scanned-step i to full s = record {
    above = omega (arith, s.above);
    within = s.within;
    used = λ j low high. elim (dec_lt i j) [
      | yes lt ↦ s.used j (omega arith) high
      | no eq ↦ let e : i ≡ j = omega arith in rw (← e) full
    ];
    stopped = s.stopped;
  }

  -- `table_size + 1 - i` rounds are enough.
  pub scan-Scanned :
      (fuel i : ℕ) → i ≤ t.table_size → t.table_size < i + fuel → Scanned t i (scan beyond t fuel i)
  unfolding scan
  scan-Scanned zero i h enough = absurd (omega arith)
  scan-Scanned (suc fuel) i h enough = elim (dec_lt i t.table_size) [
    | yes lt ↦
        let same_word : get_or t.base i beyond ≡ get_or t.base i none =
          get_or_in_range t.base i beyond none (omega (arith, v.filled)) in
        elim (Bool-cases (is_some (get_or t.base i none))) [
          | inl full ↦
              rw (same_word, full, lt→ltb i t.table_size lt)
                (Scanned-step i _ full (scan-Scanned fuel (i + 1) (omega arith) (omega arith)))
          | inr free ↦
              rw (same_word, free)
                (record {
                  above = omega arith;
                  within = h;
                  used = λ j low high. absurd (omega arith);
                  stopped = inr (lt, ground arith);
                })
        ]
    | no end ↦
        rw (le→ltb i t.table_size (omega arith), and_false _)
          (record {
            above = omega arith;
            within = h;
            used = λ j low high. absurd (omega arith);
            stopped = inl (omega arith);
          })
  ]
