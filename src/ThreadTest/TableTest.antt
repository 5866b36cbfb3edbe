-- ===== src/ThreadTest/TableTest.antt =====
-- The producers and consumers of threads/threadtest.cc on one Table. A consumer's search calls `Get` for
-- each index and its `Release` comes later, so other threads may run between the two.
use os_lab_nachos.Base.{
  ℕ, zero, suc, ◌+◌, ◌<◌, ◌≤◌, ◌≡◌, refl, ap, ◌∙◌, Option, none, some, List, arith, is_some,
  if◌then◌else◌, get_or, set, dec_lt, [], ◌∷◌, length-set, get_or-set_self,
}
use os_lab_nachos.Base.Exec.{Cmd, Result, ok, asleep, fault, null_pointer, pure, stop, ◌>>=◌, ◌>>◌}
use os_lab_nachos.Base.Int.{ℤ, pos, negsuc}
use os_lab_nachos.Table.{Table, alloc, get, release_slot}
use os_lab_nachos.Table.Slots.{IsValid}
use os_lab_nachos.Table.Laws.{get-pos, alloc_first, release_slot-pos, bad_index}

-- The loop of `TestTable_consumer` from index `i` on: the index and the item where it breaks, or nothing.
unfoldable pub search : (me fuel i : ℕ) → Cmd Table (Option ℕ × Option ℕ)
search me zero i = pure (none, none)
search me (suc fuel) i = do
  item ← get me (pos i)
  let rest = search me fuel (i + 1)
  if is_some item then pure (some i, item) else rest

-- `index` behind the loop; where the loop never breaks it is what lay in that variable
abbrev pub index_or : ℤ → Option ℕ → ℤ
index_or garbage none = garbage
index_or garbage (some i) = pos i

-- The rest of the round: `Release`, and the item is read.
unfoldable pub take_found : (me : ℕ) → ℤ → Option ℕ → Cmd Table (ℤ × ℕ)
take_found me index none = release_slot me index >> stop null_pointer
take_found me index (some item) = release_slot me index >> pure (index, item)

-- the body of the loop of `TestTable_consumer`, `size` being TABLESIZE
unfoldable pub consume : (me size : ℕ) → ℤ → Cmd Table (ℤ × ℕ)
unfolding search take_found
consume me size garbage = do
  (index, item) ← search me size 0
  take_found me (index_or garbage index) item

-- the body of the loop of `TestTable_producer`, with the address of the new int
unfoldable pub produce : (me : ℕ) (beyond : Option ℕ) (item : ℕ) → Cmd Table ℕ
produce me beyond item = alloc me beyond (some item)

-- Slots `from` to `to` are empty.
abbrev pub Empty : Table → ℕ → ℕ → Type 0
Empty t from to = (j : ℕ) → from ≤ j → j < to → get_or t.base j none ≡ none

-- the lowest slot that holds an item, from `from` on
abbrev pub Lowest : Table → ℕ → ℕ → ℕ → Type 0
Lowest t from i x =
    (i < t.table_size) × (from ≤ i) × (get_or t.base i none ≡ some x) × Empty t from i

-- the outcome of a round that finds nothing
abbrev pub Stopped : Result Table (ℤ × ℕ) → Type 0
Stopped (ok a t) = ⊥
Stopped (asleep t) = ⊥
Stopped (fault e t) = Unit {0}

module _ (me : ℕ) (t : Table) (free : t.lock ≡ none) where
  search_found :
      (fuel from i x : ℕ)
      → fuel + from ≡ t.table_size
      → Lowest t from i x
      → search me fuel from t ≡ ok (some i, some x) t
  unfolding search
  search_found zero from i x h low = absurd (omega (arith, low.0, low.1))
  search_found (suc fuel) from i x h (lt, ge, e, empty) = elim (dec_lt from i) [
    | yes before ↦
        rw (get-pos me t free from (omega arith), empty from (omega arith) before)
          (search_found fuel (from + 1) i x (omega arith)
            (lt, omega arith, e, λ j low high. empty j (omega arith) high))
    | no at ↦
        let same : i ≡ from = omega arith in
        rw (get-pos me t free from (omega arith), ← same, e) refl
  ]

  search-none :
      (fuel from : ℕ)
      → fuel + from ≡ t.table_size
      → Empty t from t.table_size
      → search me fuel from t ≡ ok (none, none) t
  unfolding search
  search-none zero from h empty = refl
  search-none (suc fuel) from h empty =
      rw (get-pos me t free from (omega arith), empty from (omega arith) (omega arith))
        (search-none fuel (from + 1) (omega arith) (λ j low high. empty j (omega arith) high))

  abbrev pub emptied : ℕ → Table
  emptied i = record t { base = set t.base i none; lock = none }

  -- A consumer's round that no other thread disturbs takes the item of the lowest slot in use: it returns
  -- this index and the item, and the table has this slot emptied and is otherwise as it was.
  pub consume-Lowest :
      (i x : ℕ) (garbage : ℤ)
      → Lowest t 0 i x
      → consume me t.table_size garbage t ≡ ok (pos i, x) (emptied i)
  unfolding consume
  consume-Lowest i x garbage low =
      rw (search_found t.table_size 0 i x (omega arith) low, release_slot-pos me t free i low.0)
        refl

  -- On a table without an item the round does not return, whatever lay in the variable of the index:
  -- `Release` refuses it, or takes it and the item is read through NULL.
  pub consume-Empty :
      (garbage : ℤ) → Empty t 0 t.table_size → Stopped (consume me t.table_size garbage t)
  unfolding consume
  consume-Empty (pos g) empty = elim (dec_lt g t.table_size) [
    | yes lt ↦
        rw (search-none t.table_size 0 (omega arith) empty, release_slot-pos me t free g lt) tt
    | no ge ↦
        rw
          (
            search-none t.table_size 0 (omega arith) empty,
            ((bad_index me t free).0 g (omega arith)).1,
          )
          tt
  ]
  consume-Empty (negsuc n) empty =
      rw (search-none t.table_size 0 (omega arith) empty, ((bad_index me t free).1 n).1) tt

-- Two consumers have searched before either releases; between the two releases a producer puts an item.
abbrev pub race :
    (a b p : ℕ) (beyond : Option ℕ) (size item : ℕ) (garbage : ℤ) → Cmd Table (ℕ × ℕ × ℕ)
race a b p beyond size item garbage = do
  (i, x) ← search a size 0
  (j, y) ← search b size 0
  (_, first) ← take_found a (index_or garbage i) x
  slot ← produce p beyond item
  (_, second) ← take_found b (index_or garbage j) y
  pure (first, second, slot)

set-set : (xs : List (Option ℕ)) (i : ℕ) (o q : Option ℕ) → set (set xs i o) i q ≡ set xs i q
set-set [] i o q = refl
set-set (x ∷ xs) zero o q = refl
set-set (x ∷ xs) (suc i) o q = ap (λ (r : List (Option ℕ)). x ∷ r) (set-set xs i o q)

module _ (a b p : ℕ) (beyond : Option ℕ) (t : Table) (v : IsValid t) (free : t.lock ≡ none) where
  abbrev cleared : Table
  cleared = emptied a t free 0

  cleared-IsValid : IsValid cleared
  cleared-IsValid = record { filled = length-set t.base 0 none ∙ v.filled }

  -- Where slot 0 is in use, this order of the calls hands its item to both consumers, and the item that
  -- the producer put into slot 0 meanwhile is removed without having been handed to anyone.
  pub race_lem :
      (x item : ℕ) (garbage : ℤ)
      → Lowest t 0 0 x
      → race a b p beyond t.table_size item garbage t ≡ ok (x, x, 0) (emptied a t free 0)
  unfolding take_found produce
  race_lem x item garbage low =
      rw
        (
          search_found a t free t.table_size 0 0 x (omega arith) low,
          search_found b t free t.table_size 0 0 x (omega arith) low,
          release_slot-pos a t free 0 low.0,
          alloc_first p beyond cleared cleared-IsValid refl (some item) (low.0, slot),
          release_slot-pos b refilled refl 0 low.0,
          set-set t.base 0 none (some item),
          set-set t.base 0 (some item) none,
        )
        refl
    where
      slot : get_or cleared.base 0 none ≡ none
      slot = get_or-set_self t.base 0 none none (omega (arith, v.filled, low.0))

      refilled : Table
      refilled = record cleared { base = set cleared.base 0 (some item); lock = none }
