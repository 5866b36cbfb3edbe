-- ===== src/Table/Tests.antt =====
-- The table at concrete inputs.
use os_lab_nachos.Base.{ℕ, ◌≡◌, refl, ◌≢◌, ◌<◌, get_or, set, none, some, [], ◌∷◌, arith, zero, suc}
use os_lab_nachos.Base.Exec.{Returns, ok, fault, assertion, out_of_bounds}
use os_lab_nachos.Base.Int.{pos, negsuc}
use os_lab_nachos.Table.{Table, scan, alloc, get, release_slot}
use os_lab_nachos.Table.Slots.{IsValid, Free, Used}
use os_lab_nachos.Table.Laws.{alloc-Free, alloc-full, bad_index, get-alloc, get-release_slot}

abbrev three : Table
three = record { table_size = 3; lock = none; base = some 7 ∷ none ∷ some 9 ∷ [] }

abbrev packed : Table
packed = record { table_size = 2; lock = none; base = some 7 ∷ some 8 ∷ [] }

three-IsValid : IsValid three
three-IsValid = record { filled = refl }

alloc_runs :
    alloc 1 none (some 5) three
    ≡ ok 1 (record { table_size = 3; lock = none; base = some 7 ∷ some 5 ∷ some 9 ∷ [] })
unfolding alloc scan
alloc_runs = refl

packed-Used : Used packed 0 2
packed-Used zero low high = refl
packed-Used (suc zero) low high = refl
packed-Used (suc (suc j)) low high = absurd (omega arith)

alloc-Free_run :
    Returns
      (λ r t'.
        Free three r
        × Used three 0 r
        × (t' ≡ record three { base = set three.base r (some 5); lock = none }))
      (alloc 1 (some 0) (some 5) three)
alloc-Free_run = alloc-Free 1 (some 0) three three-IsValid refl (some 5) 1 (omega arith, refl)

alloc-full_example :
    alloc 1 none (some 5) packed ≡ fault assertion (record packed { lock = some 1 })
alloc-full_example = alloc-full 1 none packed (record { filled = refl }) refl (some 5) packed-Used

bad_index_run : get 1 (negsuc 0) three ≡ fault out_of_bounds (record three { lock = some 1 })
bad_index_run = ((bad_index 1 three refl).1 0).0

get-alloc_example :
    Returns
      (λ r t'.
        IsValid t'
        × (t'.lock ≡ none)
        × (get 1 (pos r) t' ≡ ok (some 5) t')
        × ((j : ℕ) → j ≢ r → j < 3 → get 1 (pos j) t' ≡ ok (get_or three.base j none) t'))
      (alloc 1 none (some 5) three)
get-alloc_example = get-alloc 1 none three three-IsValid refl (some 5) 1 (omega arith, refl)

get-release_slot_example :
    Returns
      (λ _ t'.
        IsValid t'
        × (t'.lock ≡ none)
        × Free t' 2
        × (get 1 (pos 2) t' ≡ ok none t')
        × ((j : ℕ) → j ≢ 2 → j < 3 → get 1 (pos j) t' ≡ ok (get_or three.base j none) t'))
      (release_slot 1 (pos 2) three)
get-release_slot_example = get-release_slot 1 three three-IsValid refl 2 (omega arith)
