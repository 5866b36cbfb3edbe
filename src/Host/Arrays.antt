-- ===== src/Host/Arrays.antt =====
-- `AllocBoundedArray` and `DeallocBoundedArray` of machine/sysdep.cc.
use os_lab_nachos.Base.{ℕ, ◌+◌, ◌-◌, ◌*◌, ◌≡◌, refl, List, [], ◌∷◌, ◌++◌, arith, append_assoc}
use os_lab_nachos.Base.Exec.{ok, and_then}
use os_lab_nachos.Host.{
  Call, System, new, delete, mprotect, alloc_bounded_array, dealloc_bounded_array,
}

module _ (sys : System) where
  open sys use {address, page_size}

  -- the block that `new` makes for an array
  abbrev pub block : List Call → ℕ → ℕ
  block s size = address s (new (page_size * 2 + size))

  -- An array that is allocated and given back is its block's middle, a page from either end of it; all calls
  -- are one `new`, two of `mprotect`, on these two pages, and the `delete` of just what `new` gave.
  -- No page is protected before that.
  pub dealloc-alloc :
      (size : ℕ) (s : List Call)
      → (alloc_bounded_array sys size s
          ≡ ok (block s size + page_size) (s ++ new (page_size * 2 + size) ∷ []))
        × (and_then (alloc_bounded_array sys size s) (λ ptr. dealloc_bounded_array sys ptr size)
            ≡ ok tt (
                s
                ++ new (page_size * 2 + size)
                  ∷ mprotect (block s size) page_size
                  ∷ mprotect (block s size + page_size + size) page_size
                  ∷ delete (block s size)
                  ∷ []))
        × (block s size + page_size + size + page_size ≡ block s size + (page_size * 2 + size))
  unfolding alloc_bounded_array dealloc_bounded_array
  dealloc-alloc size s =
      let back : block s size + page_size - page_size ≡ block s size = omega arith in
      (refl, rw (back, append_assoc, append_assoc, append_assoc) refl, omega arith)
