-- ===== src/ThreadTest/BufferTest.antt =====
-- The producers and consumers of threads/threadtest.cc on one BoundedBuffer; `r` is what `rand` returns.
use os_lab_nachos.Base.{
  ℕ, zero, suc, ◌+◌, ◌%◌, ◌≡◌, refl, ap, ◌⊎◌, inl, inr, none, List, [], ◌∷◌, arith, length, dec_lt,
}
use os_lab_nachos.Base.Exec.{Cmd, Result, Returns, Returns-mono}
use os_lab_nachos.Buffer.{Buffer, write, read}
use os_lab_nachos.Buffer.Contents.{IsValid}
use os_lab_nachos.Buffer.Fifo.{write_lem, read_lem}
use os_lab_nachos.ThreadTest.{buffer_size}

-- `items[i] = 65 + i`, from `i` on
abbrev pub letters : (count i : ℕ) → List ℕ
letters zero i = []
letters (suc count) i = (65 + i) ∷ letters count (i + 1)

-- the call in the loop of `TestBuffer_producer`
unfoldable pub produce : (me r : ℕ) → Cmd Buffer (Unit {0})
produce me r = write me (letters (r % 20 + 1) 0)

-- the call in the loop of `TestBuffer_consumer`
unfoldable pub consume : (me r : ℕ) → Cmd Buffer (List ℕ)
consume me r = read me (r % 10 + 1)

length-letters : (count i : ℕ) → length (letters count i) ≡ count
length-letters zero i = refl
length-letters (suc count) i = ap suc (length-letters count (i + 1))

-- The call returns; it does not sleep.
abbrev pub Returned : {A : Type 0} → Result Buffer A → Type 0
Returned r = Returns (λ _ _. Unit {0}) r

returned : {A : Type 0} (P : A → Buffer → Type 0) (r : Result Buffer A) → Returns P r → Returned r
returned P r = Returns-mono P (λ _ _. Unit {0}) r (λ _ _ _. tt)

module _ (b : Buffer) (v : IsValid b) (free : b.lock ≡ none) (size : b.max_size ≡ buffer_size) where
  -- On a free lock, a call that a producer begins would return at once, or one that a consumer begins
  -- would. Threads that sleep already are not spoken of.
  pub produce-or-consume :
      (producer consumer x y : ℕ)
      → Returned (produce producer x b) ⊎ Returned (consume consumer y b)
  unfolding produce consume
  produce-or-consume producer consumer x y = elim (dec_lt b.used_size 10) [
    | yes few ↦ inl (
        returned _ _ (
          (write_lem producer b free v (letters (x % 20 + 1) 0)).0
            (omega (arith, length-letters (x % 20 + 1) 0, size))))
    | no many ↦ inr (returned _ _ ((read_lem consumer b free v (y % 10 + 1)).0 (omega arith)))
  ]
