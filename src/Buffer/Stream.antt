-- ===== src/Buffer/Stream.antt =====
-- The runs of any producers and consumers of one BoundedBuffer (threads/BoundedBuffer.cc), as the buffer
-- test of threads/threadtest.cc forks them, in any order.
use mathlib.Core.Path.{subst}
use os_lab_nachos.Base.{
  ℕ, zero, suc, ◌≡◌, ◌<◌, ◌+◌, refl, ap, sym, ◌∙◌, ◌⊎◌, inl, inr, List, [], ◌++◌, none, arith, ltb,
  Bool-cases, length, append_assoc,
}
use os_lab_nachos.Base.Exec.{Result, Returns, ok, asleep, fault}
use os_lab_nachos.Buffer.{Buffer, init, write, write_woken, read, read_woken}
use os_lab_nachos.Buffer.Contents.{IsValid, contents}
use os_lab_nachos.Buffer.Fifo.{write_lem, read_lem, init-IsValid}

-- The buffer, and all bytes written to it and read from it so far.
pub record Run : Type 0 where
  pub buffer : Buffer
  pub input : List ℕ
  pub output : List ℕ

-- A call of `Write` or `Read`, or the rest of one whose thread is woken, up to its end or its next sleep.
pub data Step (r : Run) : Run → Type 0 where
  write_returns :
      (me : ℕ) (bytes : List ℕ) {b : Buffer}
      → (write me bytes r.buffer ≡ ok tt b) ⊎ (write_woken me bytes r.buffer ≡ ok tt b)
      → Step r (record r { buffer = b; input = r.input ++ bytes })
  write_sleeps :
      (me : ℕ) (bytes : List ℕ) {b : Buffer}
      → (write me bytes r.buffer ≡ asleep b) ⊎ (write_woken me bytes r.buffer ≡ asleep b)
      → Step r (record r { buffer = b })
  read_returns :
      (me size : ℕ) {b : Buffer} {out : List ℕ}
      → (read me size r.buffer ≡ ok out b) ⊎ (read_woken me size r.buffer ≡ ok out b)
      → Step r (record r { buffer = b; output = r.output ++ out })
  read_sleeps :
      (me size : ℕ) {b : Buffer}
      → (read me size r.buffer ≡ asleep b) ⊎ (read_woken me size r.buffer ≡ asleep b)
      → Step r (record r { buffer = b })

pub data Reach (size : ℕ) (bytes : List ℕ) : Run → Type 0 where
  start : Reach size bytes (record { buffer = init size bytes; input = []; output = [] })
  later : {r r' : Run} → Reach size bytes r → Step r r' → Reach size bytes r'

-- A free valid buffer that holds these bytes.
abbrev pub Free : List ℕ → Buffer → Type 0
Free held b = (b.lock ≡ none) × IsValid b × (contents b ≡ held)

-- The call returns with `P`, or sleeps with `Q`.
abbrev Ends : {A : Type 0} → (A → Buffer → Type 0) → (Buffer → Type 0) → Result Buffer A → Type 0
Ends P Q (ok a b) = P a b
Ends P Q (asleep b) = Q b
Ends P Q _ = ⊥

Returns-Ends :
    {A : Type 0} (P P' : A → Buffer → Type 0) (Q : Buffer → Type 0) (r : Result Buffer A)
    → ((a : A) (b : Buffer) → P a b → P' a b)
    → Returns P r
    → Ends P' Q r
Returns-Ends P P' Q (ok a b) weaken h = weaken a b h
Returns-Ends P P' Q (asleep b) weaken h = absurd h
Returns-Ends P P' Q (fault e b) weaken h = absurd h

-- What a reader leaves: the bytes it returns stood before those that stay.
abbrev Taken : List ℕ → List ℕ → Buffer → Type 0
Taken held out b = (b.lock ≡ none) × IsValid b × (held ≡ out ++ contents b)

abbrev Writes : List ℕ → List ℕ → Result Buffer (Unit {0}) → Type 0
Writes held bytes = Ends (λ _. Free (held ++ bytes)) (Free held)

abbrev Reads : List ℕ → Result Buffer (List ℕ) → Type 0
Reads held = Ends (Taken held) (Free held)

-- one wake-up less on each condition
abbrev fewer_full : Buffer → ℕ → Buffer
fewer_full b w = record b { not_full = record b.not_full { wakeups = w } }

abbrev fewer_empty : Buffer → ℕ → Buffer
fewer_empty b w = record b { not_empty = record b.not_empty { wakeups = w } }

module _ (me : ℕ) (b : Buffer) (free : b.lock ≡ none) (v : IsValid b) where
  write-Writes : (bytes : List ℕ) → Writes (contents b) bytes (write me bytes b)
  write-Writes bytes = elim (Bool-cases (ltb b.max_size (b.used_size + length bytes))) [
    | inl t ↦
        let (same_result, valid, same_bytes) = (write_lem me b free v bytes).1 (ground arith) in
        rw same_result (refl, valid, same_bytes)
    | inr f ↦
        Returns-Ends _ (λ _. Free (contents b ++ bytes)) (Free (contents b)) (write me bytes b)
          (λ _ b' h. (h.1, h.0, h.3)) ((write_lem me b free v bytes).0 (ground arith))
  ]

  read-Reads : (size : ℕ) → Reads (contents b) (read me size b)
  read-Reads size = elim (Bool-cases (ltb b.used_size size)) [
    | inl t ↦
        let (same_result, valid, same_bytes) = (read_lem me b free v size).1 (ground arith) in
        rw same_result (refl, valid, same_bytes)
    | inr f ↦
        Returns-Ends _ (Taken (contents b)) (Free (contents b)) (read me size b)
          (λ out b' h. (h.1, h.0, h.4)) ((read_lem me b free v size).0 (ground arith))
  ]

module _ (me : ℕ) (b : Buffer) (free : b.lock ≡ none) where
  write_woken_lem :
      (bytes : List ℕ) (w : ℕ)
      → b.not_full.wakeups ≡ suc w
      → write_woken me bytes b ≡ write me bytes (fewer_full b w)
  unfolding write_woken write
  write_woken_lem bytes w e = ground (arith, e)

  write_woken_asleep : (bytes : List ℕ) → b.not_full.wakeups ≡ 0 → write_woken me bytes b ≡ asleep b
  unfolding write_woken
  write_woken_asleep bytes e = ground (arith, e)

  read_woken_lem :
      (size w : ℕ)
      → b.not_empty.wakeups ≡ suc w
      → read_woken me size b ≡ read me size (fewer_empty b w)
  unfolding read_woken read
  read_woken_lem size w e = ground (arith, e)

  read_woken_asleep : (size : ℕ) → b.not_empty.wakeups ≡ 0 → read_woken me size b ≡ asleep b
  unfolding read_woken
  read_woken_asleep size e = ground (arith, e)

  module _ (v : IsValid b) where
    fewer_full-IsValid : (w : ℕ) → IsValid (fewer_full b w)
    fewer_full-IsValid w = record {
      room = v.room;
      filled = v.filled;
      used_in = v.used_in;
      back_in = v.back_in;
      front = v.front;
    }

    fewer_empty-IsValid : (w : ℕ) → IsValid (fewer_empty b w)
    fewer_empty-IsValid w = record {
      room = v.room;
      filled = v.filled;
      used_in = v.used_in;
      back_in = v.back_in;
      front = v.front;
    }

    woken-Writes : (bytes : List ℕ) → Writes (contents b) bytes (write_woken me bytes b)
    unfolding contents
    woken-Writes bytes = by_wakeups b.not_full.wakeups refl
      where
        by_wakeups :
            (n : ℕ) → b.not_full.wakeups ≡ n → Writes (contents b) bytes (write_woken me bytes b)
        by_wakeups zero e = rw (write_woken_asleep bytes e) (free, v, refl)
        by_wakeups (suc w) e =
            subst (Writes (contents b) bytes) (sym (write_woken_lem bytes w e))
              (write-Writes me (fewer_full b w) free (fewer_full-IsValid w) bytes)

    woken-Reads : (size : ℕ) → Reads (contents b) (read_woken me size b)
    unfolding contents
    woken-Reads size = by_wakeups b.not_empty.wakeups refl
      where
        by_wakeups : (n : ℕ) → b.not_empty.wakeups ≡ n → Reads (contents b) (read_woken me size b)
        by_wakeups zero e = rw (read_woken_asleep size e) (free, v, refl)
        by_wakeups (suc w) e =
            subst (Reads (contents b)) (sym (read_woken_lem size w e))
              (read-Reads me (fewer_empty b w) free (fewer_empty-IsValid w) size)

abbrev pub IsStream : Run → Type 0
IsStream r = (r.buffer.lock ≡ none) × IsValid r.buffer × (r.input ≡ r.output ++ contents r.buffer)

-- the two ways into a step
either_way :
    {A : Type 0} (P : Result Buffer A → Type 0) {r r' q : Result Buffer A}
    → (r ≡ q) ⊎ (r' ≡ q)
    → P r
    → P r'
    → P q
either_way P (inl e) h h' = subst P e h
either_way P (inr e) h h' = subst P e h'

step-IsStream : (r : Run) {r' : Run} → IsStream r → Step r r' → IsStream r'
step-IsStream r (free, v, e) (write_returns me bytes {b} way) =
    let (free', v', held) =
      either_way (Writes (contents r.buffer) bytes) way (write-Writes me r.buffer free v bytes)
        (woken-Writes me r.buffer free v bytes) in
    (
      free',
      v',
      ap (λ l. l ++ bytes) e
          ∙ append_assoc r.output (contents r.buffer) bytes
          ∙ ap (λ l. r.output ++ l) (sym held),
    )
step-IsStream r (free, v, e) (write_sleeps me bytes way) =
    let (free', v', held) =
      either_way (Writes (contents r.buffer) bytes) way (write-Writes me r.buffer free v bytes)
        (woken-Writes me r.buffer free v bytes) in
    (free', v', e ∙ ap (λ l. r.output ++ l) (sym held))
step-IsStream r (free, v, e) (read_returns me size {b} {out} way) =
    let (free', v', held) =
      either_way (Reads (contents r.buffer)) way (read-Reads me r.buffer free v size)
        (woken-Reads me r.buffer free v size) in
    (free', v', e ∙ ap (λ l. r.output ++ l) held ∙ sym (append_assoc r.output out (contents b)))
step-IsStream r (free, v, e) (read_sleeps me size way) =
    let (free', v', held) =
      either_way (Reads (contents r.buffer)) way (read-Reads me r.buffer free v size)
        (woken-Reads me r.buffer free v size) in
    (free', v', e ∙ ap (λ l. r.output ++ l) (sym held))

-- However many producers and consumers write and read in whatever order, sleep and are woken, between
-- the stretches the lock is free and the buffer valid, and the bytes written are those read, in order,
-- followed by those in the buffer: none is lost, doubled or overtaken.
pub reach-IsStream :
    {size : ℕ} {bytes : List ℕ} {r : Run}
    → length bytes ≡ size
    → 0 < size
    → Reach size bytes r
    → IsStream r
reach-IsStream {size} {bytes} filled pos start =
    let (v, empty, free) = init-IsValid size bytes filled pos in (free, v, sym empty)
reach-IsStream filled pos (later {r} reach step) =
    step-IsStream r (reach-IsStream filled pos reach) step
