-- ===== src/Buffer/Fifo.antt =====
-- The buffer against a FIFO of bytes, and when its calls go to sleep.
use native.Mathlib.Nat.{mod-eq_of_lt}
use os_lab_nachos.Buffer.Waiting.{
  slept_full, slept_empty, await_room-ok, await_room-asleep, put-ok, await_bytes-ok,
  await_bytes-asleep, take_out-ok,
}
use native.Mathlib.Numerals.{add-one}
use os_lab_nachos.Base.{
  ℕ, suc, ◌+◌, ◌≤◌, ◌<◌, ◌≡◌, refl, sym, List, [], ◌++◌, none, some, arith, length,
}
use os_lab_nachos.Base.Exec.{Returns, ok, asleep, and_then}
use os_lab_nachos.Monitor.{signal}
use os_lab_nachos.Buffer.{Buffer, init, gather, write, write_woken, read}
use os_lab_nachos.Buffer.Window.{length-gather}
use os_lab_nachos.Buffer.Contents.{
  IsValid, contents, written, emptied, written-IsValid, contents-written, emptied-IsValid,
  contents-emptied,
}

module _ (me : ℕ) (b : Buffer) (free : b.lock ≡ none) where
  abbrev entered : Buffer
  entered = record b { lock = some me }

  write-ok :
      (bytes : List ℕ)
      → b.used_size + length bytes ≤ b.max_size
      → write me bytes b ≡ ok tt (written b bytes)
  unfolding write
  write-ok bytes fits = ground (
    arith,
    add-one b.not_full.wakeups,
    await_room-ok me b.not_full.wakeups (length bytes) entered,
    put-ok me bytes entered,
  )

  write-asleep :
      (bytes : List ℕ)
      → b.max_size < b.used_size + length bytes
      → write me bytes b ≡ asleep (slept_full b)
  unfolding write
  write-asleep bytes full = ground (
    arith,
    add-one b.not_full.wakeups,
    await_room-asleep me b.not_full.wakeups (length bytes) entered,
  )

  read-ok :
      (size : ℕ)
      → size ≤ b.used_size
      → read me size b ≡ ok (gather b.back_place b.max_size b.buffer 0 size) (emptied b size)
  unfolding read
  read-ok size fits = ground (
    arith,
    add-one b.not_empty.wakeups,
    await_bytes-ok me b.not_empty.wakeups size entered,
    take_out-ok me size entered,
  )

  read-asleep : (size : ℕ) → b.used_size < size → read me size b ≡ asleep (slept_empty b)
  unfolding read
  read-asleep size short =
      ground
        (arith, add-one b.not_empty.wakeups, await_bytes-asleep me b.not_empty.wakeups size entered)

  module _ (v : IsValid b) where
    -- If the lock is free, `Write` returns with the bytes behind those in the buffer, the lock free, one
    -- reader signalled and the buffer valid where they fit; where they do not, it sleeps with the lock
    -- free, one more waiter on `NotFull` and no byte written.
    pub write_lem :
        (bytes : List ℕ)
        → (b.used_size + length bytes ≤ b.max_size
            → Returns
                (λ _ b'.
                  IsValid b'
                  × (b'.lock ≡ none)
                  × (b'.not_empty ≡ signal b.not_empty)
                  × (contents b' ≡ contents b ++ bytes))
                (write me bytes b))
          × (b.max_size < b.used_size + length bytes
              → (write me bytes b ≡ asleep (slept_full b))
                × IsValid (slept_full b)
                × (contents (slept_full b) ≡ contents b))
    unfolding contents
    write_lem bytes = (
      λ fits.
          rw (write-ok bytes fits)
            (written-IsValid b bytes v fits, refl, refl, contents-written b bytes v fits),
      λ full. (
        write-asleep bytes full,
        record {
          room = v.room;
          filled = v.filled;
          used_in = v.used_in;
          back_in = v.back_in;
          front = v.front;
        },
        refl,
      ),
    )

    -- If the lock is free, `Read` returns the `size` oldest bytes and leaves the others in order, with
    -- the lock free, one writer signalled and the buffer valid where it holds so many; where it does
    -- not, it sleeps with the lock free, one more waiter on `NotEmpty` and no byte taken.
    pub read_lem :
        (size : ℕ)
        → (size ≤ b.used_size
            → Returns
                (λ out b'.
                  IsValid b'
                  × (b'.lock ≡ none)
                  × (b'.not_full ≡ signal b.not_full)
                  × (length out ≡ size)
                  × (contents b ≡ out ++ contents b'))
                (read me size b))
          × (b.used_size < size
              → (read me size b ≡ asleep (slept_empty b))
                × IsValid (slept_empty b)
                × (contents (slept_empty b) ≡ contents b))
    unfolding contents
    read_lem size = (
      λ fits. rw (read-ok size fits) (
        emptied-IsValid b size v fits,
        refl,
        refl,
        length-gather b.back_place b.max_size b.buffer 0 size,
        contents-emptied b size fits,
      ),
      λ short. (
        read-asleep size short,
        record {
          room = v.room;
          filled = v.filled;
          used_in = v.used_in;
          back_in = v.back_in;
          front = v.front;
        },
        refl,
      ),
    )

  -- Nobody can write more bytes at once than the buffer holds, though threads/BoundedBuffer.h allows
  -- it: `Write` never returns, neither when it is called nor after any wake-up.
  pub write_too_long :
      (bytes : List ℕ)
      → b.max_size < length bytes
      → (write me bytes b ≡ asleep (slept_full b))
        × ((c : ℕ)
            → b.not_full.wakeups ≡ suc c
            → write_woken me bytes b
              ≡ asleep (slept_full (record b { not_full = record b.not_full { wakeups = c } })))
  unfolding write_woken
  write_too_long bytes long = (
    write-asleep bytes (omega arith),
    λ c e. ground (
      arith,
      e,
      add-one c,
      await_room-asleep me c (length bytes)
          (record b { lock = some me; not_full = record b.not_full { wakeups = c } }),
    ),
  )

-- A new buffer of a positive size is valid and empty, and its lock is free.
pub init-IsValid :
    (size : ℕ) (bytes : List ℕ)
    → length bytes ≡ size
    → 0 < size
    → IsValid (init size bytes)
      × (contents (init size bytes) ≡ [])
      × ((init size bytes).lock ≡ none)
unfolding init contents gather
init-IsValid size bytes e pos = (
  record {
    room = pos;
    filled = e;
    used_in = omega arith;
    back_in = pos;
    front = sym (mod-eq_of_lt pos);
  },
  refl,
  refl,
)

-- What is written comes out of the buffer behind what it held: reading all after a write that fits
-- returns the old bytes and then the new ones, and leaves the buffer empty.
pub read-write :
    (me : ℕ) (b : Buffer)
    → b.lock ≡ none
    → IsValid b
    → (bytes : List ℕ) → b.used_size + length bytes ≤ b.max_size
    → Returns
        (λ out b'. (out ≡ contents b ++ bytes) × (b'.used_size ≡ 0))
        (and_then (write me bytes b) (λ _. read me (b.used_size + length bytes)))
unfolding contents
read-write me b free v bytes fits =
    rw
      (
        write-ok me b free bytes fits,
        read-ok me (written b bytes) refl (b.used_size + length bytes) (omega arith),
      )
      (contents-written b bytes v fits, omega arith)
