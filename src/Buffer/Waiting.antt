-- ===== src/Buffer/Waiting.antt =====
-- The waiting loops of `Write` and `Read`, and what follows them.
use os_lab_nachos.Base.{
  ℕ, zero, suc, ◌+◌, ◌-◌, ◌%◌, ◌≤◌, ◌<◌, ◌≡◌, refl, ◌∙◌, List, none, some, arith, length, lt→ltb,
}
use os_lab_nachos.Base.Exec.{ok, asleep}
use os_lab_nachos.Monitor.{signal}
use os_lab_nachos.Buffer.{
  Buffer, fill, gather, await_room, await_bytes, wait_not_full, wait_not_empty, put, take_out,
}

-- The state of a buffer on whose `NotFull` one more thread has gone to sleep.
abbrev pub slept_full : Buffer → Buffer
slept_full b = record b {
  lock = none;
  not_full = record { block_num = b.not_full.block_num + b.not_full.wakeups + 1; wakeups = 0 };
}

-- The state of a buffer on whose `NotEmpty` one more thread has gone to sleep.
abbrev pub slept_empty : Buffer → Buffer
slept_empty b = record b {
  lock = none;
  not_empty = record { block_num = b.not_empty.block_num + b.not_empty.wakeups + 1; wakeups = 0 };
}

module _ (me : ℕ) where
  pub await_room-ok :
      (fuel size : ℕ) (b : Buffer)
      → b.used_size + size ≤ b.max_size
      → await_room me (suc fuel) size b ≡ ok tt b
  unfolding await_room
  await_room-ok fuel size b fits = ground arith

  abbrev woken_full : Buffer → ℕ → Buffer
  woken_full b w = record b {
    not_full = record { block_num = b.not_full.block_num + 1; wakeups = w };
    lock = some me;
  }

  wait_not_full-woken :
      (w : ℕ) (b : Buffer)
      → b.not_full.wakeups ≡ suc w
      → b.lock ≡ some me
      → wait_not_full me b ≡ ok tt (woken_full b w)
  unfolding wait_not_full
  wait_not_full-woken w b e held = ground arith

  wait_not_full-asleep :
      (b : Buffer)
      → b.not_full.wakeups ≡ 0
      → b.lock ≡ some me
      → wait_not_full me b ≡ asleep (slept_full b)
  unfolding wait_not_full
  wait_not_full-asleep b e held = ground arith

  -- Out of wake-ups the thread sleeps, whatever rounds came before.
  pub await_room-asleep :
      (w size : ℕ) (b : Buffer)
      → b.not_full.wakeups ≡ w
      → b.lock ≡ some me
      → b.max_size < b.used_size + size
      → await_room me (suc w) size b ≡ asleep (slept_full b)
  unfolding await_room
  await_room-asleep zero size b e held short = ground (arith, wait_not_full-asleep b e held)
  await_room-asleep (suc w) size b e held short =
      rw (lt→ltb _ _ short, wait_not_full-woken w b e held)
        (await_room-asleep w size (woken_full b w) refl refl short ∙ ground (arith, e))

  pub put-ok :
      (bytes : List ℕ) (b : Buffer)
      → b.lock ≡ some me
      → put me bytes b
        ≡ ok tt (record b {
          buffer = fill b.front_place b.max_size b.buffer 0 bytes;
          front_place = (b.front_place + length bytes) % b.max_size;
          used_size = b.used_size + length bytes;
          not_empty = signal b.not_empty;
          lock = none;
        })
  unfolding put
  put-ok bytes b held = ground arith

  pub await_bytes-ok :
      (fuel size : ℕ) (b : Buffer) → size ≤ b.used_size → await_bytes me (suc fuel) size b ≡ ok tt b
  unfolding await_bytes
  await_bytes-ok fuel size b fits = ground arith

  abbrev woken_empty : Buffer → ℕ → Buffer
  woken_empty b w = record b {
    not_empty = record { block_num = b.not_empty.block_num + 1; wakeups = w };
    lock = some me;
  }

  wait_not_empty-woken :
      (w : ℕ) (b : Buffer)
      → b.not_empty.wakeups ≡ suc w
      → b.lock ≡ some me
      → wait_not_empty me b ≡ ok tt (woken_empty b w)
  unfolding wait_not_empty
  wait_not_empty-woken w b e held = ground arith

  wait_not_empty-asleep :
      (b : Buffer)
      → b.not_empty.wakeups ≡ 0
      → b.lock ≡ some me
      → wait_not_empty me b ≡ asleep (slept_empty b)
  unfolding wait_not_empty
  wait_not_empty-asleep b e held = ground arith

  -- Out of wake-ups the thread sleeps, whatever rounds came before.
  pub await_bytes-asleep :
      (w size : ℕ) (b : Buffer)
      → b.not_empty.wakeups ≡ w
      → b.lock ≡ some me
      → b.used_size < size
      → await_bytes me (suc w) size b ≡ asleep (slept_empty b)
  unfolding await_bytes
  await_bytes-asleep zero size b e held short = ground (arith, wait_not_empty-asleep b e held)
  await_bytes-asleep (suc w) size b e held short =
      rw (lt→ltb _ _ short, wait_not_empty-woken w b e held)
        (await_bytes-asleep w size (woken_empty b w) refl refl short ∙ ground (arith, e))

  pub take_out-ok :
      (size : ℕ) (b : Buffer)
      → b.lock ≡ some me
      → take_out me size b
        ≡ ok (gather b.back_place b.max_size b.buffer 0 size) (record b {
          back_place = (b.back_place + size) % b.max_size;
          used_size = b.used_size - size;
          not_full = signal b.not_full;
          lock = none;
        })
  unfolding take_out
  take_out-ok size b held = ground arith
