-- ===== src/Buffer.antt =====
-- class BoundedBuffer (threads/BoundedBuffer.h, threads/BoundedBuffer.cc). Sizes and places are ints
-- that are never negative; `maxsize - UsedSize < size` is written without the subtraction.
pub mod Window
pub mod Waiting
pub mod Contents
pub mod Fifo
pub mod Stream
mod Tests
use os_lab_nachos.Base.{
  ℕ, zero, suc, ◌+◌, ◌-◌, ◌%◌, List, [], ◌∷◌, none, arith, ltb, if◌then◌else◌, get_or, set, length,
  replicate,
}
use os_lab_nachos.Base.Exec.{Cmd, ok, asleep, pure, lift, ◌>>=◌, ◌>>◌}
use os_lab_nachos.Monitor.{Lock, Condition, acquire, release, assert_held, signal, block, consume}

pub record Buffer : Type 0 where
  pub max_size : ℕ
  pub used_size : ℕ
  pub front_place : ℕ
  pub back_place : ℕ
  pub buffer : List ℕ
  pub lock : Lock
  pub not_full : Condition
  pub not_empty : Condition

-- `BoundedBuffer::BoundedBuffer`; `new char[size]` leaves the bytes as it finds them.
unfoldable pub init : ℕ → List ℕ → Buffer
init size bytes = record {
  max_size = size;
  used_size = 0;
  front_place = 0;
  back_place = 0;
  buffer = bytes;
  lock = none;
  not_full = record { block_num = 0; wakeups = 0 };
  not_empty = record { block_num = 0; wakeups = 0 };
}

abbrev pub locking : Cmd Lock (Unit {0}) → Cmd Buffer (Unit {0})
locking = lift (λ b. b.lock) (λ l b. record b { lock = l })

abbrev pub on_not_full : Cmd Condition (Unit {0}) → Cmd Buffer (Unit {0})
on_not_full = lift (λ b. b.not_full) (λ c b. record b { not_full = c })

abbrev pub on_not_empty : Cmd Condition (Unit {0}) → Cmd Buffer (Unit {0})
on_not_empty = lift (λ b. b.not_empty) (λ c b. record b { not_empty = c })

-- `for (i = 0; i < size; i++) buffer[(FrontPlace + i) % maxsize] = data[i]`, from round `i` on
unfoldable pub fill : (front max : ℕ) → List ℕ → ℕ → List ℕ → List ℕ
fill front max buf i [] = buf
fill front max buf i (x ∷ xs) = fill front max (set buf ((front + i) % max) x) (i + 1) xs

-- `for (i = 0; i < size; i++) data[i] = buffer[(BackPlace + i) % maxsize]`, from round `i` on
unfoldable pub gather : (back max : ℕ) → List ℕ → ℕ → ℕ → List ℕ
gather back max buf i zero = []
gather back max buf i (suc n) = get_or buf ((back + i) % max) 0 ∷ gather back max buf (i + 1) n

module _ (me : ℕ) where
  -- `NotFull->Wait(lock)`
  unfoldable pub wait_not_full : Cmd Buffer (Unit {0})
  unfolding acquire release assert_held block consume
  wait_not_full = do
    locking (assert_held me)
    locking (release me)
    on_not_full (λ c. ok tt (block c))
    on_not_full consume
    locking (acquire me)

  unfoldable pub wait_not_empty : Cmd Buffer (Unit {0})
  unfolding acquire release assert_held block consume
  wait_not_empty = do
    locking (assert_held me)
    locking (release me)
    on_not_empty (λ c. ok tt (block c))
    on_not_empty consume
    locking (acquire me)

  -- `while (maxsize - UsedSize < size) NotFull->Wait(lock)`. Every round uses up a wake-up, so the
  -- thread is asleep or through before the fuel, one more than the wake-ups, is spent.
  unfoldable pub await_room : ℕ → ℕ → Cmd Buffer (Unit {0})
  await_room zero size b = asleep b
  await_room (suc fuel) size b =
      let again = (wait_not_full >> await_room fuel size) b in
      if ltb b.max_size (b.used_size + size) then again else ok tt b

  -- `while (UsedSize - size < 0) NotEmpty->Wait(lock)`
  unfoldable pub await_bytes : ℕ → ℕ → Cmd Buffer (Unit {0})
  await_bytes zero size b = asleep b
  await_bytes (suc fuel) size b =
      let again = (wait_not_empty >> await_bytes fuel size) b in
      if ltb b.used_size size then again else ok tt b

  -- `Write` behind its loop
  unfoldable pub put : List ℕ → Cmd Buffer (Unit {0})
  unfolding signal assert_held release
  put bytes b = (locking (assert_held me) >> locking (release me)) (record b {
    buffer = fill b.front_place b.max_size b.buffer 0 bytes;
    front_place = (b.front_place + length bytes) % b.max_size;
    used_size = b.used_size + length bytes;
    not_empty = signal b.not_empty;
  })

  -- `Read` behind its loop
  unfoldable pub take_out : ℕ → Cmd Buffer (List ℕ)
  unfolding signal assert_held release
  take_out size b =
      (do
        locking (assert_held me)
        locking (release me)
        pure (gather b.back_place b.max_size b.buffer 0 size))
        (record b {
          back_place = (b.back_place + size) % b.max_size;
          used_size = b.used_size - size;
          not_full = signal b.not_full;
        })

  unfoldable pub write_locked : List ℕ → Cmd Buffer (Unit {0})
  write_locked bytes b = (await_room (b.not_full.wakeups + 1) (length bytes) >> put bytes) b

  unfoldable pub read_locked : ℕ → Cmd Buffer (List ℕ)
  read_locked size b =
      (◌>>◌ {B = List ℕ} (await_bytes (b.not_empty.wakeups + 1) size) (take_out size)) b

  -- `BoundedBuffer::Write`
  unfoldable pub write : List ℕ → Cmd Buffer (Unit {0})
  unfolding acquire write_locked
  write bytes = locking (acquire me) >> write_locked bytes

  -- What a writer does that is woken inside `NotFull->Wait`.
  unfoldable pub write_woken : List ℕ → Cmd Buffer (Unit {0})
  unfolding acquire consume write_locked
  write_woken bytes = do on_not_full consume; locking (acquire me); write_locked bytes

  -- `BoundedBuffer::Read`
  unfoldable pub read : ℕ → Cmd Buffer (List ℕ)
  unfolding acquire read_locked
  read size = do locking (acquire me); read_locked size

  unfoldable pub read_woken : ℕ → Cmd Buffer (List ℕ)
  unfolding acquire consume read_locked
  read_woken size = do on_not_empty consume; locking (acquire me); read_locked size
