-- ===== src/Buffer/Contents.antt =====
-- The bytes that a BoundedBuffer (threads/BoundedBuffer.cc) holds, and the state of its indices.
use mathlib.Core.Path.{ap₂}
use native.Mathlib.Nat.{mod-lt, mod-add-mod}
use os_lab_nachos.Base.{
  ℕ, ◌+◌, ◌-◌, ◌%◌, ◌≤◌, ◌<◌, ◌≡◌, sym, ap, ◌∙◌, List, ◌++◌, none, arith, length,
}
use os_lab_nachos.Monitor.{signal}
use os_lab_nachos.Buffer.{Buffer, fill, gather}
use os_lab_nachos.Buffer.Window.{gather-append, gather-shift, length-fill, gather-fill}

pub record IsValid (b : Buffer) : Type 0 where
  pub room : 0 < b.max_size
  pub filled : length b.buffer ≡ b.max_size
  pub used_in : b.used_size ≤ b.max_size
  pub back_in : b.back_place < b.max_size
  pub front : b.front_place ≡ (b.back_place + b.used_size) % b.max_size

-- The bytes written and not yet read, oldest first.
unfoldable pub contents : Buffer → List ℕ
contents b = gather b.back_place b.max_size b.buffer 0 b.used_size

abbrev pub written : Buffer → List ℕ → Buffer
written b bytes = record b {
  buffer = fill b.front_place b.max_size b.buffer 0 bytes;
  front_place = (b.front_place + length bytes) % b.max_size;
  used_size = b.used_size + length bytes;
  not_empty = signal b.not_empty;
  lock = none;
}

abbrev pub emptied : Buffer → ℕ → Buffer
emptied b size = record b {
  back_place = (b.back_place + size) % b.max_size;
  used_size = b.used_size - size;
  not_full = signal b.not_full;
  lock = none;
}

pub written-IsValid :
    (b : Buffer) (bytes : List ℕ)
    → IsValid b
    → b.used_size + length bytes ≤ b.max_size
    → IsValid (written b bytes)
written-IsValid b bytes v fits = record {
  room = v.room;
  filled = length-fill b.front_place b.max_size bytes b.buffer 0 ∙ v.filled;
  used_in = fits;
  back_in = v.back_in;
  front =
      ap (λ f. (f + length bytes) % b.max_size) v.front
      ∙ rw mod-add-mod (ap (λ k. k % b.max_size) (omega arith));
}

pub contents-written :
    (b : Buffer) (bytes : List ℕ)
    → IsValid b
    → b.used_size + length bytes ≤ b.max_size
    → contents (written b bytes) ≡ contents b ++ bytes
unfolding contents
contents-written b bytes v fits =
    ap₂ (λ f n. gather b.back_place b.max_size (fill f b.max_size b.buffer 0 bytes) 0 n) v.front
      (omega arith)
    ∙ gather-fill b.back_place b.max_size b.used_size bytes b.buffer 0 v.filled (omega arith)
    ∙ ap (λ n. gather b.back_place b.max_size b.buffer 0 n ++ bytes) (omega arith)

pub emptied-IsValid :
    (b : Buffer) (size : ℕ) → IsValid b → size ≤ b.used_size → IsValid (emptied b size)
emptied-IsValid b size v fits = record {
  room = v.room;
  filled = v.filled;
  used_in = omega (arith, v.used_in);
  back_in = mod-lt _ v.room;
  front = v.front ∙ sym (rw mod-add-mod (ap (λ k. k % b.max_size) (omega arith)));
}

pub contents-emptied :
    (b : Buffer) (size : ℕ)
    → size ≤ b.used_size
    → contents b ≡ gather b.back_place b.max_size b.buffer 0 size ++ contents (emptied b size)
unfolding contents
contents-emptied b size fits =
    ap (gather b.back_place b.max_size b.buffer 0) (omega arith)
    ∙ gather-append b.back_place b.max_size b.buffer 0 size (b.used_size - size)
    ∙ ap (λ l. gather b.back_place b.max_size b.buffer 0 size ++ l)
        (ap (λ k. gather b.back_place b.max_size b.buffer k (b.used_size - size)) (omega arith)
          ∙ sym (gather-shift b.back_place b.max_size b.buffer size 0 (b.used_size - size)))
