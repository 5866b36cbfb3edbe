-- ===== src/Table.antt =====
-- class Table (threads/Table.h, threads/Table.cc). An object is a `void *`: `none` is NULL.
pub mod Slots
pub mod Laws
mod Tests
use os_lab_nachos.Base.{
  ℕ, zero, suc, ◌+◌, Bool, ◌&&◌, Option, none, some, List, arith, ltb, leb, is_some, if◌then◌else◌,
  get_or, set, replicate,
}
use os_lab_nachos.Base.Exec.{Cmd, ok, fault, out_of_bounds, pure, stop, assert, lift, ◌>>=◌, ◌>>◌}
use os_lab_nachos.Base.Int.{ℤ, pos, negsuc, ltb_size}
use os_lab_nachos.Monitor.{Lock, acquire, release}

pub record Table : Type 0 where
  pub table_size : ℕ
  pub lock : Lock
  pub base : List (Option ℕ)

-- `Table::Table`
unfoldable pub init : ℕ → Table
init size = record { table_size = size; lock = none; base = replicate size none }

abbrev pub locking : Cmd Lock (Unit {0}) → Cmd Table (Unit {0})
locking = lift (λ t. t.lock) (λ l t. record t { lock = l })

-- The loop of `Alloc`. It reads `base[NowIndex]` before it compares `NowIndex` with the size, so on a
-- full table it reads the word behind the array, `beyond`.
unfoldable pub scan : (beyond : Option ℕ) → Table → ℕ → ℕ → ℕ
scan beyond t zero i = i
scan beyond t (suc fuel) i =
    let rest = scan beyond t fuel (i + 1) in
    if is_some (get_or t.base i beyond) && ltb i t.table_size then rest else i

abbrev pub store : ℕ → Option ℕ → Cmd Table (Unit {0})
store i object t = ok tt (record t { base = set t.base i object })

-- `Table::Alloc`; the `none` that is tested stands for `re == -1`.
unfoldable pub alloc : (me : ℕ) (beyond object : Option ℕ) → Cmd Table ℕ
unfolding acquire release
alloc me beyond object t =
    (do
      locking (acquire me)
      let now_index = scan beyond t (t.table_size + 1) 0
      if leb t.table_size now_index
          then assert (is_some {A = ℕ} none)
          else (do store now_index object; assert (is_some (some now_index)))
      locking (release me)
      pure now_index)
      t

-- `base[index]`, for an index that is below the size
abbrev pub load : ℤ → Cmd Table (Option ℕ)
load (pos i) t = ok (get_or t.base i none) t
load (negsuc _) t = fault out_of_bounds t

-- `Table::Get`
unfoldable pub get : (me : ℕ) → ℤ → Cmd Table (Option ℕ)
unfolding acquire release
get me index t =
    (do
      locking (acquire me)
      assert (ltb_size index t.table_size)
      item ← (if ltb_size index t.table_size then load index else pure none)
      locking (release me)
      pure item)
      t

abbrev pub clear : ℤ → Cmd Table (Unit {0})
clear (pos i) = store i none
clear (negsuc _) = stop out_of_bounds

-- `Table::Release`
unfoldable pub release_slot : (me : ℕ) → ℤ → Cmd Table (Unit {0})
unfolding acquire release
release_slot me index t =
    (do
      locking (acquire me)
      assert (ltb_size index t.table_size)
      clear index
      locking (release me))
      t
