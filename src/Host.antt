-- ===== src/Host.antt =====
-- machine/sysdep.cc as it is built for an i386 host: its functions make calls of the operating system. The
-- state is the list of the calls made so far; what a call returns is an argument, which sees this list.
pub mod Files
pub mod Arrays
mod Tests
use os_lab_nachos.Base.{
  ℕ, zero, suc, ◌+◌, ◌-◌, ◌*◌, ◌^◌, List, [], ◌∷◌, ◌++◌, Bool, true, false, not, ◌&&◌, ◌||◌, ltb,
  leb, ◌==◌, if◌then◌else◌, length,
}
use os_lab_nachos.Base.Exec.{Cmd, ok, out_of_bounds, pure, stop, assert, ◌>>=◌, ◌>>◌}
use os_lab_nachos.Base.Int.{ℤ, pos, negsuc}
use os_lab_nachos.Base.Text.{Str}

pub data Whence : Type 0 where
  seek_set seek_cur seek_end : Whence

-- the calls of the host and of the allocator that the file makes
pub data Call : Type 0 where
  select : (mask usec : ℕ) → Call
  open_truncate open_read_write : (name : Str) → Call
  read : (fd bytes : ℕ) → Call
  write : (fd : ℕ) (buffer : Str) → Call
  lseek : (fd : ℕ) → ℤ → Whence → Call
  close : (fd : ℕ) → Call
  unlink : (name : Str) → Call
  socket : Call
  bind : (sock : ℕ) (path : Str) → Call
  recvfrom : (sock bytes : ℕ) → Call
  sendto : (sock : ℕ) (buffer path : Str) → Call
  signal_interrupt rand : Call
  srand : (seed : ℕ) → Call
  new delete : ℕ → Call
  mprotect : (address bytes : ℕ) → Call

-- What calls return: a number, bytes that `read` and `recvfrom` store, and an address that `new` gives.
pub record System : Type 0 where
  pub number : List Call → Call → ℤ
  pub bytes : List Call → Call → Str
  pub address : List Call → Call → ℕ
  pub page_size : ℕ

abbrev pub nonneg : ℤ → Bool
nonneg (pos n) = true
nonneg (negsuc n) = false

-- `a == n`, for a number that is not negative
abbrev pub is_count : ℤ → ℕ → Bool
is_count (pos a) n = a == n
is_count (negsuc a) n = false

module _ (sys : System) where
  open sys use {number, bytes, address, page_size}

  -- a call that returns a number
  abbrev pub ask : Call → Cmd (List Call) ℤ
  ask c s = ok (number s c) (s ++ c ∷ [])

  abbrev pub run : Call → Cmd (List Call) (Unit {0})
  run c s = ok tt (s ++ c ∷ [])

  -- `PollFile`; `1 << fd` is an int
  unfoldable pub poll_file : (idle : Bool) (fd : ℕ) → Cmd (List Call) Bool
  poll_file idle fd = do
    if ltb fd 31 then pure tt else stop out_of_bounds
    ret_val ← ask (select (2 ^ fd) (if idle then 20000 else 0))
    assert (is_count ret_val 0 || is_count ret_val 1)
    pure (not (is_count ret_val 0))

  -- `OpenForWrite`
  unfoldable pub open_for_write : Str → Cmd (List Call) ℤ
  open_for_write name = do fd ← ask (open_truncate name); assert (nonneg fd); pure fd

  -- `OpenForReadWrite`
  unfoldable pub open_for_read_write : Str → (crash_on_error : Bool) → Cmd (List Call) ℤ
  open_for_read_write name crash_on_error = do
    fd ← ask (open_read_write name)
    assert (not crash_on_error || nonneg fd)
    pure fd

  -- `ReadPartial`: what `read` returns, and what it stores in the buffer
  unfoldable pub read_partial : (fd n_bytes : ℕ) → Cmd (List Call) (ℤ × Str)
  read_partial fd n_bytes s =
      ok (number s (read fd n_bytes), bytes s (read fd n_bytes)) (s ++ read fd n_bytes ∷ [])

  -- `Read`: the bytes that it stores
  unfoldable pub read_file : (fd n_bytes : ℕ) → Cmd (List Call) Str
  unfolding read_partial
  read_file fd n_bytes = do
    (ret_val, stored) ← read_partial fd n_bytes
    assert (is_count ret_val n_bytes)
    pure stored

  -- `WriteFile` of the bytes of the buffer
  unfoldable pub write_file : (fd : ℕ) → Str → Cmd (List Call) (Unit {0})
  write_file fd buffer = do
    ret_val ← ask (write fd buffer)
    assert (is_count ret_val (length buffer))

  -- `Lseek`
  unfoldable pub seek : (fd : ℕ) → ℤ → Whence → Cmd (List Call) (Unit {0})
  seek fd offset whence = do ret_val ← ask (lseek fd offset whence); assert (nonneg ret_val)

  -- `Tell`
  unfoldable pub tell : (fd : ℕ) → Cmd (List Call) ℤ
  tell fd = ask (lseek fd (pos 0) seek_cur)

  -- `Close`
  unfoldable pub close_file : (fd : ℕ) → Cmd (List Call) (Unit {0})
  close_file fd = do ret_val ← ask (close fd); assert (nonneg ret_val)

  -- `Unlink`: the int is returned as a bool
  unfoldable pub unlink_file : Str → Cmd (List Call) Bool
  unlink_file name = do ret_val ← ask (unlink name); pure (not (is_count ret_val 0))

  -- `OpenSocket`
  unfoldable pub open_socket : Cmd (List Call) ℤ
  open_socket = do sock_id ← ask socket; assert (nonneg sock_id); pure sock_id

  -- `CloseSocket`
  unfoldable pub close_socket : (sock_id : ℕ) → Cmd (List Call) (Unit {0})
  close_socket sock_id = run (close sock_id)

  -- `InitSocketName`: the path of the name, whose array has 108 bytes
  unfoldable pub init_socket_name : Str → Cmd (List Call) Str
  init_socket_name name = if ltb (length name) 108 then pure name else stop out_of_bounds

  -- `AssignNameToSocket`
  unfoldable pub assign_name_to_socket : Str → (sock_id : ℕ) → Cmd (List Call) (Unit {0})
  unfolding init_socket_name
  assign_name_to_socket socket_name sock_id = do
    run (unlink socket_name)
    path ← init_socket_name socket_name
    ret_val ← ask (bind sock_id path)
    assert (nonneg ret_val)

  -- `DeAssignNameToSocket`
  unfoldable pub de_assign_name_to_socket : Str → Cmd (List Call) (Unit {0})
  de_assign_name_to_socket socket_name = run (unlink socket_name)

  -- `PollSocket`
  unfoldable pub poll_socket : (idle : Bool) (sock_id : ℕ) → Cmd (List Call) Bool
  unfolding poll_file
  poll_socket idle sock_id = poll_file idle sock_id

  -- `ReadFromSocket`: the packet that it stores
  unfoldable pub read_from_socket : (sock_id packet_size : ℕ) → Cmd (List Call) Str
  read_from_socket sock_id packet_size s =
      (do
        ret_val ← ask (recvfrom sock_id packet_size)
        assert (is_count ret_val packet_size)
        pure (bytes s (recvfrom sock_id packet_size)))
        s

  -- `SendToSocket` of the bytes of the buffer
  unfoldable pub send_to_socket :
      (sock_id : ℕ) → (buffer to_name : Str) → Cmd (List Call) (Unit {0})
  unfolding init_socket_name
  send_to_socket sock_id buffer to_name = do
    path ← init_socket_name to_name
    ret_val ← ask (sendto sock_id buffer path)
    assert (is_count ret_val (length buffer))

  -- `CallOnUserAbort`
  unfoldable pub call_on_user_abort : Cmd (List Call) (Unit {0})
  call_on_user_abort = run signal_interrupt

  -- `RandomInit`
  unfoldable pub random_init : (seed : ℕ) → Cmd (List Call) (Unit {0})
  random_init seed = run (srand seed)

  -- `Random`
  unfoldable pub random : Cmd (List Call) ℤ
  random = ask rand

  -- `AllocBoundedArray`: the address behind the first page
  unfoldable pub alloc_bounded_array : (size : ℕ) → Cmd (List Call) ℕ
  alloc_bounded_array size s =
      let block = new (page_size * 2 + size) in ok (address s block + page_size) (s ++ block ∷ [])

  -- `DeallocBoundedArray`
  unfoldable pub dealloc_bounded_array : (ptr size : ℕ) → Cmd (List Call) (Unit {0})
  dealloc_bounded_array ptr size = do
    run (mprotect (ptr - page_size) page_size)
    run (mprotect (ptr + size) page_size)
    run (delete (ptr - page_size))
