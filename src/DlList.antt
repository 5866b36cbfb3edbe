-- ===== src/DlList.antt =====
-- class DLLElement and class DLList (threads/dllist.h, threads/dllist.cc) over an explicit heap. A key
-- is an int in the form of Base/Int.antt; an item is an address, and 0 is NULL.
pub mod Heap
pub mod Shape
pub mod Chain
pub mod Locked
pub mod Find
pub mod Link
pub mod Insert
pub mod Ends
pub mod Shrunk
pub mod Branches
pub mod Unlink
pub mod Remove
pub mod SortedRemove
pub mod Show
pub mod Sorted
mod Tests
use os_lab_nachos.Base.{
  ℕ, zero, suc, Bool, true, false, ◌&&◌, ◌+◌, List, [], ◌∷◌, ◌++◌, arith, none, ltb, ◌==◌,
  if◌then◌else◌,
}
use os_lab_nachos.Base.Exec.{
  Cmd, ok, fault, out_of_fuel, null_pointer, pure, stop, assert, lift, ◌>>=◌, ◌>>◌,
}
use os_lab_nachos.Base.Int.{int, inc, dec}
use os_lab_nachos.Monitor.{Lock, acquire, release}
use os_lab_nachos.DlList.Heap.{
  null, Element, DlList, self, new_element, load, set_next, set_prev, set_key,
}

-- `DLList::IsEmpty`; where only one of the two pointers is NULL it prints a message and says no.
unfoldable pub is_empty : DlList → Bool
is_empty d = d.first == null && d.last == null

abbrev pub set_first : ℕ → Cmd DlList (Unit {0})
set_first p d = ok tt (record d { first = p })

abbrev pub set_last : ℕ → Cmd DlList (Unit {0})
set_last p d = ok tt (record d { last = p })

abbrev pub locking : Cmd Lock (Unit {0}) → Cmd DlList (Unit {0})
locking = lift (λ d. d.lock) (λ l d. record d { lock = l })

-- `for (; ptr != NULL; ptr = ptr->next) if (test(ptr->key)) break;`
unfoldable pub find : (ℕ → Bool) → ℕ → ℕ → Cmd DlList ℕ
find test zero ptr = stop out_of_fuel
find test (suc fuel) ptr =
    if ptr == null
    then pure ptr
    else do e ← load ptr; let rest = find test fuel e.next; if test e.key then pure ptr else rest

-- The first and only element.
abbrev pub put_alone : ℕ → Cmd DlList (Unit {0})
put_alone p = set_first p >> set_last p

-- the body of `Prepend`, between the two calls of the lock
unfoldable pub prepend_body : ℕ → Cmd DlList (Unit {0})
unfolding is_empty new_element load set_key set_next set_prev
prepend_body item = do
  new ← new_element item (int 0)
  d ← self
  if is_empty d then put_alone new else do
    first ← load d.first
    set_key new (dec first.key)
    set_next new d.first
    set_prev new null
    set_prev d.first new
    set_first new

unfoldable pub append_body : ℕ → Cmd DlList (Unit {0})
unfolding is_empty new_element load set_key set_next set_prev
append_body item = do
  new ← new_element item (int 0)
  d ← self
  if is_empty d then put_alone new else do
    last ← load d.last
    set_key new (inc last.key)
    set_next new null
    set_prev new d.last
    set_next d.last new
    set_last new

unfoldable pub take_first : (key_ptr : Bool) → Cmd DlList (ℕ × ℕ)
unfolding load set_prev
take_first key_ptr = do
  d ← self
  first ← load d.first
  if key_ptr then pure tt else stop null_pointer
  if d.first == d.last then put_alone null else do set_first first.next; set_prev first.next null
  pure (first.item, first.key)

unfoldable pub insert_body : (item sort_key : ℕ) → Cmd DlList (Unit {0})
unfolding is_empty new_element load set_next set_prev
insert_body item sort_key = do
  new ← new_element item sort_key
  d ← self
  if is_empty d then put_alone new else do
    ptr ← find (ltb sort_key) d.fresh d.first
    if ptr == null
        then (do set_prev new d.last; set_next d.last new; set_last new; set_next new null)
        else if ptr == d.first
        then (do set_next new d.first; set_prev d.first new; set_first new; set_prev new null)
        else (do
          at ← load ptr
          set_next at.prev new
          set_prev new at.prev
          set_next new ptr
          set_prev ptr new)

-- the element at `ptr` leaves the list
unfoldable pub unlink : ℕ → Cmd DlList (Unit {0})
unfolding load set_next set_prev
unlink ptr = do
  d ← self
  at ← load ptr
  if ptr == d.first
      then (do set_first at.next; set_prev at.next null)
      else if ptr == d.last
      then (do set_last at.prev; set_next at.prev null)
      else (do set_next at.prev at.next; set_prev at.next at.prev)

unfoldable pub remove_body : (sort_key : ℕ) → Cmd DlList ℕ
remove_body sort_key = do
  d ← self
  if is_empty d then pure null else do
    ptr ← find (λ k. k == sort_key) d.fresh d.first
    if ptr == null then pure null else do unlink ptr; removed ← load ptr; pure removed.item

-- The memory that the items point into: the char at an address.
module _ (chars : ℕ → ℕ) where
  -- `*((char*)item)`
  abbrev pub char_of : ℕ → Cmd DlList ℕ
  char_of item = if item == null then stop null_pointer else pure (chars item)

  -- The loops of `ShowElements` and `ShowElementsReverse`: the chars and keys printed, behind those
  -- printed before.
  unfoldable pub walk : (Element → ℕ) → ℕ → ℕ → List (ℕ × ℕ) → Cmd DlList (List (ℕ × ℕ))
  walk step zero ptr out = stop out_of_fuel
  walk step (suc fuel) ptr out =
      if ptr == null
      then pure out
      else do e ← load ptr; c ← char_of e.item; walk step fuel (step e) (out ++ (c, e.key) ∷ [])

  -- `DLList::ShowElements`
  unfoldable pub show_elements : Cmd DlList (List (ℕ × ℕ))
  show_elements d = if is_empty d then ok [] d else walk (λ e. e.next) d.fresh d.first [] d

  -- `DLList::ShowElementsReverse`
  unfoldable pub show_elements_reverse : Cmd DlList (List (ℕ × ℕ))
  show_elements_reverse d = if is_empty d then ok [] d else walk (λ e. e.prev) d.fresh d.last [] d

module _ (me : ℕ) where
  -- `DLList::Prepend`
  unfoldable pub prepend : ℕ → Cmd DlList (Unit {0})
  unfolding acquire release
  prepend item = do locking (acquire me); prepend_body item; locking (release me)

  -- `DLList::Append`
  unfoldable pub append : ℕ → Cmd DlList (Unit {0})
  unfolding acquire release
  append item = do locking (acquire me); append_body item; locking (release me)

  -- `DLList::Remove`: the item and what goes through `keyPtr`, which is left alone (0) on an empty list.
  -- `key_ptr` says that the pointer is not NULL.
  unfoldable pub remove : (key_ptr : Bool) → Cmd DlList (ℕ × ℕ)
  unfolding acquire release
  remove key_ptr = do
    locking (acquire me)
    d ← self
    result ← (if is_empty d then pure (null, 0) else take_first key_ptr)
    locking (release me)
    pure result

  -- `DLList::~DLList`, on fuel
  unfoldable pub destroy : ℕ → Cmd DlList (Unit {0})
  unfolding remove
  destroy zero = stop out_of_fuel
  destroy (suc fuel) = do
    (item, _) ← remove false
    let rest = destroy fuel
    if item == null then pure tt else rest

  -- `DLList::SortedInsert`
  unfoldable pub sorted_insert : (item sort_key : ℕ) → Cmd DlList (Unit {0})
  unfolding acquire release
  sorted_insert item sort_key = do
    locking (acquire me)
    insert_body item sort_key
    locking (release me)

  -- `DLList::SortedRemove`
  unfoldable pub sorted_remove : (sort_key : ℕ) → Cmd DlList ℕ
  unfolding acquire release
  sorted_remove sort_key = do
    locking (acquire me)
    item ← remove_body sort_key
    locking (release me)
    pure item
