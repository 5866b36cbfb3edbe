-- ===== src/DlList/Heap.antt =====
-- The elements of a list in memory, and reads and writes of their fields.
use os_lab_nachos.Base.{ℕ, ◌+◌, Option, none, some, ◌==◌, if◌then◌else◌}
use os_lab_nachos.Base.Exec.{Cmd, ok, fault, null_pointer}
use os_lab_nachos.Monitor.{Lock}
use mathlib.Core.Option

abbrev pub null : ℕ
null = 0

pub record Element : Type 0 where
  pub next : ℕ
  pub prev : ℕ
  pub key : ℕ
  pub item : ℕ

abbrev pub Heap : Type 0
Heap = ℕ → Option Element

-- A list with the memory that its elements lie in; `fresh` is the address that `new` gives out next.
pub record DlList : Type 0 where
  pub cells : Heap
  pub fresh : ℕ
  pub first : ℕ
  pub last : ℕ
  pub lock : Lock

-- `DLList::DLList`, with no element in memory
unfoldable pub init : DlList
init = record { cells = λ _. none; fresh = 1; first = null; last = null; lock = none }

abbrev pub self : Cmd DlList DlList
self d = ok d d

-- A change of the element at an address; elsewhere, and where there is none, memory stays.
unfoldable pub modify : Heap → ℕ → (Element → Element) → Heap
modify h p f a = if a == p then Option.map f (h a) else h a

unfoldable pub place : Heap → ℕ → Element → Heap
place h p e a = if a == p then some e else h a

-- `DLLElement::DLLElement`
unfoldable pub new_element : (item sort_key : ℕ) → Cmd DlList ℕ
new_element item sort_key d = ok d.fresh (record d {
  cells = place d.cells d.fresh (record { next = null; prev = null; key = sort_key; item = item });
  fresh = d.fresh + 1;
})

-- `*p`
unfoldable pub load : ℕ → Cmd DlList Element
load p d =
    if p == null
    then fault null_pointer d
    else elim (d.cells p) [ none ↦ fault null_pointer d | some e ↦ ok e d ]

-- a write to the element at `p`
unfoldable pub change : ℕ → (Element → Element) → Cmd DlList (Unit {0})
change p f d = if p == null then fault null_pointer d else elim (d.cells p) [
  | none ↦ fault null_pointer d
  | some e ↦ ok tt (record d { cells = modify d.cells p f })
]

unfoldable pub set_next : ℕ → ℕ → Cmd DlList (Unit {0})
unfolding change
set_next p q = change p (λ e. record e { next = q })

unfoldable pub set_prev : ℕ → ℕ → Cmd DlList (Unit {0})
unfolding change
set_prev p q = change p (λ e. record e { prev = q })

unfoldable pub set_key : ℕ → ℕ → Cmd DlList (Unit {0})
unfolding change
set_key p k = change p (λ e. record e { key = k })
