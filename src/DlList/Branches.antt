-- ===== src/DlList/Branches.antt =====
-- Each branch of `Remove` and `SortedRemove` (threads/dllist.cc) as an equation on memory.
use os_lab_nachos.Base.{ℕ, ◌<◌, ◌≡◌, ◌≢◌, true, some, [], ◌∷◌, arith}
use os_lab_nachos.Base.Exec.{fault, null_pointer, ok}
use os_lab_nachos.DlList.Heap.{null, Element, DlList, modify}
use os_lab_nachos.DlList.{take_first, unlink}
use os_lab_nachos.DlList.Chain.{Cell, IsList, relink_next, relink_prev}
use os_lab_nachos.DlList.Shrunk.{shrunk}

module _ (d : DlList) where
  pub take_alone :
      (c : Cell)
      → IsList d (c ∷ [])
      → take_first true d ≡ ok (c.item, c.key) (shrunk d [] [] d.cells)
  unfolding take_first
  take_alone c is = ground (arith, is.linked.0, is.first, is.last, is.below)

  -- the head `e` before the element `f` at `q`
  pub take_at :
      (q : ℕ) (e f : Element)
      → (null < d.first) × (null < q)
      → d.cells d.first ≡ some e
      → d.cells q ≡ some f
      → e.next ≡ q
      → d.first ≢ d.last
      → take_first true d
        ≡ ok (e.item, e.key) (record d { cells = relink_prev d.cells q null; first = q })
  unfolding take_first modify
  take_at q e f bounds at_first at_q next more = ground arith

  -- `unlink` of the first, the last and an inner element
  pub unlink_first :
      (p q : ℕ) (e f : Element)
      → (null < p) × (null < q)
      → p ≡ d.first
      → d.cells p ≡ some e
      → d.cells q ≡ some f
      → e.next ≡ q
      → unlink p d ≡ ok tt (record d { cells = relink_prev d.cells q null; first = q })
  unfolding unlink modify
  unlink_first p q e f bounds first at_p at_q next = ground arith

  pub unlink_last :
      (p q : ℕ) (e f : Element)
      → (null < p) × (null < q)
      → p ≢ d.first
      → p ≡ d.last
      → d.cells p ≡ some e
      → d.cells q ≡ some f
      → e.prev ≡ q
      → unlink p d ≡ ok tt (record d { cells = relink_next d.cells q null; last = q })
  unfolding unlink modify
  unlink_last p q e f bounds inner last at_p at_q prev = ground arith

  pub unlink_inner :
      (p q r : ℕ) (e f g : Element)
      → (null < p) × (null < q) × (null < r)
      → p ≢ d.first
      → p ≢ d.last
      → d.cells p ≡ some e
      → d.cells q ≡ some f
      → d.cells r ≡ some g
      → e.prev ≡ q
      → e.next ≡ r
      → unlink p d ≡ ok tt (record d { cells = relink_prev (relink_next d.cells q r) r q })
  unfolding unlink modify
  unlink_inner p q r e f g bounds inner more at_p at_q at_r prev next = ground arith

  -- The only element: its successor is NULL, and the write to it is a fault.
  pub unlink_alone :
      (p : ℕ) (e : Element)
      → null < p
      → p ≡ d.first
      → d.cells p ≡ some e
      → e.next ≡ null
      → unlink p d ≡ fault null_pointer (record d { first = null })
  unfolding unlink modify
  unlink_alone p e bound first at_p next = ground arith
