-- ===== src/Alarm/Queue.antt =====
-- What the alarm asks of its queue, and that the list of DlList.antt gives it.
use os_lab_nachos.Base.{ℕ, ◌≡◌, none, true, List}
use os_lab_nachos.Base.Exec.{Cmd, Returns, Returns-mono}
use os_lab_nachos.DlList.Heap.{DlList}
use os_lab_nachos.DlList.{sorted_insert, remove}
use os_lab_nachos.DlList.Chain.{Holds}
use os_lab_nachos.DlList.Insert.{inserted, sorted_insert_lem}
use os_lab_nachos.DlList.Remove.{popped, remove_lem}

pub record SortedQueue : Type 1 where
  pub State : Type 0
  pub Queued : State → List (ℕ × ℕ) → Type 0
  pub insert : (item key : ℕ) → Cmd State (Unit {0})
  pub remove : Cmd State (ℕ × ℕ)
  pub insert_law :
      (s : State) (l : List (ℕ × ℕ)) (v k : ℕ)
      → Queued s l
      → Returns (λ _ s'. Queued s' (inserted v k l)) (insert v k s)
  pub remove_law :
      (s : State) (l : List (ℕ × ℕ))
      → Queued s l
      → Returns (λ r s'. (r ≡ (popped l).0) × Queued s' (popped l).1) (remove s)

-- A list with its lock free, worked on by the thread `me`.
abbrev pub Free : DlList → List (ℕ × ℕ) → Type 0
Free d l = Holds d l × (d.lock ≡ none)

pub insert_law :
    (me : ℕ) (d : DlList) (l : List (ℕ × ℕ)) (v k : ℕ)
    → Free d l
    → Returns (λ _ d'. Free d' (inserted v k l)) (sorted_insert me v k d)
insert_law me d l v k (holds, free) = sorted_insert_lem me v k d l holds free

pub remove_law :
    (me : ℕ) (d : DlList) (l : List (ℕ × ℕ))
    → Free d l
    → Returns (λ r d'. (r ≡ (popped l).0) × Free d' (popped l).1) (remove me true d)
remove_law me d l (holds, free) =
    Returns-mono (λ r d'. ((r ≡ (popped l).0) × Holds d' (popped l).1) × (d'.lock ≡ none)) _
      (remove me true d) (λ r d' h. (h.0.0, (h.0.1, h.1))) (remove_lem me d l holds free)

abbrev pub list_queue : ℕ → SortedQueue
list_queue me = record {
  State = DlList;
  Queued = Free;
  insert = sorted_insert me;
  remove = remove me true;
  insert_law = insert_law me;
  remove_law = remove_law me;
}
