-- ===== src/Synch/Queue.antt =====
-- What class Semaphore (threads/synch.cc) relies on in its queue, the class List of Nachos: the first
-- thread appended is the first removed.
use os_lab_nachos.Base.{ℕ, ◌≡◌, refl, Option, none, some, List, [], ◌∷◌, ◌++◌}

abbrev pub first_of : List ℕ → Option ℕ
first_of [] = none
first_of (t ∷ l) = some t

abbrev pub behind_first : List ℕ → List ℕ
behind_first [] = []
behind_first (t ∷ l) = l

pub record ThreadQueue : Type 1 where
  pub State : Type 0
  pub contents : State → List ℕ
  pub empty : State
  pub append : ℕ → State → State
  pub remove : State → Option ℕ × State
  pub empty_law : contents empty ≡ []
  pub append_law : (t : ℕ) (s : State) → contents (append t s) ≡ contents s ++ t ∷ []
  pub remove_law :
      (s : State)
      → ((remove s).0 ≡ first_of (contents s)) × (contents (remove s).1 ≡ behind_first (contents s))

abbrev pub list_queue : ThreadQueue
list_queue = record {
  State = List ℕ;
  contents = λ l. l;
  empty = [];
  append = λ t l. l ++ t ∷ [];
  remove = λ l. (first_of l, behind_first l);
  empty_law = refl;
  append_law = λ t s. refl;
  remove_law = λ s. (refl, refl);
}
