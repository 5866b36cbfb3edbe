-- ===== src/ThreadTest/Forks.antt =====
-- Which threads `ThreadTest` (threads/threadtest.cc) forks, and how many fit its arrays of names.
use os_lab_nachos.Base.{
  ℕ, zero, suc, ◌+◌, ◌^◌, ◌-◌, ◌<◌, ◌≤◌, ◌≡◌, refl, sym, ap, ◌∙◌, ◌⊎◌, inl, inr, List, [], ◌∷◌,
  ◌++◌, arith, ltb, if◌then◌else◌, length, length-append, append_assoc, append-nil, lt→ltb, le→ltb,
  dec_lt,
}
use os_lab_nachos.Base.Exec.{Cmd, ok, fault, out_of_bounds, and_then, lifted}
use os_lab_nachos.Base.Text.{Str, codes, decimal, length-decimal}
use os_lab_nachos.Options.{Options}
use os_lab_nachos.Options.Settings.{
  Setting, Pair, pair, line, apply_all, main_options-read, apply_all-pair, int_value,
  int_value-fits,
}
use os_lab_nachos.ThreadTest.{
  Body, Action, fork, new_dllist, new_table, new_buffer, fork_named, fork_loop, thread_test, Kernel,
  main, table_size, buffer_size,
}
use os_lab_nachos.ThreadTest.Body.{
  dllist_producer, dllist_consumer, table_producer, table_consumer, buffer_producer,
  buffer_consumer,
}

-- the forks of `count` threads numbered from `i` on
abbrev pub workers : Str → Body → (count i : ℕ) → List Action
workers text body zero i = []
workers text body (suc count) i = fork (text ++ decimal i) body i ∷ workers text body count (i + 1)

module _ (rows cols : ℕ) (text : Str) (body : Body) (few : rows ≤ 100)
    (fits : length text + 2 < cols) where
  fork_named-ok :
      (i : ℕ) (s : List Action)
      → i < rows
      → fork_named rows cols text body i s ≡ ok tt (s ++ fork (text ++ decimal i) body i ∷ [])
  unfolding fork_named
  fork_named-ok i s h =
      rw
        (
          lt→ltb i rows h,
          lt→ltb (length (text ++ decimal i)) cols
              (omega (arith, length-append text (decimal i), length-decimal i (omega arith))),
        )
        refl

  -- With rows for all, every thread gets its name.
  fork_loop-ok :
      (count i : ℕ) (s : List Action)
      → i + count ≤ rows
      → fork_loop rows cols text body count i s ≡ ok tt (s ++ workers text body count i)
  unfolding fork_loop
  fork_loop-ok zero i s h = ap (ok tt) (sym (append-nil s))
  fork_loop-ok (suc count) i s h = rw (fork_named-ok i s (omega arith)) (
      fork_loop-ok count (i + 1) (s ++ fork (text ++ decimal i) body i ∷ []) (omega arith)
      ∙ ap (ok tt)
          (append_assoc s (fork (text ++ decimal i) body i ∷ []) (workers text body count (i + 1))))

  fork_named-over :
      (i : ℕ) (s : List Action)
      → rows ≤ i
      → fork_named rows cols text body i s ≡ fault out_of_bounds s
  unfolding fork_named
  fork_named-over i s h = rw (le→ltb i rows h) refl

  -- Without, the name of the first thread that has none is written behind the array.
  fork_loop-over :
      (count i : ℕ) (s : List Action)
      → i ≤ rows
      → rows < i + count
      → fork_loop rows cols text body count i s
        ≡ fault out_of_bounds (s ++ workers text body (rows - i) i)
  unfolding fork_loop
  fork_loop-over zero i s h g = absurd (omega arith)
  fork_loop-over (suc count) i s h g = elim (dec_lt i rows) [
    | yes lt ↦
        let e : rows - i ≡ suc (rows - (i + 1)) = omega arith in
        rw (e, fork_named-ok i s lt)
          (fork_loop-over count (i + 1) (s ++ fork (text ++ decimal i) body i ∷ []) (omega arith)
              (omega arith)
            ∙ ap (fault out_of_bounds) (
                append_assoc s (fork (text ++ decimal i) body i ∷ [])
                  (workers text body (rows - (i + 1)) (i + 1))))
    | no ge ↦
        let e : rows - i ≡ 0 = omega arith in
        rw (e, fork_named-over i s (omega arith), append-nil s) refl
  ]

abbrev new_object : Pair → Action
new_object Pair.dllist = new_dllist
new_object Pair.table = new_table table_size
new_object Pair.boundedbuffer = new_buffer buffer_size

abbrev producer : Pair → Body
producer Pair.dllist = dllist_producer
producer Pair.table = table_producer
producer Pair.boundedbuffer = buffer_producer

abbrev consumer : Pair → Body
consumer Pair.dllist = dllist_consumer
consumer Pair.table = table_consumer
consumer Pair.boundedbuffer = buffer_consumer

abbrev producer_text : Str
producer_text = codes "producer thread "

-- the consumers of the table are named like producers
abbrev consumer_text : Pair → Str
consumer_text Pair.dllist = codes "consumer thread "
consumer_text Pair.table = codes "producer thread "
consumer_text Pair.boundedbuffer = codes "consumer thread "

-- the object that a test of producers and consumers makes, and the first threads that it forks
abbrev pub producers : Pair → ℕ → List Action
producers k p = new_object k ∷ workers producer_text (producer k) p 0

abbrev pub threads_of : Pair → (p c : ℕ) → List Action
threads_of k p c = producers k p ++ workers (consumer_text k) (consumer k) c 0

consumer_text-fits : (k : Pair) → length (consumer_text k) + 2 < 20
consumer_text-fits Pair.dllist = omega arith
consumer_text-fits Pair.table = omega arith
consumer_text-fits Pair.boundedbuffer = omega arith

-- the three tests, as one command
abbrev pair_test : Pair → (p c : ℕ) → Cmd (List Action) (Unit {0})
pair_test k p c s =
    and_then (fork_loop 50 20 producer_text (producer k) p 0 (s ++ new_object k ∷ []))
      (λ _. fork_loop 50 20 (consumer_text k) (consumer k) c 0)

chosen :
    (k : Pair) (p c : ℕ) (ss : List (Setting × Str)) (o : Options) (s : List Action)
    → thread_test (apply_all ss (pair k p c) o) s ≡ pair_test k p c s
unfolding thread_test
chosen Pair.dllist p c [] o s = refl
chosen Pair.table p c [] o s = refl
chosen Pair.boundedbuffer p c [] o s = refl
chosen k p c ((x, _) ∷ ss) o s = chosen k p c ss _ s

module _ (k : Pair) (p c : ℕ) (s : List Action) where
  producers-ok :
      p ≤ 50
      → fork_loop 50 20 producer_text (producer k) p 0 (s ++ new_object k ∷ [])
        ≡ ok tt (s ++ producers k p)
  producers-ok h =
      fork_loop-ok 50 20 producer_text (producer k) (omega arith) (omega arith) p 0
        (s ++ new_object k ∷ []) (omega arith)
      ∙ ap (ok tt) (append_assoc s (new_object k ∷ []) (workers producer_text (producer k) p 0))

  pair_test-ok : p ≤ 50 → c ≤ 50 → pair_test k p c s ≡ ok tt (s ++ threads_of k p c)
  pair_test-ok h g = rw (producers-ok h) (
      fork_loop-ok 50 20 (consumer_text k) (consumer k) (omega arith) (consumer_text-fits k) c 0
        (s ++ producers k p) (omega arith)
      ∙ ap (ok tt) (append_assoc s (producers k p) _))

  pair_test-over :
      p ≤ 50 → 50 < c → pair_test k p c s ≡ fault out_of_bounds (s ++ threads_of k p 50)
  pair_test-over h g = rw (producers-ok h) (
      fork_loop-over 50 20 (consumer_text k) (consumer k) (omega arith) (consumer_text-fits k) c 0
        (s ++ producers k p) (omega arith) (omega arith)
      ∙ ap (fault out_of_bounds) (append_assoc s (producers k p) _))

  pair_test-many : 50 < p → pair_test k p c s ≡ fault out_of_bounds (s ++ producers k 50)
  pair_test-many h =
      rw
        (fork_loop-over 50 20 producer_text (producer k) (omega arith) (omega arith) p 0
            (s ++ new_object k ∷ []) (omega arith) (omega arith)
          ∙ ap (fault out_of_bounds) (append_assoc s (new_object k ∷ []) _))
        refl

-- the state of the program when `main` has read its options
abbrev started : List (Setting × Str) → Pair → (p c : ℕ) → Options → List Action → Kernel
started ss k p c o actions = record { options = apply_all ss (pair k p c) o; actions = actions }

module _ (ss : List (Setting × Str)) (k : Pair) (p c : ℕ) (o : Options) where
  main_chosen :
      p < 2 ^ 31
      → c < 2 ^ 31
      → main (line ss (pair k p c)) (record { options = o; actions = [] })
        ≡ and_then (lifted (started ss k p c o) (pair_test k p c [])) (λ _. ok [])
  unfolding main
  main_chosen h g =
      rw
        (
          main_options-read ss (pair k p c) o
              ∙ ap (ok [])
                  (apply_all-pair int_value ss k p c o (int_value-fits p h) (int_value-fits c g)),
          chosen k p c ss o [],
        )
        refl

  -- A command line that ends with `-m p c`, `-a p c` or `-b p c`, with p and c up to 50, makes the list, the
  -- table or the buffer and forks p producers and then c consumers, each with its name.
  pub main-pair :
      p ≤ 50
      → c ≤ 50
      → main (line ss (pair k p c)) (record { options = o; actions = [] })
        ≡ ok [] (started ss k p c o (threads_of k p c))
  main-pair h g = main_chosen (omega arith) (omega arith) ∙ rw (pair_test-ok k p c [] h g) refl

  -- On a command line that ends with `-m p c`, `-a p c` or `-b p c`, with p and c below 2^31 and one of them
  -- above 50, the first threads are forked with their names, and then the name of the 51st producer or
  -- consumer is written behind the array of names. Nothing is said of what the program does from there on.
  pub main_over :
      p < 2 ^ 31
      → c < 2 ^ 31
      → (50 < p) ⊎ (50 < c)
      → main (line ss (pair k p c)) (record { options = o; actions = [] })
        ≡ fault out_of_bounds
            (started ss k p c o (if ltb 50 p then producers k 50 else threads_of k p 50))
  main_over low_p low_c h = elim (dec_lt 50 p) [
    | yes many ↦ main_chosen low_p low_c ∙ rw (lt→ltb 50 p many, pair_test-many k p c [] many) refl
    | no few ↦
        main_chosen low_p low_c
        ∙ rw (le→ltb 50 p (omega arith), pair_test-over k p c [] (omega arith) (second h few)) refl
  ]
    where
      second : (50 < p) ⊎ (50 < c) → (50 < p → ⊥) → 50 < c
      second (inl a) few = absurd (few a)
      second (inr b) few = b
