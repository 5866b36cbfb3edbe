-- ===== src/ThreadTest.antt =====
-- threads/threadtest.cc in the build with MULTIPLE_ELEVATOR: what `ThreadTest` makes and forks for each
-- test, and `main` (threads/main.cc) up to there. A thread's name is what `sprintf` writes into
-- its row of a global array.
pub mod Forks
pub mod ListTest
pub mod TableTest
pub mod RiderTest
pub mod BufferTest
pub mod Others
mod Tests
use os_lab_nachos.Base.{
  ℕ, zero, suc, ◌+◌, List, [], ◌∷◌, ◌++◌, Bool, false, ltb, ◌==◌, ◌&&◌, if◌then◌else◌, length,
}
use os_lab_nachos.Base.Exec.{Cmd, ok, out_of_bounds, pure, stop, lift, ◌>>=◌, ◌>>◌}
use os_lab_nachos.Base.Int.{ℤ, pos, negsuc}
use os_lab_nachos.Base.Text.{Str, codes, decimal}
use os_lab_nachos.Options.{Options, main_options}

-- the functions that threads run
pub data Body : Type 0 where
  simple_thread : Body
  dllist_producer dllist_consumer table_producer table_consumer buffer_producer buffer_consumer :
      Body
  barrier_running barrier_signal alarm alarm_again elevator_control elevator_rider : Body

pub data Action : Type 0 where
  new_dllist new_barrier : Action
  new_table new_buffer : ℕ → Action
  new_building : (floors elevators : ℕ) → Action
  -- `new Thread(name)` and `Fork(body, arg)`
  fork : (name : Str) → Body → (arg : ℕ) → Action
  call_simple_thread : ℕ → Action
  no_test : Action

abbrev pub act : Action → Cmd (List Action) (Unit {0})
act a s = ok tt (s ++ a ∷ [])

-- `sprintf(names[i], "... %d", i)`, a `Thread` of that name and its `Fork`, where `names` is
-- `char[rows][cols]`. A name that does not fit is written over what lies behind; the run that is described
-- ends there.
unfoldable pub fork_named :
    (rows cols : ℕ) (text : Str) (body : Body) (i : ℕ) → Cmd (List Action) (Unit {0})
fork_named rows cols text body i =
    if ltb i rows && ltb (length (text ++ decimal i)) cols
    then act (fork (text ++ decimal i) body i)
    else stop out_of_bounds

-- `count` rounds of `for (int i = 0; ...; i++)`, from `i` on
unfoldable pub fork_loop :
    (rows cols : ℕ) (text : Str) (body : Body) (count i : ℕ) → Cmd (List Action) (Unit {0})
fork_loop rows cols text body zero i = pure tt
fork_loop rows cols text body (suc count) i = do
  fork_named rows cols text body i
  fork_loop rows cols text body count (i + 1)

-- how often `i < n` holds from 0 on
abbrev pub rounds : ℤ → ℕ
rounds (pos n) = n
rounds (negsuc n) = 0

abbrev pub table_size : ℕ
table_size = 100000

abbrev pub buffer_size : ℕ
buffer_size = 1000

abbrev pub num_floors : ℕ
num_floors = 10

abbrev pub total_riders : ℕ
total_riders = 20

abbrev pub elevator_num : ℕ
elevator_num = 2

-- `ThreadTest1`
unfoldable pub thread_test1 : Cmd (List Action) (Unit {0})
thread_test1 = act (fork (codes "forked thread") simple_thread 1) >> act (call_simple_thread 0)

-- `ThreadTest2`
unfoldable pub thread_test2 : Options → Cmd (List Action) (Unit {0})
thread_test2 o = do
  act new_dllist
  fork_loop 50 20 (codes "producer thread ") dllist_producer (rounds o.producersnum) 0
  fork_loop 50 20 (codes "consumer thread ") dllist_consumer (rounds o.consumersnum) 0

-- `ThreadTest3`
unfoldable pub thread_test3 : Options → Cmd (List Action) (Unit {0})
thread_test3 o = do
  act (new_table table_size)
  fork_loop 50 20 (codes "producer thread ") table_producer (rounds o.producersnum) 0
  fork_loop 50 20 (codes "producer thread ") table_consumer (rounds o.consumersnum) 0

-- `ThreadTest4`
unfoldable pub thread_test4 : Options → Cmd (List Action) (Unit {0})
thread_test4 o = do
  act (new_buffer buffer_size)
  fork_loop 50 20 (codes "producer thread ") buffer_producer (rounds o.producersnum) 0
  fork_loop 50 20 (codes "consumer thread ") buffer_consumer (rounds o.consumersnum) 0

-- `ThreadTest5`
unfoldable pub thread_test5 : Cmd (List Action) (Unit {0})
thread_test5 = do
  act new_barrier
  fork_loop 10 10 (codes "thread ") barrier_running 10 0
  act (fork (codes "sig") barrier_signal 10)

-- `ThreadTest6`
unfoldable pub thread_test6 : Cmd (List Action) (Unit {0})
thread_test6 = do
  act (fork (codes "thread 0") alarm 3)
  act (fork (codes "thread 1") alarm 2)
  act (fork (codes "thread 2") alarm 1)

-- `ThreadTest7`
unfoldable pub thread_test7 : Cmd (List Action) (Unit {0})
thread_test7 = do
  act (new_building num_floors elevator_num)
  fork_loop 10 15 (codes "elevator ") elevator_control elevator_num 0
  fork_loop 100 15 (codes "rider ") elevator_rider total_riders 0

abbrev pub is_test : ℕ → ℤ → Bool
is_test n (pos k) = k == n
is_test n (negsuc _) = false

-- `ThreadTest`
unfoldable pub thread_test : Options → Cmd (List Action) (Unit {0})
unfolding thread_test1 thread_test2 thread_test3 thread_test4 thread_test5 thread_test6 thread_test7
thread_test o =
    if is_test 1 o.testnum
    then thread_test1
    else if is_test 2 o.testnum
    then thread_test2 o
    else if is_test 3 o.testnum
    then thread_test3 o
    else if is_test 4 o.testnum
    then thread_test4 o
    else if is_test 5 o.testnum
    then thread_test5
    else if is_test 6 o.testnum
    then thread_test6
    else if is_test 7 o.testnum
    then thread_test7
    else act no_test

pub record Kernel : Type 0 where
  pub options : Options
  pub actions : List Action

-- `main`, from the loop over the options to the end of `ThreadTest`; the value is what is left of the
-- arguments.
unfoldable pub main : List Str → Cmd Kernel (List Str)
main args = do
  rest ← lift (λ k. k.options) (λ o k. record k { options = o }) (main_options args)
  λ k. lift (λ k. k.actions) (λ l k. record k { actions = l }) (thread_test k.options) k
  pure rest
