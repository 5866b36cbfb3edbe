-- ===== src/Synch/Tests.antt =====
-- Semaphores, locks and conditions at concrete inputs, over a plain list of threads.
use os_lab_nachos.Base.{ℕ, true, ◌≡◌, refl, none, some, List, [], ◌∷◌}
use os_lab_nachos.Base.Exec.{Returns, Settled, Sleeps, ok, lifted}
use os_lab_nachos.Monitor
use os_lab_nachos.Synch.Queue.{ThreadQueue, list_queue}
use os_lab_nachos.Synch.Semaphore as semaphore
use os_lab_nachos.Synch.Semaphore.{Semaphore, p, v}
use os_lab_nachos.Synch.Semaphore.Runs as runs
use os_lab_nachos.Synch.Semaphore.Runs.{
  Run, Entered, arrives, wakes, Step, takes, sleeps, raises, Reach, start, later, reach-IsValid,
}
use os_lab_nachos.Synch.Exclusion
use os_lab_nachos.Synch.Exclusion.Owner.{inside}
use os_lab_nachos.Synch.Exclusion.Mutual.{mutual_exclusion}
use os_lab_nachos.Synch.Lock as lock
use os_lab_nachos.Synch.Lock.{Lock, acquire, release}
use os_lab_nachos.Synch.Lock.Refine.{IsValid, acquire-refines, release-refines}
use os_lab_nachos.Synch.Condition.{Condition, signal, broadcast}
use os_lab_nachos.Synch.Condition.Runs as waits
use os_lab_nachos.Synch.Condition.Refine.{Acts, signal-refines, broadcast-refines}
use os_lab_nachos.Synch.Condition.Lost.{signalled_between, signal_between_is_lost}

abbrev Q : ThreadQueue
Q = list_queue

abbrev units_left : ℕ → List ℕ → List ℕ → Semaphore Q
units_left n queue ready = record { value = n; queue = queue; ready = ready }

abbrev run : Semaphore Q → ℕ → ℕ → Run Q
run s downs ups = record { semaphore = s; downs = downs; ups = ups }

start_lem : Reach Q 0 (run (units_left 0 [] []) 0 0)
unfolding semaphore.init
start_lem = start

-- Thread 4 finds no unit and sleeps, a unit comes, and thread 5 takes it before the woken thread 4.
overtaken : Reach Q 0 (run (units_left 0 [] (4 ∷ [])) 1 1)
unfolding p v
overtaken =
    later (later (later start_lem (sleeps 4 arrives refl)) (raises refl)) (takes 5 arrives refl)

sleeps_again : Reach Q 0 (run (units_left 0 (4 ∷ []) []) 1 1)
unfolding p v
sleeps_again = later overtaken (sleeps 4 (wakes [] [] refl) refl)

reach-IsValid_example : runs.IsValid Q 0 (run (units_left 0 (4 ∷ []) []) 1 1)
reach-IsValid_example = reach-IsValid Q sleeps_again

-- held by thread 3
abbrev held_lock : Lock Q
held_lock = record { lock_hoder = some 3; sem = units_left 0 [] []; inte = units_left 1 [] [] }

held_lock-IsValid : IsValid Q held_lock
held_lock-IsValid = (refl, refl)

acquire-refines_example :
    (lifted (λ l. l.lock_hoder) (acquire Q 4 held_lock) ≡ Monitor.acquire 4 (some 3))
    × Settled (IsValid Q) (acquire Q 4 held_lock)
acquire-refines_example = acquire-refines Q 4 held_lock held_lock-IsValid

release-refines_example :
    (lifted (λ l. l.lock_hoder) (release Q 3 held_lock) ≡ Monitor.release 3 (some 3))
    × Settled (IsValid Q) (release Q 3 held_lock)
release-refines_example = release-refines Q 3 held_lock held_lock-IsValid

-- threads 4 and 5 wait
abbrev waited_on : Condition Q
waited_on = record {
  sem = units_left 0 (4 ∷ 5 ∷ []) [];
  inte = units_left 1 [] [];
  block_num = 2;
  condition_lock = held_lock;
}

abbrev idle : Condition Q
idle = record waited_on { sem = units_left 0 [] []; block_num = 0 }

broadcast_runs :
    broadcast Q 3 waited_on
    ≡ ok tt (record waited_on { sem = units_left 2 [] (4 ∷ 5 ∷ []); block_num = 0 })
unfolding broadcast
broadcast_runs = refl

signal-refines_example : Returns (λ _ c'. Acts Q Monitor.signal waited_on c') (signal Q 3 waited_on)
signal-refines_example = signal-refines Q 3 waited_on refl

broadcast-refines_example :
    Returns (λ _ c'. Acts Q Monitor.broadcast waited_on c') (broadcast Q 3 waited_on)
broadcast-refines_example = broadcast-refines Q 3 waited_on refl

signal_between_is_lost_example :
    Sleeps
      (λ c'. (c'.block_num ≡ 1) × (c'.sem.value ≡ 0) × (c'.condition_lock.lock_hoder ≡ none))
      (signalled_between Q 3 4 idle)
signal_between_is_lost_example = signal_between_is_lost Q 3 4 idle held_lock-IsValid refl refl refl

-- Thread 1 has the unit, and thread 2 sleeps in `Acquire`.
abbrev contended : Exclusion.System Q
contended = record {
  lock = record { lock_hoder = none; sem = units_left 0 (2 ∷ []) []; inte = units_left 1 [] [] };
  pc =
      Exclusion.update
        (Exclusion.update (Exclusion.update (λ _. Exclusion.outside) 1 Exclusion.taking) 1
          Exclusion.taken)
        2 Exclusion.taking;
}

contended-Reach : Exclusion.Reach Q contended
unfolding p lock.init semaphore.init
contended-Reach =
    Exclusion.later
      (Exclusion.later
        (Exclusion.later
          (Exclusion.later Exclusion.start (Exclusion.acquire_begins 1 refl (λ e. cc)))
          (Exclusion.sem_taken 1 refl refl))
        (Exclusion.acquire_begins 2 refl (λ e. cc)))
      (Exclusion.sem_sleeps 2 refl refl)

mutual_exclusion_example :
    ((t u : ℕ) → inside (contended.pc t) ≡ true → inside (contended.pc u) ≡ true → t ≡ u)
    × ((t : ℕ) → contended.pc t ≡ Exclusion.checking → contended.lock.lock_hoder ≡ some t)
mutual_exclusion_example = mutual_exclusion Q contended-Reach

-- what is left when thread 4 waits, and thread 5 takes its count and brings it a unit
abbrev signalled_run : waits.Run Q
signalled_run = record {
  sem = units_left 1 [] (4 ∷ []);
  block_num = 0;
  waiting = 1;
  owner = some 5;
  place = waits.outside;
}

signalled : waits.Reach Q signalled_run
unfolding semaphore.init p v
signalled =
    let asleep_counted =
      waits.later (waits.later waits.start waits.counts) (waits.sleeps 4 arrives refl) in
    let seen =
      waits.later (waits.later asleep_counted (waits.acquires 5 refl))
        (waits.tests 5 refl refl refl) in
    waits.later (waits.later seen (waits.uncounts 5 refl refl)) (waits.raises 5 refl refl refl)

reach-Accounted_example : waits.Accounted Q signalled_run
reach-Accounted_example = waits.reach-Accounted Q signalled
