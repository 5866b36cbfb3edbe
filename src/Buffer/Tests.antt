-- ===== src/Buffer/Tests.antt =====
-- The buffer at concrete inputs.
use os_lab_nachos.Base.{inl, inr, ◌≡◌, refl, none, [], ◌∷◌, ◌++◌, length, arith}
use os_lab_nachos.Base.Exec.{Returns, and_then, ok, asleep}
use os_lab_nachos.Monitor.{Condition, signal}
use os_lab_nachos.Buffer.{
  Buffer, init, write, read, write_woken, read_woken, fill, gather, await_room, await_bytes,
  wait_not_full, wait_not_empty, put, take_out,
}
use os_lab_nachos.Buffer.Stream.{
  Reach, start, later, write_returns, read_sleeps, read_returns, reach-IsStream,
}
use os_lab_nachos.Buffer.Waiting.{slept_full}
use os_lab_nachos.Buffer.Contents.{IsValid, contents}
use os_lab_nachos.Buffer.Fifo.{write_lem, read_lem, read-write, write_too_long}

abbrev quiet : Condition
quiet = record { block_num = 0; wakeups = 0 }

-- 3, then 4, round the end; one writer has been woken and has not run yet.
abbrev wrapped : Buffer
wrapped = record {
  max_size = 3;
  used_size = 2;
  front_place = 1;
  back_place = 2;
  buffer = 4 ∷ 9 ∷ 3 ∷ [];
  lock = none;
  not_full = record { block_num = 0; wakeups = 1 };
  not_empty = record { block_num = 1; wakeups = 0 };
}

wrapped-IsValid : IsValid wrapped
wrapped-IsValid = record {
  room = omega arith;
  filled = refl;
  used_in = omega arith;
  back_in = omega arith;
  front = refl;
}

write_runs :
    write 7 (5 ∷ []) wrapped
    ≡ ok tt (record wrapped {
      used_size = 3;
      front_place = 2;
      buffer = 4 ∷ 5 ∷ 3 ∷ [];
      not_empty = record { block_num = 0; wakeups = 1 };
    })
unfolding write await_room put fill signal
write_runs = refl

-- A woken writer that finds no room takes the wake-up and sleeps again.
write_sleeps :
    write 7 (5 ∷ 6 ∷ []) wrapped
    ≡ asleep (record wrapped { not_full = record { block_num = 2; wakeups = 0 } })
unfolding write await_room wait_not_full
write_sleeps = refl

write_lem_example :
    Returns
      (λ _ b'.
        IsValid b'
        × (b'.lock ≡ none)
        × (b'.not_empty ≡ signal wrapped.not_empty)
        × (contents b' ≡ contents wrapped ++ 5 ∷ []))
      (write 7 (5 ∷ []) wrapped)
write_lem_example = (write_lem 7 wrapped refl wrapped-IsValid (5 ∷ [])).0 (omega arith)

read_lem_example :
    Returns
      (λ out b'.
        IsValid b'
        × (b'.lock ≡ none)
        × (b'.not_full ≡ signal wrapped.not_full)
        × (length out ≡ 1)
        × (contents wrapped ≡ out ++ contents b'))
      (read 7 1 wrapped)
read_lem_example = (read_lem 7 wrapped refl wrapped-IsValid 1).0 (omega arith)

read-write_run :
    Returns
      (λ out b'. (out ≡ contents wrapped ++ 5 ∷ []) × (b'.used_size ≡ 0))
      (and_then (write 7 (5 ∷ []) wrapped) (λ _. read 7 3))
read-write_run = read-write 7 wrapped refl wrapped-IsValid (5 ∷ []) (omega arith)

write_too_long_example :
    write_woken 7 (1 ∷ 2 ∷ 3 ∷ 4 ∷ []) wrapped
    ≡ asleep (slept_full (record wrapped { not_full = quiet }))
write_too_long_example = (write_too_long 7 wrapped refl (1 ∷ 2 ∷ 3 ∷ 4 ∷ []) (omega arith)).1 0 refl

-- A reader of two bytes finds the buffer empty and sleeps, a writer brings two, and the reader goes on.
abbrev passed_on : Buffer
passed_on = record {
  max_size = 3;
  used_size = 0;
  front_place = 2;
  back_place = 2;
  buffer = 1 ∷ 2 ∷ 9 ∷ [];
  lock = none;
  not_full = quiet;
  not_empty = quiet;
}

reached :
    Reach 3
      (9 ∷ 9 ∷ 9 ∷ [])
      (record { buffer = passed_on; input = 1 ∷ 2 ∷ []; output = 1 ∷ 2 ∷ [] })
unfolding init write read read_woken fill gather await_room await_bytes wait_not_empty put take_out
reached =
    later
      (later (later start (read_sleeps 7 2 (inl refl))) (write_returns 8 (1 ∷ 2 ∷ []) (inl refl)))
      (read_returns 7 2 (inr refl))

reach-IsStream_example :
    (passed_on.lock ≡ none) × IsValid passed_on × (1 ∷ 2 ∷ [] ≡ 1 ∷ 2 ∷ [] ++ contents passed_on)
reach-IsStream_example = reach-IsStream refl (omega arith) reached
