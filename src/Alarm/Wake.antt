-- ===== src/Alarm/Wake.antt =====
-- What `Pause`, `CheckIfDue` and the interrupt handler of Alarm.antt do to the queue and the threads.
use mathlib.Core.Path.{subst}
use os_lab_nachos.Base.{
  ℕ, ◌⊎◌, ltb, not, zero, suc, ◌≡◌, ◌≤◌, ◌<◌, ◌+◌, ◌-◌, refl, sym, ◌∙◌, Bool, true, false, List, [],
  ◌∷◌, ◌++◌, arith, Bool-cases, inl, inr, length, ◌==◌, if◌then◌else◌, append_assoc, append-nil,
}
use os_lab_nachos.Base.Exec.{
  Returns, Returns-mono, Returns-bind, Returns-lifted, Sleeps-bind, Sleeps, asleep, and_then,
}
use os_lab_nachos.DlList.Insert.{inserted}
use os_lab_nachos.DlList.Remove.{NoNull, ne_null, popped}
use os_lab_nachos.Alarm.{
  is_due, due_time, timer_interrupt_handler, Alarm, queueing, pause, due_loop, check_if_due,
}
use os_lab_nachos.Alarm.Queue.{SortedQueue}

-- The threads to wake, in order, and the entries that stay: the first one that is not due goes back
-- behind those of the same time.
abbrev pub drain : ℕ → List (ℕ × ℕ) → List ℕ × List (ℕ × ℕ)
drain now [] = ([], [])
drain now ((v, k) ∷ l) =
    if is_due k now then (v ∷ (drain now l).0, (drain now l).1) else ([], inserted v k l)

suc_test : (n : ℕ) → (n + 1 == 1) ≡ (n == 0)
suc_test n = ground arith

small_test : (n : ℕ) → ((n == 1) ≡ true) ⊎ ((n == 0) ≡ true) → ltb n 2 ≡ true
small_test n h = ground arith

large_test : (n : ℕ) → (n == 1) ≡ false → (n == 0) ≡ false → ltb n 2 ≡ false
large_test n h g = ground arith

module _ (Q : SortedQueue) where
  -- The threads `woken` have been handed on, and the entries `rest` stay.
  abbrev pub Woken : List ℕ → List (ℕ × ℕ) → Alarm Q → Alarm Q → Type 0
  Woken woken rest a a' =
      Q.Queued a'.queue rest
      × (a'.ready ≡ a.ready ++ woken)
      × (a'.waiters + length woken ≡ a.waiters)
      × (a'.forked ≡ a.forked)

  abbrev pub Drained : ℕ → List (ℕ × ℕ) → Alarm Q → Alarm Q → Type 0
  Drained now l = Woken (drain now l).0 (drain now l).1

  due_loop_lem :
      (now fuel : ℕ) (l : List (ℕ × ℕ)) (a : Alarm Q)
      → Q.Queued a.queue (popped l).1
      → NoNull l
      → length l ≤ a.waiters
      → length l < fuel
      → Returns (λ _ a'. Drained now l a a') (due_loop Q fuel now (popped l).0.0 (popped l).0.1 a)
  unfolding due_loop
  due_loop_lem now zero l a queued real count enough = absurd (omega arith)
  due_loop_lem now (suc fuel) [] a queued real count enough =
      (queued, sym (append-nil a.ready), omega arith, refl)
  due_loop_lem now (suc fuel) ((v, k) ∷ l) a queued real count enough =
      rw (ne_null v real.0) (elim (Bool-cases (is_due k now)) [
        | inl t ↦ rw t (
            Returns-bind
              (λ r b.
                (q : Q.State) × ((r ≡ (popped l).0) × Q.Queued q (popped l).1)
                × (b ≡ record woken { queue = q }))
              _ (queueing Q Q.remove woken) _
              (Returns-lifted (λ r q. (r ≡ (popped l).0) × Q.Queued q (popped l).1) _
                (Q.remove woken.queue) (Q.remove_law a.queue l queued))
              λ r b (q, (got, still), e).
                subst
                  (λ (r : ℕ × ℕ).
                    Returns (λ _ a'. Woken (v ∷ (drain now l).0) (drain now l).1 a a')
                      (due_loop Q fuel now r.0 r.1 b))
                  (sym got)
                  (subst
                    (λ (b : Alarm Q).
                      Returns (λ _ a'. Woken (v ∷ (drain now l).0) (drain now l).1 a a')
                        (due_loop Q fuel now (popped l).0.0 (popped l).0.1 b))
                    (sym e)
                    (Returns-mono (λ _ a'. Drained now l (record woken { queue = q }) a') _ _
                      (λ _ a' h.
                        (h.0, h.1 ∙ append_assoc a.ready (v ∷ []) _, omega (arith, h.2), h.3))
                      (due_loop_lem now fuel l (record woken { queue = q }) still real.1
                        (omega arith) (omega arith)))))
        | inr f ↦ rw f (
            Returns-mono
              (λ _ b. (q : Q.State) × Q.Queued q (inserted v k l) × (b ≡ record a { queue = q })) _
              (queueing Q (Q.insert v k) a)
              (λ _ b (q, queued', e).
                subst (λ (b : Alarm Q). Woken [] (inserted v k l) a b) (sym e)
                  (queued', sym (append-nil a.ready), omega arith, refl))
              (Returns-lifted (λ _ q. Q.Queued q (inserted v k l)) _ (Q.insert v k a.queue)
                (Q.insert_law a.queue l v k queued)))
      ])
    where
      woken : Alarm Q
      woken = record a { waiters = a.waiters - 1; ready = a.ready ++ v ∷ [] }

  -- `CheckIfDue` returns, given the queue and no fewer waiters than it has entries: it hands the due
  -- threads at its front to the scheduler in order, counts each of them off, and puts the first that is
  -- not due back behind those of its time; it starts no loop thread.
  pub check_if_due_lem :
      (now : ℕ) (l : List (ℕ × ℕ)) (a : Alarm Q)
      → Q.Queued a.queue l
      → NoNull l
      → length l ≤ a.waiters
      → Returns (λ _ a'. Drained now l a a') (check_if_due Q now a)
  unfolding check_if_due
  check_if_due_lem now l a queued real count =
      Returns-bind
        (λ r b.
          (q : Q.State) × ((r ≡ (popped l).0) × Q.Queued q (popped l).1)
          × (b ≡ record a { queue = q }))
        _ (queueing Q Q.remove a) _
        (Returns-lifted (λ r q. (r ≡ (popped l).0) × Q.Queued q (popped l).1) _ (Q.remove a.queue)
          (Q.remove_law a.queue l queued))
        λ r b (q, (got, still), e).
          subst
            (λ (r : ℕ × ℕ).
              Returns (λ _ a'. Drained now l a a') (due_loop Q (a.waiters + 1) now r.0 r.1 b))
            (sym got)
            (subst
              (λ (b : Alarm Q).
                Returns (λ _ a'. Drained now l a a')
                  (due_loop Q (a.waiters + 1) now (popped l).0.0 (popped l).0.1 b))
              (sym e)
              (due_loop_lem now (a.waiters + 1) l (record a { queue = q }) still real count
                (omega arith)))

  queued_asleep :
      (me due : ℕ) (l : List (ℕ × ℕ)) (b : Alarm Q)
      → Q.Queued b.queue l
      → Sleeps {A = Unit {0}}
          (λ a'.
            Q.Queued a'.queue (inserted me due l)
            × (a'.waiters ≡ b.waiters)
            × (a'.ready ≡ b.ready)
            × (a'.forked ≡ b.forked))
          (and_then (queueing Q (Q.insert me due) b) (λ _. asleep))
  queued_asleep me due l b queued =
      Sleeps-bind
        (λ _ c. (q : Q.State) × Q.Queued q (inserted me due l) × (c ≡ record b { queue = q })) _
        (queueing Q (Q.insert me due) b) _
        (Returns-lifted (λ _ q. Q.Queued q (inserted me due l)) _ (Q.insert me due b.queue)
          (Q.insert_law b.queue l me due queued))
        λ _ c (q, queued', e).
          subst
            (λ (c : Alarm Q).
              Q.Queued c.queue (inserted me due l)
              × (c.waiters ≡ b.waiters)
              × (c.ready ≡ b.ready)
              × (c.forked ≡ b.forked))
            (sym e) (queued', refl, refl, refl)

  -- `Pause` puts its thread to sleep: queued behind the entries due no later, counted as a waiter, with
  -- a loop thread started when nobody waited before, and no thread made ready.
  pub pause_lem :
      (me timer_ticks now how_long : ℕ) (l : List (ℕ × ℕ)) (a : Alarm Q)
      → Q.Queued a.queue l
      → Sleeps
          (λ a'.
            Q.Queued a'.queue (inserted me (due_time timer_ticks now how_long) l)
            × (a'.waiters ≡ a.waiters + 1)
            × (a'.ready ≡ a.ready)
            × (a'.forked ≡ (if a.waiters == 0 then a.forked + 1 else a.forked)))
          (pause Q me timer_ticks now how_long a)
  unfolding pause
  pause_lem me timer_ticks now how_long l a queued = elim (Bool-cases (a.waiters == 0)) [
    | inl t ↦
        rw (suc_test a.waiters, t)
          (queued_asleep me due l (record a { waiters = a.waiters + 1; forked = a.forked + 1 })
            queued)
    | inr f ↦
        rw (suc_test a.waiters, f)
          (queued_asleep me due l (record a { waiters = a.waiters + 1 }) queued)
  ]
    where
      due : ℕ
      due = due_time timer_ticks now how_long

  -- The timer interrupt does the same in a thread and on an idle machine, whose difference is only the
  -- yield asked for; with any other argument it does nothing.
  pub timer_interrupt_handler_lem :
      (dummy : ℕ) (idle : Bool) (now : ℕ) (l : List (ℕ × ℕ)) (a : Alarm Q)
      → Q.Queued a.queue l
      → NoNull l
      → length l ≤ a.waiters
      → Returns
          (λ yields a'.
            (yields ≡ (if dummy == 1 then not idle else false))
            × (if ltb dummy 2 then Drained now l a a' else (a' ≡ a)))
          (timer_interrupt_handler Q dummy idle now a)
  unfolding timer_interrupt_handler
  timer_interrupt_handler_lem dummy idle now l a queued real count =
      elim (Bool-cases (dummy == 1)) [
        | inl t ↦
            rw (t, small_test dummy (inl t))
              (Returns-bind (λ _ b. Drained now l a b) _ (check_if_due Q now a) _
                (check_if_due_lem now l a queued real count) λ _ b h. (refl, h))
        | inr f ↦ rw f (elim (Bool-cases (dummy == 0)) [
          | inl t ↦
              rw (t, small_test dummy (inr t))
                (Returns-bind (λ _ b. Drained now l a b) _ (check_if_due Q now a) _
                  (check_if_due_lem now l a queued real count) λ _ b h. (refl, h))
          | inr g ↦ rw (g, large_test dummy f g) (refl, refl)
        ])
      ]
