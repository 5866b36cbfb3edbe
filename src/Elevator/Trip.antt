-- ===== src/Elevator/Trip.antt =====
-- The function `rider` of threads/Elevator.cc as a machine that makes one call in each step. What the
-- calls return, an elevator for `AwaitUp` and `AwaitDown` and a bool for `Enter`, is the answer of the step.
pub mod Count
pub mod Fleet
use os_lab_nachos.Base.{
  ℕ, ◌≡◌, ◌≢◌, refl, sym, ap, ◌∙◌, Bool, true, false, List, [], ◌∷◌, ◌++◌, arith, ltb, ◌==◌,
  if◌then◌else◌, append_assoc, append-nil, replicate,
}

pub data Call : Type 0 where
  call_up call_down : (floor : ℕ) → Call
  await_up await_down : (floor elevator : ℕ) → Call
  enter : (elevator : ℕ) → Bool → Call
  request_floor : (elevator floor : ℕ) → Call
  exit : (elevator : ℕ) → Call

pub data Stage : Type 0 where
  calling awaiting done : Stage
  entering requesting exiting : (elevator : ℕ) → Stage

module _ (src dst : ℕ) where
  unfoldable pub start : Stage
  start = if src == dst then done else calling

  abbrev pub call : Call
  call = if ltb src dst then call_up src else call_down src

  abbrev pub await : ℕ → Call
  await e = if ltb src dst then await_up src e else await_down src e

  -- one call, and the stage behind it; a rider that has returned makes none
  unfoldable pub advance : (elevator : ℕ) (admitted : Bool) → Stage → List Call × Stage
  advance elevator admitted calling = (call ∷ [], awaiting)
  advance elevator admitted awaiting = (await elevator ∷ [], entering elevator)
  advance elevator admitted (entering e) =
      (enter e admitted ∷ [], if admitted then requesting e else calling)
  advance elevator admitted (requesting e) = (request_floor e dst ∷ [], exiting e)
  advance elevator admitted (exiting e) = (exit e ∷ [], done)
  advance elevator admitted done = ([], done)

  -- the calls in their order, and the stage at the end
  unfoldable pub ride : List (ℕ × Bool) → Stage → List Call × Stage
  unfolding advance
  ride [] stage = ([], stage)
  ride ((elevator, admitted) ∷ answers) stage =
      let (calls, next) = advance elevator admitted stage in
      let (more, last) = ride answers next in (calls ++ more, last)

  -- a call of the elevator, its arrival, and a refusal at its door, for each of these elevators
  abbrev pub refusals : List ℕ → List Call
  refusals [] = []
  refusals (e ∷ es) = call ∷ await e ∷ enter e false ∷ refusals es

  -- the calls behind the refusals, at each stage of a trip
  abbrev pub last_try : Stage → List Call
  last_try calling = []
  last_try awaiting = call ∷ []
  last_try (entering e) = call ∷ await e ∷ []
  last_try (requesting e) = call ∷ await e ∷ enter e true ∷ []
  last_try (exiting e) = call ∷ await e ∷ enter e true ∷ request_floor e dst ∷ []
  last_try done = []

  -- what a rider at this stage has done so far
  abbrev pub Done : Stage → List Call → Type 0
  Done done calls =
      (es : List ℕ) × (e : ℕ) × (calls
        ≡ refusals es ++ call ∷ await e ∷ enter e true ∷ request_floor e dst ∷ exit e ∷ [])
  Done stage calls = (es : List ℕ) × (calls ≡ refusals es ++ last_try stage)

  refusals-append :
      (es : List ℕ) (e : ℕ)
      → refusals es ++ call ∷ await e ∷ enter e false ∷ [] ≡ refusals (es ++ e ∷ [])
  refusals-append [] e = refl
  refusals-append (f ∷ es) e =
      ap (λ (r : List Call). call ∷ await f ∷ enter f false ∷ r) (refusals-append es e)

  -- one more call behind those of `Done`
  extend :
      (es : List ℕ) (calls last more : List Call)
      → calls ≡ refusals es ++ last
      → calls ++ more ≡ refusals es ++ (last ++ more)
  extend es calls last more e = rw e (append_assoc (refusals es) last more)

  Done-advance :
      (e : ℕ) (admitted : Bool) (stage : Stage) (calls : List Call)
      → Done stage calls
      → Done (advance e admitted stage).1 (calls ++ (advance e admitted stage).0)
  unfolding advance
  Done-advance e admitted calling calls (es, h) = (es, extend es calls [] (call ∷ []) h)
  Done-advance e admitted awaiting calls (es, h) =
      (es, extend es calls (call ∷ []) (await e ∷ []) h)
  Done-advance e true (entering f) calls (es, h) =
      (es, extend es calls (call ∷ await f ∷ []) (enter f true ∷ []) h)
  Done-advance e false (entering f) calls (es, h) = (
    es ++ f ∷ [],
    extend es calls (call ∷ await f ∷ []) (enter f false ∷ []) h
        ∙ refusals-append es f
        ∙ sym (append-nil _),
  )
  Done-advance e admitted (requesting f) calls (es, h) =
      (es, extend es calls (last_try (requesting f)) (request_floor f dst ∷ []) h)
  Done-advance e admitted (exiting f) calls (es, h) =
      (es, f, extend es calls (last_try (exiting f)) (exit f ∷ []) h)
  Done-advance e admitted done calls (es, f, h) = (es, f, append-nil calls ∙ h)

  ride-Done :
      (answers : List (ℕ × Bool)) (stage : Stage) (calls : List Call)
      → Done stage calls
      → Done (ride answers stage).1 (calls ++ (ride answers stage).0)
  unfolding ride
  ride-Done [] stage calls h = rw (append-nil calls) h
  ride-Done ((e, admitted) ∷ answers) stage calls h =
      rw (← append_assoc calls (advance e admitted stage).0 _) (
        ride-Done answers _ (calls ++ (advance e admitted stage).0)
          (Done-advance e admitted stage calls h))

-- Whatever the calls answer, a rider between two different floors has, at each moment, called, awaited
-- and been refused by some elevators in turn, and then gone a part of the one way: called and awaited an
-- elevator, been admitted by it, requested the floor `dst` of that elevator, and left it. It has
-- returned when it has left.
pub rider-Done :
    (src dst : ℕ) (answers : List (ℕ × Bool))
    → src ≢ dst
    → Done src dst (ride src dst answers (start src dst)).1 (ride src dst answers (start src dst)).0
unfolding start
rider-Done src dst answers h =
    let apart : (src == dst) ≡ false = ground arith in
    rw apart (ride-Done src dst answers calling [] ([], refl))
