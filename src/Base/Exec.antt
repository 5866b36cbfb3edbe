-- ===== src/Base/Exec.antt =====
-- Methods as state-passing commands: a call returns, puts the calling thread to sleep, or stops the
-- program. Each outcome carries the state in which it leaves the object.
use mathlib.Core.Bool.{Bool, true, false}
use mathlib.Core.Path.{◌≡◌, refl}

-- Why a run of the model ends. `out_of_bounds` is an access outside an array: C++ says nothing of what the
-- program does from there on, which need not be that it stops.
pub data Fault : Type 0 where
  assertion null_pointer out_of_bounds out_of_fuel : Fault

pub data Result (S A : Type 0) : Type 0 where
  ok : A → S → Result S A
  asleep : S → Result S A
  fault : Fault → S → Result S A

abbrev pub Cmd : Type 0 → Type 0 → Type 0
Cmd S A = S → Result S A

module _ {S A : Type 0} where
  abbrev pub pure : A → Cmd S A
  pure = ok

  abbrev pub stop : Fault → Cmd S A
  stop = fault

module _ {S A B : Type 0} where
  abbrev pub and_then : Result S A → (A → Cmd S B) → Result S B
  and_then (ok a s) k = k a s
  and_then (asleep s) k = asleep s
  and_then (fault e s) k = fault e s

  infixl 5 ◌>>=◌ ◌>>◌
  abbrev pub ◌>>=◌ : Cmd S A → (A → Cmd S B) → Cmd S B
  m >>= k = λ s. and_then (m s) k

  abbrev pub ◌>>◌ : Cmd S A → Cmd S B → Cmd S B
  m >> n = m >>= λ _. n

-- The call returns, and its value and the state that it leaves satisfy `P`.
abbrev pub Returns : {S A : Type 0} → (A → S → Type 0) → Result S A → Type 0
Returns P (ok a s) = P a s
Returns P _ = ⊥

abbrev pub lifted : {S T A : Type 0} → (T → S) → Result T A → Result S A
lifted put (ok a t) = ok a (put t)
lifted put (asleep t) = asleep (put t)
lifted put (fault e t) = fault e (put t)

-- A command on a part of the state, such as a lock that the object holds.
abbrev pub lift : {S T A : Type 0} → (S → T) → (T → S → S) → Cmd T A → Cmd S A
lift get put m s = lifted (λ t. put t s) (m (get s))

-- `ASSERT(test)`
abbrev pub assert : {S : Type 0} → Bool → Cmd S (Unit {0})
assert true s = ok tt s
assert false s = fault assertion s

pub Returns-mono :
    {S A : Type 0} (P Q : A → S → Type 0) (r : Result S A)
    → ((a : A) (s : S) → P a s → Q a s)
    → Returns P r
    → Returns Q r
Returns-mono P Q (ok a s) weaken h = weaken a s h
Returns-mono P Q (asleep s) weaken h = h
Returns-mono P Q (fault e s) weaken h = h

pub Returns-bind :
    {S A B : Type 0} (P : A → S → Type 0) (Q : B → S → Type 0) (r : Result S A) (k : A → Cmd S B)
    → Returns P r
    → ((a : A) (s : S) → P a s → Returns Q (k a s))
    → Returns Q (and_then r k)
Returns-bind P Q (ok a s) k h next = next a s h
Returns-bind P Q (asleep s) k h next = absurd h
Returns-bind P Q (fault e s) k h next = absurd h

-- The calling thread goes to sleep, and the state that it leaves satisfies `P`.
abbrev pub Sleeps : {S A : Type 0} → (S → Type 0) → Result S A → Type 0
Sleeps P (asleep s) = P s
Sleeps P _ = ⊥

pub Returns-lifted :
    {S T A : Type 0} (P : A → T → Type 0) (put : T → S) (r : Result T A)
    → Returns P r
    → Returns (λ a s. (t : T) × P a t × (s ≡ put t)) (lifted put r)
Returns-lifted P put (ok a t) h = (t, h, refl)
Returns-lifted P put (asleep t) h = h
Returns-lifted P put (fault e t) h = h

pub Sleeps-bind :
    {S A B : Type 0} (P : A → S → Type 0) (Q : S → Type 0) (r : Result S A) (k : A → Cmd S B)
    → Returns P r
    → ((a : A) (s : S) → P a s → Sleeps Q (k a s))
    → Sleeps Q (and_then r k)
Sleeps-bind P Q (ok a s) k h next = next a s h
Sleeps-bind P Q (asleep s) k h next = absurd h
Sleeps-bind P Q (fault e s) k h next = absurd h

-- Unless the program stops, the state left satisfies `P`.
abbrev pub Settled : {S A : Type 0} → (S → Type 0) → Result S A → Type 0
Settled P (ok a s) = P s
Settled P (asleep s) = P s
Settled P (fault e s) = Unit {0}

-- The call returns in a state that satisfies `P`, or sleeps in one that satisfies `Q`.
abbrev pub Outcome : {S A : Type 0} → (P Q : S → Type 0) → Result S A → Type 0
Outcome P Q (ok a s) = P s
Outcome P Q (asleep s) = Q s
Outcome P Q (fault e s) = ⊥
