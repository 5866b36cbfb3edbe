-- ===== src/Elevator/Trip/Count.antt =====
-- How many riders (the function `rider` of threads/Elevator.cc) an elevator holds.
use os_lab_nachos.Base.{
  ℕ, zero, suc, ◌≡◌, ◌≢◌, ◌+◌, ◌≤◌, ◌<◌, refl, inl, inr, Bool, true, false, Bool-cases, arith, ◌==◌,
  if◌then◌else◌, dec_lt,
}
use os_lab_nachos.Elevator.Trip.{Stage, requesting, exiting, start}

abbrev pub update : {A : Type 0} → (ℕ → A) → ℕ → A → ℕ → A
update f i a j = if j == i then a else f j

-- the rider has been let in by this elevator and has not been counted off; one that `exit` has counted off is
-- `done`, though it may sleep on in `Complete`
abbrev pub inside : ℕ → Stage → Bool
inside e (requesting f) = f == e
inside e (exiting f) = f == e
inside e _ = false

abbrev pub one_if : Bool → ℕ
one_if b = if b then 1 else 0

-- how many of the first `n` riders this elevator holds
abbrev pub on_board : ℕ → (ℕ → Stage) → ℕ → ℕ
on_board e stage zero = 0
on_board e stage (suc n) = on_board e stage n + one_if (inside e (stage n))

pub update_self : {A : Type 0} (f : ℕ → A) (i : ℕ) (a : A) → update f i a i ≡ a
update_self f i a = let e : (i == i) ≡ true = ground arith in rw e refl

pub update_ne : {A : Type 0} (f : ℕ → A) (i j : ℕ) (a : A) → j ≢ i → update f i a j ≡ f j
update_ne f i j a h = let e : (j == i) ≡ false = ground arith in rw e refl

on_board-beyond :
    (e : ℕ) (stage : ℕ → Stage) (i : ℕ) (q : Stage) (n : ℕ)
    → n ≤ i
    → on_board e (update stage i q) n ≡ on_board e stage n
on_board-beyond e stage i q zero h = refl
on_board-beyond e stage i q (suc n) h =
    rw (update_ne stage i n q (ne n i h), on_board-beyond e stage i q n (omega arith)) refl
  where
    ne : (n i : ℕ) → suc n ≤ i → n ≢ i
    ne n i h e = omega (arith, e)

pub on_board-update :
    (e : ℕ) (stage : ℕ → Stage) (i : ℕ) (q : Stage) (n : ℕ)
    → i < n
    → on_board e (update stage i q) n + one_if (inside e (stage i))
      ≡ on_board e stage n + one_if (inside e q)
on_board-update e stage i q zero h = absurd (omega arith)
on_board-update e stage i q (suc n) h = elim (dec_lt i n) [
  | yes lt ↦
      rw (update_ne stage i n q (λ e. omega (arith, lt, e)))
        (omega (arith, on_board-update e stage i q n lt))
  | no ge ↦
      let last : n ≡ i = omega arith in
      rw (last, update_self stage i q, on_board-beyond e stage i q i (omega arith)) (omega arith)
]

pub self_test : (f : ℕ) → (f == f) ≡ true
self_test f = ground arith

pub other_test : (e f : ℕ) → e ≢ f → (f == e) ≡ false
other_test e f h = ground arith

pub starts_outside : (e a b : ℕ) → inside e (start a b) ≡ false
unfolding start
starts_outside e a b = elim (Bool-cases (a == b)) [ inl t ↦ rw t refl | inr f ↦ rw f refl ]
