-- ===== src/Buffer/Window.antt =====
-- The bytes that lie in the buffer, in order, and the two copying loops.
use native.Mathlib.Nat.{mod-add-mod, mod-eq_of_lt, mod-eq-sub-mod, mod-lt}
use Prim.Native.Nat.add
use mathlib.Core.Path.{ap₂}
use native.Mathlib.Nat.{add-zero}
use os_lab_nachos.Base.{
  ℕ, zero, suc, ◌+◌, ◌-◌, ◌%◌, ◌≤◌, ◌<◌, ◌≡◌, refl, sym, ap, ◌∙◌, ◌≢◌, List, [], ◌∷◌, ◌++◌, arith,
  dec_lt, get_or, set, length, length-set, get_or-set_self, get_or-set_ne, append_assoc, append-nil,
}
use os_lab_nachos.Buffer.{fill, gather}

-- Fewer than `max` places apart are different places.
place-ne : (max a d : ℕ) → 0 < d → d < max → (a + d) % max ≢ a % max
place-ne max a d pos small e = elim (dec_lt (r + d) max) [
  | yes p ↦ omega (arith, near, mod-eq_of_lt p)
  | no p ↦ omega (
    arith,
    near,
    mod-eq-sub-mod {n = r + d} {m = max} (omega arith),
    mod-eq_of_lt {n = r + d - max} {m = max} (omega arith),
  )
]
  where
    r : ℕ
    r = a % max

    near : (r + d) % max ≡ r
    near = rw mod-add-mod e

module _ (back max : ℕ) where
  pub length-gather : (buf : List ℕ) (i n : ℕ) → length (gather back max buf i n) ≡ n
  unfolding gather
  length-gather buf i zero = refl
  length-gather buf i (suc n) = ap suc (length-gather buf (i + 1) n)

  pub gather-append :
      (buf : List ℕ) (i n m : ℕ)
      → gather back max buf i (n + m) ≡ gather back max buf i n ++ gather back max buf (i + n) m
  unfolding gather
  gather-append buf i zero m = rw (add.zero, add-zero)
  gather-append buf i (suc n) m = rw add.suc (
      ap (λ l. get_or buf ((back + i) % max) 0 ∷ l)
        (gather-append buf (i + 1) n m
          ∙ ap (λ k. gather back max buf (i + 1) n ++ gather back max buf k m) (omega arith)))

  -- Starting `k` places further round the buffer is starting at round `k`.
  pub gather-shift :
      (buf : List ℕ) (k i n : ℕ)
      → gather ((back + k) % max) max buf i n ≡ gather back max buf (k + i) n
  unfolding gather
  gather-shift buf k i zero = refl
  gather-shift buf k i (suc n) =
      ap₂ ◌∷◌ (rw mod-add-mod (ap (λ j. get_or buf (j % max) 0) (omega arith)))
        (gather-shift buf k (i + 1) n ∙ ap (λ j. gather back max buf j n) (omega arith))

  -- A write outside the gathered places is not seen.
  gather-set :
      (buf : List ℕ) (m x i n : ℕ)
      → i + n ≤ m
      → m < i + max
      → gather back max (set buf ((back + m) % max) x) i n ≡ gather back max buf i n
  unfolding gather
  gather-set buf m x i zero below near = refl
  gather-set buf m x i (suc n) below near =
      ap₂ ◌∷◌ (get_or-set_ne buf x 0 apart)
        (gather-set buf m x (i + 1) n (omega arith) (omega arith))
    where
      apart : (back + m) % max ≢ (back + i) % max
      apart e =
          place-ne max (back + i) (m - i) (omega arith) (omega arith)
            (ap (λ k. k % max) (omega arith) ∙ e)

pub length-fill :
    (front max : ℕ) (bytes buf : List ℕ) (i : ℕ) → length (fill front max buf i bytes) ≡ length buf
unfolding fill
length-fill front max [] buf i = refl
length-fill front max (x ∷ xs) buf i =
    length-fill front max xs (set buf ((front + i) % max) x) (i + 1) ∙ length-set buf _ x

-- One more byte behind `m` others that are kept.
gather-snoc :
    (back max m x : ℕ) (buf : List ℕ)
    → length buf ≡ max
    → m < max
    → gather back max (set buf ((back + m) % max) x) 0 (m + 1) ≡ gather back max buf 0 m ++ x ∷ []
unfolding gather
gather-snoc back max m x buf e room =
    gather-append back max _ 0 m 1
    ∙ ap₂ ◌++◌ (gather-set back max buf m x 0 m (omega arith) (omega arith)) (
        ap (λ b. b ∷ [])
          (ap (λ k. get_or new (k % max) 0) (omega arith)
            ∙ get_or-set_self buf _ x 0 (omega (arith, mod-lt (back + m) {m = max} (omega arith)))))
  where
    new : List ℕ
    new = set buf ((back + m) % max) x

-- Filling from the place behind the `used` bytes adds the new bytes behind them, if they fit.
pub gather-fill :
    (back max used : ℕ) (bytes buf : List ℕ) (i : ℕ)
    → length buf ≡ max
    → used + i + length bytes ≤ max
    → gather back max (fill ((back + used) % max) max buf i bytes) 0 (used + i + length bytes)
      ≡ gather back max buf 0 (used + i) ++ bytes
unfolding fill
gather-fill back max used [] buf i e fits =
    ap (gather back max buf 0) (omega arith) ∙ sym (append-nil _)
gather-fill back max used (x ∷ xs) buf i e fits =
    ap (gather back max _ 0) (omega arith)
    ∙ gather-fill back max used xs new (i + 1) (length-set buf _ x ∙ e) (omega arith)
    ∙ ap (λ l. l ++ xs)
        (ap₂ (λ b n. gather back max b 0 n) (ap (λ k. set buf k x) place) (omega arith)
          ∙ gather-snoc back max (used + i) x buf e (omega arith))
    ∙ append_assoc _ (x ∷ []) xs
  where
    new : List ℕ
    new = set buf (((back + used) % max + i) % max) x

    place : ((back + used) % max + i) % max ≡ (back + (used + i)) % max
    place = rw mod-add-mod (ap (λ k. k % max) (omega arith))
