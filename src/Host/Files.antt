-- ===== src/Host/Files.antt =====
-- Reading and writing whole buffers, and deleting files (machine/sysdep.cc).
use os_lab_nachos.Base.{
  ℕ, ◌≡◌, refl, inl, inr, true, false, Bool-cases, List, [], ◌∷◌, ◌++◌, arith, length, ◌==◌, ==_iff,
}
use os_lab_nachos.Base.Exec.{Result, ok, asleep, fault, Fault, and_then, assert}
use os_lab_nachos.Base.Int.{ℤ, pos, negsuc}
use os_lab_nachos.Base.Text.{Str}
use os_lab_nachos.Host.{
  Call, System, read, recvfrom, unlink, is_count, read_file, read_from_socket, unlink_file,
}

-- A call that stores bytes returns their number, or a number below 0.
abbrev pub Counts : ℤ → Str → Type 0
Counts (pos n) stored = length stored ≡ n
Counts (negsuc n) stored = Unit {0}

abbrev pub Whole : ℕ → Result (List Call) Str → Type 0
Whole n (ok stored s) = length stored ≡ n
Whole n (asleep s) = ⊥
Whole n (fault Fault.assertion s) = Unit {0}
Whole n (fault e s) = ⊥

module _ (sys : System) where
  open sys use {number, bytes}

  checked :
      (s s' : List Call) (n : ℕ) (ret : ℤ) (stored : Str)
      → Counts ret stored
      → Whole n (and_then (assert (is_count ret n) s') (λ _. ok stored))
  checked s s' n (negsuc a) stored h = tt
  checked s s' n (pos a) stored h = elim (Bool-cases (a == n)) [
    | inl t ↦ rw t (let e : a ≡ n = (==_iff a n).0 t in omega (arith, h, e))
    | inr f ↦ rw f tt
  ]

  -- Where `read` and `recvfrom` count the bytes that they store, `Read` and `ReadFromSocket` store the whole
  -- number that is asked for, or stop at their assertion; an end of file or a shorter packet does that.
  pub read_file-Whole :
      ((s : List Call) (c : Call) → Counts (number s c) (bytes s c))
      → (fd n : ℕ) (s : List Call)
      → Whole n (read_file sys fd n s) × Whole n (read_from_socket sys fd n s)
  unfolding read_file read_from_socket
  read_file-Whole counts fd n s = (
    checked s _ n (number s (read fd n)) (bytes s (read fd n)) (counts s (read fd n)),
    checked s _ n (number s (recvfrom fd n)) (bytes s (recvfrom fd n)) (counts s (recvfrom fd n)),
  )

  -- `unlink` returns 0 when it deletes the file and -1 when it does not: `Unlink` is true when it does not.
  pub unlink_file_lem :
      (name : Str) (s : List Call)
      → (number s (unlink name) ≡ pos 0 → unlink_file sys name s ≡ ok false (s ++ unlink name ∷ []))
        × (number s (unlink name) ≡ negsuc 0
            → unlink_file sys name s ≡ ok true (s ++ unlink name ∷ []))
  unfolding unlink_file
  unlink_file_lem name s = (λ h. rw h refl, λ h. rw h refl)
