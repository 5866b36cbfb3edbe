-- ===== src/Base/Text.antt =====
-- C strings as the codes of their bytes without the NUL, `atoi`, and the decimal numbers of `sprintf`.
use Prim.Native.Nat.{ℕ, zero, suc, ◌+◌, ◌-◌, ◌*◌, ◌/◌, ◌%◌, ◌<◌, ◌≤◌}
use Prim.Native.Char.{code}
use Prim.Native.String.{String}
use mathlib.Core.Path.{◌≡◌, refl, ◌∙◌, ap, sym}
use mathlib.Core.Logic.{inl, inr}
use mathlib.Core.Bool.{Bool, ◌&&◌, ◌||◌}
use mathlib.Core.List.{List, [], ◌∷◌}
use native.Mathlib.Omega.{arith}
use os_lab_nachos.Base.Lists.{length}
use os_lab_nachos.Base.Tests.{ltb, leb, ◌==◌, if◌then◌else◌, Bool-cases}
use os_lab_nachos.Base.Int.{ℤ, pos, negsuc}

abbrev pub Str : Type 0
Str = List ℕ

-- The bytes of a literal; `String` has its own `[]` and `∷`.
abbrev pub codes : String → Str
codes String.[] = []
codes (String.◌∷◌ c s) = code c ∷ codes s

-- The digits of a number in front of `out`, on fuel.
unfoldable pub digits : ℕ → ℕ → Str → Str
digits zero n out = out
digits (suc fuel) n out =
    let rest = digits fuel (n / 10) ((b'0' + n % 10) ∷ out) in
    if ltb n 10 then (b'0' + n) ∷ out else rest

-- `%d` of a number that is not negative; it has fewer digits than the fuel.
unfoldable pub decimal : ℕ → Str
unfolding digits
decimal n = digits (suc n) n []

abbrev is_digit : ℕ → Bool
is_digit c = leb b'0' c && leb c b'9'

abbrev is_space : ℕ → Bool
is_space c = c == 32 || (leb 9 c && leb c 13)

-- the number that the digits in front of a string stand for, behind those read before
unfoldable pub read_digits : Str → ℕ → ℕ
read_digits [] n = n
read_digits (c ∷ s) n = if is_digit c then read_digits s (n * 10 + (c - b'0')) else n

abbrev pub negate : ℕ → ℤ
negate zero = pos 0
negate (suc n) = negsuc n

unfoldable pub signed : Str → ℤ
unfolding read_digits
signed [] = pos 0
signed (c ∷ s) =
    if c == b'-'
    then negate (read_digits s 0)
    else if c == b'+'
    then pos (read_digits s 0)
    else pos (read_digits (c ∷ s) 0)

-- `atoi`, on numbers of any size
unfoldable pub atoi : Str → ℤ
unfolding signed
atoi [] = pos 0
atoi (c ∷ s) = if is_space c then atoi s else signed (c ∷ s)

reads : atoi (b' ' ∷ b'-' ∷ b'1' ∷ b'2' ∷ b'x' ∷ []) ≡ negsuc 11
unfolding atoi
reads = refl

prints : decimal 120 ≡ b'1' ∷ b'2' ∷ b'0' ∷ []
unfolding decimal
prints = refl

-- the last digit, read behind the others
read_last : (n : ℕ) (out : Str) → read_digits ((b'0' + n % 10) ∷ out) (n / 10) ≡ read_digits out n
unfolding read_digits
read_last n out = ground arith

read_only : (n : ℕ) (out : Str) → n < 10 → read_digits ((b'0' + n) ∷ out) 0 ≡ read_digits out n
unfolding read_digits
read_only n out h = ground arith

read_digits-digits :
    (fuel n : ℕ) (out : Str) → n < fuel → read_digits (digits fuel n out) 0 ≡ read_digits out n
unfolding digits
read_digits-digits zero n out h = absurd (omega arith)
read_digits-digits (suc fuel) n out h = elim (Bool-cases (ltb n 10)) [
  | inl t ↦ rw t (read_only n out (ground arith))
  | inr f ↦
      rw f
        (read_digits-digits fuel (n / 10) ((b'0' + n % 10) ∷ out) (ground arith) ∙ read_last n out)
]

-- the print begins with a digit
abbrev pub BeginsWithDigit : Str → Type 0
BeginsWithDigit s = (c : ℕ) × (r : Str) × (s ≡ c ∷ r) × (b'0' ≤ c) × (c ≤ b'9')

digits-BeginsWithDigit : (fuel n : ℕ) (out : Str) → n < fuel → BeginsWithDigit (digits fuel n out)
unfolding digits
digits-BeginsWithDigit zero n out h = absurd (omega arith)
digits-BeginsWithDigit (suc fuel) n out h = elim (Bool-cases (ltb n 10)) [
  | inl t ↦ rw t (b'0' + n, out, refl, omega arith, ground arith)
  | inr f ↦ rw f (digits-BeginsWithDigit fuel (n / 10) ((b'0' + n % 10) ∷ out) (ground arith))
]

atoi_digit : (c : ℕ) (r : Str) → b'0' ≤ c → c ≤ b'9' → atoi (c ∷ r) ≡ pos (read_digits (c ∷ r) 0)
unfolding atoi read_digits
atoi_digit c r h g = ground arith

pub decimal-BeginsWithDigit : (n : ℕ) → BeginsWithDigit (decimal n)
unfolding decimal
decimal-BeginsWithDigit n = digits-BeginsWithDigit (suc n) n [] (omega arith)

-- `atoi` reads back what `%d` prints.
pub atoi-decimal : (n : ℕ) → atoi (decimal n) ≡ pos n
unfolding decimal
atoi-decimal n =
    let (c, r, e, h, g) = decimal-BeginsWithDigit n in
    ap atoi e
    ∙ atoi_digit c r h g
    ∙ ap (λ s. pos (read_digits s 0)) (sym e)
    ∙ ap pos (read_digits-digits (suc n) n [] (omega arith) ∙ ended n)
  where
    ended : (n : ℕ) → read_digits [] n ≡ n
    ended n = unfold read_digits in refl

digits_small : (fuel m : ℕ) (out : Str) → 0 < fuel → m < 10 → digits fuel m out ≡ (b'0' + m) ∷ out
unfolding digits
digits_small zero m out h g = absurd (omega arith)
digits_small (suc fuel) m out h g = ground arith

-- A number below 100 has at most two digits.
pub length-decimal : (n : ℕ) → n < 100 → length (decimal n) ≤ 2
unfolding decimal digits
length-decimal n h = elim (Bool-cases (ltb n 10)) [
  | inl t ↦ rw t (omega arith)
  | inr f ↦
      rw (f, digits_small n (n / 10) ((b'0' + n % 10) ∷ []) (ground arith) (omega arith))
        (omega arith)
]
