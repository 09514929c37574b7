-- ===== src/Text/Numbers.antt =====
-- strtol, strtoull and atoi in base 10, on a machine with a long of 64 bits and an int of 32.
use anything_tool.Base.{
  ℕ, zero, suc, ◌+◌, ◌-◌, ◌*◌, ◌%◌, ◌^◌, ◌≤◌, ◌<◌, Bool, true, false, ◌&&◌, Option, none, some, [],
  ◌∷◌, arith, ltb, leb, ◌==◌, if◌then◌else◌, if-Holds, length, ℤ, pos, negsuc,
}
use anything_tool.Text.{Bytes}
use anything_tool.Text.Lines.{skip_spaces, length-skip_spaces}

abbrev pub is_digit : ℕ → Bool
is_digit c = leb b'0' c && leb c b'9'

-- The digits from here on, onto a value, and the text behind them.
unfoldable pub read_digits : ℕ → Bytes → ℕ × Bytes
read_digits v [] = (v, [])
read_digits v (c ∷ cs) =
    let rest = read_digits (v * 10 + (c - b'0')) cs in if is_digit c then rest else (v, c ∷ cs)

-- A number without its sign, or `none` where there is no digit.
unfoldable pub read_magnitude : Bytes → Option (ℕ × Bytes)
unfolding read_digits
read_magnitude [] = none
read_magnitude (c ∷ cs) = if is_digit c then some (read_digits 0 (c ∷ cs)) else none

pub record Scanned : Type 0 where
  pub negative : Bool
  pub magnitude : ℕ
  pub rest : Bytes

unfoldable pub with_sign : Bool → Option (ℕ × Bytes) → Option Scanned
with_sign negative none = none
with_sign negative (some r) = some (record { negative = negative; magnitude = r.0; rest = r.1 })

unfoldable pub scan_signed : Bytes → Option Scanned
unfolding with_sign read_magnitude
scan_signed [] = none
scan_signed (c ∷ cs) =
    if c == b'-'
    then with_sign true (read_magnitude cs)
    else if c == b'+'
    then with_sign false (read_magnitude cs)
    else with_sign false (read_magnitude (c ∷ cs))

unfoldable pub scan_number : Bytes → Option Scanned
unfolding scan_signed skip_spaces
scan_number s = scan_signed (skip_spaces s)

-- A long, which stops at its bounds.
unfoldable pub clamp_long : Bool → ℕ → ℤ
clamp_long false m = if leb (2 ^ 63) m then pos (2 ^ 63 - 1) else pos m
clamp_long true zero = pos 0
clamp_long true (suc m) = if leb (2 ^ 63) m then negsuc (2 ^ 63 - 1) else negsuc m

-- The low 32 bits of a long, as an int.
unfoldable pub int_of_bits : ℕ → ℤ
int_of_bits b = if ltb b (2 ^ 31) then pos b else negsuc (2 ^ 32 - 1 - b)

unfoldable pub int_of_long : ℤ → ℤ
unfolding int_of_bits
int_of_long (pos n) = int_of_bits (n % 2 ^ 32)
int_of_long (negsuc n) = int_of_bits (2 ^ 32 - 1 - n % 2 ^ 32)

unfoldable pub atoi : Bytes → ℤ
unfolding scan_number clamp_long int_of_long
atoi s = elim (scan_number s) [
  | none ↦ pos 0
  | some n ↦ int_of_long (clamp_long n.negative n.magnitude)
]

-- A magnitude of 64 bits or more is ULONG_MAX, and a minus sign negates modulo 2 ^ 64.
unfoldable pub strtoull : Bytes → ℕ
unfolding scan_number
strtoull s = elim (scan_number s) [
  | none ↦ 0
  | some n ↦
      if leb (2 ^ 64) n.magnitude
      then 2 ^ 64 - 1
      else if n.negative
      then (2 ^ 64 - n.magnitude) % 2 ^ 64
      else n.magnitude
]

-- What is read is not read again.
length-read_digits : (v : ℕ) (s : Bytes) → length (read_digits v s).1 ≤ length s
unfolding read_digits
length-read_digits v [] = omega arith
length-read_digits v (c ∷ cs) = ground (arith, length-read_digits (v * 10 + (c - b'0')) cs)

abbrev pub Shorter : ℕ → Option Scanned → Type 0
Shorter m none = Unit
Shorter m (some n) = length n.rest < m

read_magnitude-Shorter :
    (negative : Bool) (s : Bytes) (m : ℕ)
    → length s ≤ m
    → Shorter m (with_sign negative (read_magnitude s))
unfolding with_sign read_magnitude read_digits
read_magnitude-Shorter negative [] m h = tt
read_magnitude-Shorter negative (c ∷ cs) m h =
    ground (arith, length-read_digits (0 * 10 + (c - b'0')) cs)

scan_signed-Shorter : (s : Bytes) (m : ℕ) → length s ≤ m → Shorter m (scan_signed s)
unfolding scan_signed
scan_signed-Shorter [] m h = tt
scan_signed-Shorter (c ∷ cs) m h =
    if-Holds (Shorter m) (c == b'-') (λ _. read_magnitude-Shorter true cs m (omega arith))
      (λ _.
        if-Holds (Shorter m) (c == b'+') (λ _. read_magnitude-Shorter false cs m (omega arith))
          (λ _. read_magnitude-Shorter false (c ∷ cs) m h))

pub scan_number-Shorter : (s : Bytes) → Shorter (length s) (scan_number s)
unfolding scan_number
scan_number-Shorter s = scan_signed-Shorter (skip_spaces s) (length s) (length-skip_spaces s)
