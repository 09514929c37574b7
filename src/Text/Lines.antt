-- ===== src/Text/Lines.antt =====
-- Lines of a file, and the searches in C text: fgets, strchr, strstr, and the loops that strip
-- what a text begins and ends with.
use mathlib.Core.Option
use anything_tool.Base.{
  ℕ, zero, suc, ◌-◌, ◌≤◌, Bool, ◌||◌, Option, none, some, [], ◌∷◌, arith, ◌==◌, if◌then◌else◌,
  length,
}
use anything_tool.Text.{Bytes, c_str, is_space, starts_with}

-- What one call of fgets takes from the file, n bytes at most: up to and with the first newline.
unfoldable pub line_of : ℕ → Bytes → Bytes
line_of zero s = []
line_of (suc n) [] = []
line_of (suc n) (c ∷ cs) = if c == b'\n' then c ∷ [] else c ∷ line_of n cs

-- And what it leaves.
unfoldable pub behind_line : ℕ → Bytes → Bytes
behind_line zero s = s
behind_line (suc n) [] = []
behind_line (suc n) (c ∷ cs) = if c == b'\n' then cs else behind_line n cs

-- `none` is a null pointer: the file is at its end.
unfoldable pub fgets : ℕ → Bytes → Option Bytes
unfolding line_of
fgets n [] = none
fgets n (c ∷ cs) = some (c_str (line_of (n - 1) (c ∷ cs)))

pub length-behind_line : (n : ℕ) (s : Bytes) → length (behind_line n s) ≤ length s
unfolding behind_line
length-behind_line zero s = omega arith
length-behind_line (suc n) [] = omega arith
length-behind_line (suc n) (c ∷ cs) = ground (arith, length-behind_line n cs)

-- Without the bytes at its end that pass the test.
strip_byte : (ℕ → Bool) → ℕ → Bytes → Bytes
strip_byte test c [] = if test c then [] else c ∷ []
strip_byte test c (d ∷ ds) = c ∷ d ∷ ds

unfoldable pub strip_end : (ℕ → Bool) → Bytes → Bytes
unfolding strip_byte
strip_end test [] = []
strip_end test (c ∷ cs) = strip_byte test c (strip_end test cs)

length-strip_byte :
    (test : ℕ → Bool) (c : ℕ) (s : Bytes) → length (strip_byte test c s) ≤ suc (length s)
unfolding strip_byte
length-strip_byte test c [] = ground arith
length-strip_byte test c (d ∷ ds) = omega arith

pub length-strip_end : (test : ℕ → Bool) (s : Bytes) → length (strip_end test s) ≤ length s
unfolding strip_end
length-strip_end test [] = omega arith
length-strip_end test (c ∷ cs) =
    omega (arith, length-strip_byte test c (strip_end test cs), length-strip_end test cs)

-- strchr: the text before the byte and the text behind it.
unfoldable pub split_at : ℕ → Bytes → Option (Bytes × Bytes)
split_at x [] = none
split_at x (c ∷ cs) =
    let rest = split_at x cs in
    if c == x then some ([], cs) else Option.map (λ (r : Bytes × Bytes). (c ∷ r.0, r.1)) rest

-- strrchr: the text before the last such byte.
unfoldable pub before_last : ℕ → Bytes → Option Bytes
before_last x [] = none
before_last x (c ∷ cs) = elim (before_last x cs) [
  | some before ↦ some (c ∷ before)
  | none ↦ if c == x then some [] else none
]

-- strstr(s, word) != NULL
unfoldable pub contains : Bytes → Bytes → Bool
contains word [] = starts_with word []
contains word (c ∷ cs) = starts_with word (c ∷ cs) || contains word cs

-- while (isspace(*p)) p++
unfoldable pub skip_spaces : Bytes → Bytes
skip_spaces [] = []
skip_spaces (c ∷ cs) = if is_space c then skip_spaces cs else c ∷ cs

pub length-skip_spaces : (s : Bytes) → length (skip_spaces s) ≤ length s
unfolding skip_spaces
length-skip_spaces [] = omega arith
length-skip_spaces (c ∷ cs) = ground (arith, length-skip_spaces cs)
