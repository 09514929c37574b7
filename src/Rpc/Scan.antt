-- ===== src/Rpc/Scan.antt =====
-- The scanner of rpc.c. A cursor is the text from it on, and `none` is a return of -1. What a
-- failed call leaves in an output buffer is not modelled: no caller reads it.
pub mod Shorter
use anything_tool.Base.{
  ℕ, ◌+◌, ◌-◌, Bool, ◌||◌, Option, none, some, ◌>>=◌, List, [], ◌∷◌, ◌++◌, ltb, leb, ◌==◌,
  if◌then◌else◌, length, take, Next, again, stop,
}
use anything_tool.Text.{Bytes, is_space}

unfoldable pub skip_ws : Bytes → Bytes
skip_ws [] = []
skip_ws (c ∷ cs) = if is_space c then skip_ws cs else c ∷ cs

-- One byte more, while the byte and the final NUL fit in the buffer of n bytes.
unfoldable pub append_decoded : ℕ → Bytes → ℕ → Option Bytes
append_decoded n out c = if leb n (length out + 1) then none else some (out ++ c ∷ [])

-- The byte that a backslash and `c` stand for.
unfoldable pub unescape : ℕ → Option ℕ
unescape c =
    if c == b'"' || c == b'\\'
    then some c
    else if c == b'n'
    then some b'\n'
    else if c == b'r'
    then some b'\r'
    else if c == b't'
    then some b'\t'
    else none

-- The loop's variables: what is decoded, and the cursor.
abbrev pub Decoding : Type 0
Decoding = Bytes × Bytes

abbrev pub Decoded : Type 0
Decoded = Option (Bytes × Bytes)

unfoldable pub push_decoded : ℕ → Bytes → ℕ → Bytes → Next Decoding Decoded
push_decoded n out c cs = elim (append_decoded n out c) [
  | none ↦ stop none
  | some out' ↦ again (out', cs)
]

-- Behind a backslash.
unfoldable pub decode_escape : ℕ → Bytes → Bytes → Next Decoding Decoded
decode_escape n out [] = stop none
decode_escape n out (d ∷ ds) = elim (unescape d) [
  | none ↦ stop none
  | some c ↦ push_decoded n out c ds
]

unfoldable pub decode_step : ℕ → Decoding → Next Decoding Decoded
decode_step n (out, []) = stop none
decode_step n (out, c ∷ cs) =
    if c == b'"'
    then stop (some (out, cs))
    else if ltb c 0x20
    then stop none
    else if c == b'\\'
    then decode_escape n out cs
    else push_decoded n out c cs

-- Behind a backslash in a string that is skipped.
unfoldable pub skip_escape : Bytes → Next Bytes (Option Bytes)
skip_escape [] = stop none
skip_escape (d ∷ ds) = elim (unescape d) [ none ↦ stop none | some _ ↦ again ds ]

unfoldable pub skip_string_step : Bytes → Next Bytes (Option Bytes)
skip_string_step [] = stop none
skip_string_step (c ∷ cs) =
    if c == b'"'
    then stop (some cs)
    else if ltb c 0x20
    then stop none
    else if c == b'\\'
    then skip_escape cs
    else again cs
