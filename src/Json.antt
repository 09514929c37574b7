-- ===== src/Json.antt =====
-- src/common/json.c: escaping of C text into a JSON string literal of a bounded buffer.
pub mod Escape
pub mod Visible
use anything_tool.Base.{
  ℕ, ◌+◌, ◌-◌, ◌/◌, ◌%◌, Bool, Option, none, some, ◌>>=◌, List, [], ◌∷◌, ◌++◌, ltb, leb, ◌==◌,
  if◌then◌else◌, length,
}
use anything_tool.Text.{Bytes, codes}

-- One byte more, while the byte and the final NUL fit in the buffer of n bytes.
append_char : ℕ → Bytes → ℕ → Option Bytes
append_char n out c = if leb n (length out + 1) then none else some (out ++ c ∷ [])

append_text : ℕ → Bytes → Bytes → Option Bytes
append_text n out [] = some out
append_text n out (c ∷ text) = do out' ← append_char n out c; append_text n out' text

-- %x of a number below 16
abbrev pub hex_digit : ℕ → ℕ
hex_digit d = if ltb d 10 then 48 + d else 87 + d

-- \u%04x of a byte
abbrev pub unicode_escape : ℕ → Bytes
unicode_escape c = b'\\' ∷ b'u' ∷ b'0' ∷ b'0' ∷ hex_digit (c / 16) ∷ hex_digit (c % 16) ∷ []

-- snprintf at the end of what is written, refused where the text would be cut.
append_unicode : ℕ → Bytes → ℕ → Option Bytes
append_unicode n out c = if leb (n - length out) 6 then none else some (out ++ unicode_escape c)

-- The `switch` on one byte of the input.
append_escaped : ℕ → Bytes → ℕ → Option Bytes
unfolding append_char append_text append_unicode
append_escaped n out c =
    if c == b'"'
    then append_text n out (b'\\' ∷ b'"' ∷ [])
    else if c == b'\\'
    then append_text n out (b'\\' ∷ b'\\' ∷ [])
    else if c == b'\n'
    then append_text n out (b'\\' ∷ b'n' ∷ [])
    else if c == b'\r'
    then append_text n out (b'\\' ∷ b'r' ∷ [])
    else if c == b'\t'
    then append_text n out (b'\\' ∷ b't' ∷ [])
    else if ltb c 0x20
    then append_unicode n out c
    else append_char n out c

escape_onto : ℕ → Bytes → Bytes → Option Bytes
escape_onto n out [] = some out
escape_onto n out (c ∷ cs) = do out' ← append_escaped n out c; escape_onto n out' cs

-- The buffer after a return of 0, or `none` for -1. `none` as input is the null pointer.
unfoldable pub escape_string : Option Bytes → ℕ → Option Bytes
unfolding append_escaped escape_onto
escape_string input n =
    if n == 0 then none else elim input [ none ↦ some [] | some s ↦ escape_onto n [] s ]

-- "name":"value", or `none` where a buffer is too small.
unfoldable pub write_string_field : ℕ → Bytes → Bytes → Option Bytes
write_string_field n name value = do
  escaped_name ← escape_string (some name) 128
  escaped_value ← escape_string (some value) 2048
  let text = b'"' ∷ (escaped_name ++ (codes "\":\"" ++ (escaped_value ++ b'"' ∷ [])))
  if leb n (length text) then none else some text
