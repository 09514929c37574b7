-- ===== src/Json/Escape.antt =====
-- What anything_json_escape_string writes, against the escaping of each byte by itself.
use anything_tool.Base.{
  ℕ, suc, ◌+◌, ◌-◌, ◌*◌, ◌≤◌, ◌<◌, ◌≡◌, ◌∙◌, inl, inr, Bool, true, false, Option, none, some, [],
  ◌∷◌, ◌++◌, arith, append_assoc, append-nil, ltb, leb, ◌==◌, if◌then◌else◌, Bool-cases, if-both,
  length, length-append, All, All-append, zero, lt→ltb, ◌||◌, ◌&&◌,
}
use native.Mathlib.Nat.{add_assoc}
use anything_tool.Text.{Bytes}
use anything_tool.Json.{
  append_char, append_text, append_unicode, append_escaped, escape_onto, escape_string,
  unicode_escape,
}

-- The text that stands for one byte in a JSON string.
unfoldable pub escaped_byte : ℕ → Bytes
escaped_byte c =
    if c == b'"'
    then b'\\' ∷ b'"' ∷ []
    else if c == b'\\'
    then b'\\' ∷ b'\\' ∷ []
    else if c == b'\n'
    then b'\\' ∷ b'n' ∷ []
    else if c == b'\r'
    then b'\\' ∷ b'r' ∷ []
    else if c == b'\t'
    then b'\\' ∷ b't' ∷ []
    else if ltb c 0x20
    then unicode_escape c
    else c ∷ []

-- The text that stands for a string, with no buffer.
unfoldable pub escaped : Bytes → Bytes
escaped [] = []
escaped (c ∷ cs) = escaped_byte c ++ escaped cs

-- The text fits in a buffer of n bytes behind what is written.
abbrev fits : ℕ → Bytes → Bytes → Option Bytes
fits n out text = if ltb (length out + length text) n then some (out ++ text) else none

append_text-fits :
    (n : ℕ) (text out : Bytes) → length out < n → append_text n out text ≡ fits n out text
unfolding append_text append_char
append_text-fits n [] out h = ground (arith, append-nil out)
append_text-fits n (c ∷ text) out h = elim (Bool-cases (leb n (length out + 1))) [
  | inl full ↦ ground arith
  | inr room ↦ rw room (
      append_text-fits n text (out ++ c ∷ []) (ground (arith, length-append out (c ∷ [])))
      ∙ ground (arith, length-append out (c ∷ []), append_assoc out (c ∷ []) text))
]

append_char-fits :
    (n : ℕ) (out : Bytes) (c : ℕ) → length out < n → append_char n out c ≡ fits n out (c ∷ [])
unfolding append_char
append_char-fits n out c h = ground arith

append_unicode-fits :
    (n : ℕ) (out : Bytes) (c : ℕ)
    → length out < n
    → append_unicode n out c ≡ fits n out (unicode_escape c)
unfolding append_unicode
append_unicode-fits n out c h = elim (Bool-cases (leb (n - length out) 6)) [
  | inl full ↦ rw full (rw (more full))
  | inr room ↦ rw room (rw (less room))
]
  where
    more : leb (n - length out) 6 ≡ true → ltb (length out + 6) n ≡ false
    more f = ground arith

    less : leb (n - length out) 6 ≡ false → ltb (length out + 6) n ≡ true
    less f = ground arith

append_escaped-fits :
    (n : ℕ) (out : Bytes) (c : ℕ)
    → length out < n
    → append_escaped n out c ≡ fits n out (escaped_byte c)
unfolding append_escaped escaped_byte
append_escaped-fits n out c h =
    if-both R (c == b'"') (append_text-fits n (b'\\' ∷ b'"' ∷ []) out h) (
      if-both R (c == b'\\') (append_text-fits n (b'\\' ∷ b'\\' ∷ []) out h) (
        if-both R (c == b'\n') (append_text-fits n (b'\\' ∷ b'n' ∷ []) out h) (
          if-both R (c == b'\r') (append_text-fits n (b'\\' ∷ b'r' ∷ []) out h) (
            if-both R (c == b'\t') (append_text-fits n (b'\\' ∷ b't' ∷ []) out h) (
              if-both R (ltb c 0x20) (append_unicode-fits n out c h)
                (append_char-fits n out c h))))))
  where
    R : Option Bytes → Bytes → Type 0
    R written text = written ≡ fits n out text

escape_onto-fits :
    (n : ℕ) (s out : Bytes) → length out < n → escape_onto n out s ≡ fits n out (escaped s)
unfolding escape_onto escaped
escape_onto-fits n [] out h = ground (arith, append-nil out)
escape_onto-fits n (c ∷ s) out h =
    rw (append_escaped-fits n out c h)
      (elim (Bool-cases (ltb (length out + length (escaped_byte c)) n)) [
        | inl room ↦ rw room (
            escape_onto-fits n s (out ++ escaped_byte c)
              (ground (arith, length-append out (escaped_byte c)))
            ∙ rw (length-append out (escaped_byte c), append_assoc, length-append) (rw add_assoc))
        | inr full ↦ ground (arith, length-append (escaped_byte c) (escaped s))
      ])

-- anything_json_escape_string returns 0 exactly when the escaped text and its NUL fit in the
-- buffer, and the buffer then holds the escaped text.
pub escape_string-escaped :
    (n : ℕ) (s : Bytes)
    → escape_string (some s) n ≡ (if ltb (length (escaped s)) n then some (escaped s) else none)
unfolding escape_string
escape_string-escaped zero s = ground arith
escape_string-escaped (suc n) s = ground (arith, escape_onto-fits (suc n) s [] (omega arith))

-- A byte that may stand in a JSON string literal as it is: no control byte.
abbrev pub IsVisible : ℕ → Type 0
IsVisible c = 0x20 ≤ c

-- A byte whose escape the request parser reads back.
abbrev pub is_plain : ℕ → Bool
is_plain c = leb 0x20 c || c == b'\n' || c == b'\r' || c == b'\t'

abbrev pub IsPlain : Bytes → Type 0
IsPlain = All (λ c. is_plain c ≡ true)

escaped_byte-IsVisible : (c : ℕ) → All IsVisible (escaped_byte c)
unfolding escaped_byte
escaped_byte-IsVisible c = ground arith

-- The escaped text holds no control byte, so it never breaks a line.
pub escaped-IsVisible : (s : Bytes) → All IsVisible (escaped s)
unfolding escaped
escaped-IsVisible [] = tt
escaped-IsVisible (c ∷ s) =
    All-append IsVisible (escaped_byte c) (escaped s) (escaped_byte-IsVisible c)
      (escaped-IsVisible s)

length-escaped_byte : (c : ℕ) → is_plain c ≡ true → length (escaped_byte c) ≤ 2
unfolding escaped_byte
length-escaped_byte c h = ground arith

-- Text that came through the request parser at most doubles.
pub length-escaped : (s : Bytes) → IsPlain s → length (escaped s) ≤ 2 * length s
unfolding escaped
length-escaped [] h = omega arith
length-escaped (c ∷ s) h = omega (
  arith,
  length-append (escaped_byte c) (escaped s),
  length-escaped_byte c h.0,
  length-escaped s h.1,
)

-- A plain text, one without control bytes other than a newline, a return or a tab, is escaped into
-- a buffer of more than twice its length, which never refuses it.
pub escape_string-IsPlain :
    (n : ℕ) (s : Bytes) → IsPlain s → 2 * length s < n → escape_string (some s) n ≡ some (escaped s)
escape_string-IsPlain n s h fits =
    escape_string-escaped n s
    ∙ rw (lt→ltb (length (escaped s)) n (omega (arith, length-escaped s h)))

abbrev pub all_plain : Bytes → Bool
all_plain [] = true
all_plain (c ∷ cs) = is_plain c && all_plain cs

-- For a literal, by evaluation.
pub all_plain-IsPlain : (s : Bytes) → all_plain s ≡ true → IsPlain s
all_plain-IsPlain [] h = tt
all_plain-IsPlain (c ∷ cs) h = (ground arith, all_plain-IsPlain cs (ground arith))

abbrev pub all_visible : Bytes → Bool
all_visible [] = true
all_visible (c ∷ cs) = leb 0x20 c && all_visible cs

pub all_visible-IsVisible : (s : Bytes) → all_visible s ≡ true → All IsVisible s
all_visible-IsVisible [] h = tt
all_visible-IsVisible (c ∷ cs) h = (ground arith, all_visible-IsVisible cs (ground arith))
