-- ===== src/Rpc/Literal.antt =====
-- parse_json_string and skip_json_string of rpc.c, and the bounds that every caller relies on.
pub mod RoundTrip
use anything_tool.Base.{
  ℕ, suc, ◌<◌, ◌≡◌, true, not, ◌||◌, Option, none, some, [], ◌∷◌, arith, length, length-append,
  Holds, Loop, run_inv, run, Bool-cases, inl, inr, Option-cases, ◌==◌, if◌then◌else◌, All-append,
}
use anything_tool.Text.{Bytes}
use anything_tool.Json.Escape.{IsPlain, is_plain}
use anything_tool.Rpc.Scan.{
  unescape, append_decoded, push_decoded, decode_escape, Decoding, Decoded, decode_step,
  skip_escape, skip_string_step,
}
use anything_tool.Rpc.Scan.Shorter.{decode-Falls, skip_string-Falls}

abbrev pub decode_loop : ℕ → Loop Decoding Decoded
decode_loop n = record {
  step = decode_step n;
  measure = λ s. length s.1;
  spent = none;
  falls = decode-Falls n;
}

-- The decoded text and the cursor behind the closing quote.
unfoldable pub parse_json_string : Bytes → ℕ → Decoded
unfolding run decode_step decode_escape push_decoded append_decoded unescape
parse_json_string [] n = none
parse_json_string (c ∷ cs) n =
    if not (c == b'"') || n == 0 then none else run (decode_loop n) ([], cs)

abbrev pub skip_string_loop : Loop Bytes (Option Bytes)
skip_string_loop = record {
  step = skip_string_step;
  measure = length;
  spent = none;
  falls = skip_string-Falls;
}

-- The cursor behind the closing quote.
unfoldable pub skip_json_string : Bytes → Option Bytes
unfolding run skip_string_step skip_escape unescape
skip_json_string [] = none
skip_json_string (c ∷ cs) = if not (c == b'"') then none else run skip_string_loop cs

-- A decoded text fits in its buffer of n bytes and is plain, and the cursor is below m.
abbrev pub IsDecoded : ℕ → ℕ → Decoded → Type 0
IsDecoded n m none = Unit
IsDecoded n m (some (out, rest)) = (length out < n) × IsPlain out × (length rest < m)

abbrev InDecoding : ℕ → ℕ → Decoding → Type 0
InDecoding n m (out, p) = (length out < n) × IsPlain out × (length p < m)

push_decoded-InDecoding :
    (n m : ℕ) (out : Bytes) (c : ℕ) (cs : Bytes)
    → InDecoding n m (out, cs)
    → is_plain c ≡ true
    → Holds (InDecoding n m) (IsDecoded n m) (push_decoded n out c cs)
unfolding push_decoded append_decoded
push_decoded-InDecoding n m out c cs h p =
    ground (arith, length-append out (c ∷ []), All-append (λ c. is_plain c ≡ true) out (c ∷ []))

unescape-is_plain : (d c : ℕ) → unescape d ≡ some c → is_plain c ≡ true
unfolding unescape
unescape-is_plain d c h = ground arith

decode_escape-InDecoding :
    (n m : ℕ) (out cs : Bytes)
    → InDecoding n m (out, cs)
    → Holds (InDecoding n m) (IsDecoded n m) (decode_escape n out cs)
unfolding decode_escape
decode_escape-InDecoding n m out [] h = tt
decode_escape-InDecoding n m out (d ∷ ds) h = elim (Option-cases (unescape d)) [
  | inl e ↦ ground arith
  | inr (c, e) ↦ ground (
    arith,
    push_decoded-InDecoding n m out c ds (h.0, h.1, omega arith) (unescape-is_plain d c e),
  )
]

decode_step-InDecoding :
    (n m : ℕ) (s : Decoding)
    → InDecoding n m s
    → Holds (InDecoding n m) (IsDecoded n m) (decode_step n s)
unfolding decode_step
decode_step-InDecoding n m (out, []) h = tt
decode_step-InDecoding n m (out, c ∷ cs) h = ground (
  arith,
  decode_escape-InDecoding n m out cs (h.0, h.1, omega arith),
  push_decoded-InDecoding n m out c cs (h.0, h.1, omega arith),
)

pub parse_json_string-IsDecoded :
    (p : Bytes) (n : ℕ) → IsDecoded n (length p) (parse_json_string p n)
unfolding parse_json_string
parse_json_string-IsDecoded [] n = tt
parse_json_string-IsDecoded (c ∷ cs) n = elim (Bool-cases (not (c == b'"') || n == 0)) [
  | inl bad ↦ rw bad tt
  | inr good ↦ rw good (
      run_inv (decode_loop n) (InDecoding n (suc (length cs))) (IsDecoded n (suc (length cs)))
        (decode_step-InDecoding n (suc (length cs))) ([], cs) (ground arith, tt, ground arith))
]

pub parse_json_string-some :
    (p : Bytes) (n : ℕ) (d : Bytes × Bytes)
    → parse_json_string p n ≡ some d
    → (length d.0 < n) × IsPlain d.0 × (length d.1 < length p)
parse_json_string-some p n d e = rw e at (parse_json_string-IsDecoded p n)

-- A string that is skipped ends before the cursor.
abbrev pub Skips : ℕ → Option Bytes → Type 0
Skips m none = Unit
Skips m (some rest) = length rest < m

skip_string_step-Skips :
    (m : ℕ) (p : Bytes) → length p < m → Holds (λ p. length p < m) (Skips m) (skip_string_step p)
unfolding skip_string_step skip_escape
skip_string_step-Skips m [] h = tt
skip_string_step-Skips m (c ∷ []) h = ground arith
skip_string_step-Skips m (c ∷ d ∷ cs) h = ground arith

pub skip_json_string-Skips : (p : Bytes) → Skips (length p) (skip_json_string p)
unfolding skip_json_string
skip_json_string-Skips [] = tt
skip_json_string-Skips (c ∷ cs) = elim (Bool-cases (not (c == b'"'))) [
  | inl bad ↦ rw bad tt
  | inr good ↦ rw good (
      run_inv skip_string_loop (λ p. length p < suc (length cs)) (Skips (suc (length cs)))
        (skip_string_step-Skips (suc (length cs))) cs (omega arith))
]
