-- ===== src/Rpc/Param.antt =====
-- anything_rpc_extract_param_string of rpc.c: a string among the top-level members of an object.
use mathlib.Core.Option
use anything_tool.Base.{
  ℕ, ◌≤◌, ◌<◌, ◌≡◌, not, Option, none, some, or_fail, or_fail-Falls, or_fail-Holds, [], ◌∷◌, arith,
  length, Next, again, stop, Falls, Holds, Loop, run, run_inv, ◌==◌, if◌then◌else◌, Bool-cases, inl,
  inr,
}
use anything_tool.Text.{Bytes, str_eq}
use anything_tool.Json.Escape.{IsPlain}
use anything_tool.Rpc.Scan.{skip_ws, Decoded}
use anything_tool.Rpc.Scan.Shorter.{length-skip_ws}
use anything_tool.Rpc.Literal.{
  parse_json_string, IsDecoded, parse_json_string-IsDecoded, parse_json_string-some,
}
use anything_tool.Rpc.Value.{skip_json_value}
use anything_tool.Rpc.Value.Suffix.{length-skip_json_value}

-- The cursor behind a colon and the spaces around it, if there is one.
unfoldable pub behind_colon : Bytes → Option Bytes
behind_colon [] = none
behind_colon (c ∷ cs) = if not (c == b':') then none else some (skip_ws cs)

unfoldable pub skip_colon : Bytes → Option Bytes
unfolding behind_colon
skip_colon p = behind_colon (skip_ws p)

-- A comma and the spaces behind it are passed where there is one, and not wanted.
unfoldable pub skip_comma : Bytes → Bytes
skip_comma [] = []
skip_comma (c ∷ cs) = if c == b',' then skip_ws cs else c ∷ cs

-- At a key: `return parse_json_string(...)` where it is the wanted one, else past its value.
unfoldable pub param_member : Bytes → ℕ → Bytes → Next Bytes (Option Bytes)
param_member key n p = or_fail (parse_json_string p 64) λ found.
    or_fail (skip_colon found.1) λ value.
      if str_eq found.0 key
      then stop (Option.map (λ d. d.0) (parse_json_string value n))
      else or_fail (skip_json_value value) (λ rest. again (skip_comma (skip_ws rest)))

unfoldable pub param_step : Bytes → ℕ → Bytes → Next Bytes (Option Bytes)
param_step key n [] = stop none
param_step key n (c ∷ cs) = if c == b'}' then stop none else param_member key n (c ∷ cs)

pub length-skip_colon : (p q : Bytes) → skip_colon p ≡ some q → length q ≤ length p
unfolding skip_colon
length-skip_colon p q h = go (skip_ws p) h (length-skip_ws p)
  where
    go : (t : Bytes) → behind_colon t ≡ some q → length t ≤ length p → length q ≤ length p
    go [] h k = absurd (cc)
    go (c ∷ cs) h k = ground (arith, length-skip_ws cs)

pub length-skip_comma : (p : Bytes) → length (skip_comma p) ≤ length p
unfolding skip_comma
length-skip_comma [] = omega arith
length-skip_comma (c ∷ cs) = ground (arith, length-skip_ws cs)

param_member-Falls :
    (key : Bytes) (n : ℕ) (p : Bytes) → Falls length (length p) (param_member key n p)
unfolding param_member
param_member-Falls key n p = or_fail-Falls length (length p) (parse_json_string p 64) _ λ found e.
    or_fail-Falls length (length p) (skip_colon found.1) _ λ value e'.
      elim (Bool-cases (str_eq found.0 key)) [
        | inl same ↦ rw same tt
        | inr other ↦ rw other (
            or_fail-Falls length (length p) (skip_json_value value) _ λ rest e''. omega (
              arith,
              parse_json_string-some p 64 found e,
              length-skip_colon found.1 value e',
              length-skip_json_value value rest e'',
              length-skip_comma (skip_ws rest),
              length-skip_ws rest,
            ))
      ]

pub param-Falls : (key : Bytes) (n : ℕ) (p : Bytes) → Falls length (length p) (param_step key n p)
unfolding param_step
param-Falls key n [] = tt
param-Falls key n (c ∷ cs) = ground (arith, param_member-Falls key n (c ∷ cs))

abbrev pub param_loop : Bytes → ℕ → Loop Bytes (Option Bytes)
param_loop key n = record {
  step = param_step key n;
  measure = length;
  spent = none;
  falls = param-Falls key n;
}

-- Behind the opening brace.
unfoldable pub param_open : Bytes → ℕ → Bytes → Option Bytes
param_open key n [] = none
param_open key n (c ∷ cs) = if not (c == b'{') then none else run (param_loop key n) (skip_ws cs)

-- The value of `key` in a buffer of n bytes.
unfoldable pub extract_param_string : Bytes → Bytes → ℕ → Option Bytes
unfolding run param_open param_step param_member skip_colon skip_comma skip_ws parse_json_string
    skip_json_value str_eq
extract_param_string params key n = param_open key n (skip_ws params)

abbrev pub FitsIn : ℕ → Option Bytes → Type 0
FitsIn n none = Unit
FitsIn n (some s) = (length s < n) × IsPlain s

param_member-FitsIn :
    (key : Bytes) (n : ℕ) (p : Bytes) → Holds (λ _. Unit) (FitsIn n) (param_member key n p)
unfolding param_member
param_member-FitsIn key n p =
    or_fail-Holds (λ _. Unit) (FitsIn n) (parse_json_string p 64) _ tt
      λ found e.
        or_fail-Holds (λ _. Unit) (FitsIn n) (skip_colon found.1) _ tt
          λ value e'. elim (Bool-cases (str_eq found.0 key)) [
            | inl same ↦
                rw same (go _ (parse_json_string value n) (parse_json_string-IsDecoded value n))
            | inr other ↦
                rw other
                  (or_fail-Holds (λ _. Unit) (FitsIn n) (skip_json_value value) _ tt λ rest e''. tt)
          ]
  where
    go : (m : ℕ) (d : Decoded) → IsDecoded n m d → FitsIn n (Option.map (λ d. d.0) d)
    go m none h = tt
    go m (some d) h = (h.0, h.1)

param_step-FitsIn :
    (key : Bytes) (n : ℕ) (p : Bytes) → Unit {0} → Holds (λ _. Unit) (FitsIn n) (param_step key n p)
unfolding param_step
param_step-FitsIn key n [] h = tt
param_step-FitsIn key n (c ∷ cs) h = ground (arith, param_member-FitsIn key n (c ∷ cs))

param_open-FitsIn : (key : Bytes) (n : ℕ) (p : Bytes) → FitsIn n (param_open key n p)
unfolding param_open
param_open-FitsIn key n [] = tt
param_open-FitsIn key n (c ∷ cs) = elim (Bool-cases (not (c == b'{'))) [
  | inl bad ↦ rw bad tt
  | inr good ↦
      rw good (
        run_inv (param_loop key n) (λ _. Unit) (FitsIn n) (param_step-FitsIn key n) (skip_ws cs) tt)
]

-- A parameter that is extracted fits in the buffer of n bytes, whatever the text is, and is plain: it
-- has no control byte other than a newline, a return or a tab.
pub extract_param_string-FitsIn :
    (params key : Bytes) (n : ℕ) → FitsIn n (extract_param_string params key n)
unfolding extract_param_string
extract_param_string-FitsIn params key n = param_open-FitsIn key n (skip_ws params)
