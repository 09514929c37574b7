-- ===== src/Rpc/Literal/RoundTrip.antt =====
-- The parser of string literals reads back what the escaping of json.c writes.
use anything_tool.Base.{
  ℕ, ◌+◌, ◌<◌, ◌≡◌, refl, sym, ap, ◌∙◌, true, some, [], ◌∷◌, ◌++◌, append-nil, append_assoc, arith,
  length, length-append, again, stop, after, run, run_lem,
}
use anything_tool.Text.{Bytes}
use anything_tool.Json.Escape.{IsPlain, is_plain, escaped, escaped_byte}
use anything_tool.Rpc.Scan.{decode_step, decode_escape, push_decoded, append_decoded, unescape}
use anything_tool.Rpc.Literal.{decode_loop, parse_json_string}

decode_step-escaped_byte :
    (n c : ℕ) (out p : Bytes)
    → is_plain c ≡ true
    → length out + 1 < n
    → decode_step n (out, escaped_byte c ++ p) ≡ again (out ++ c ∷ [], p)
unfolding escaped_byte decode_step decode_escape push_decoded append_decoded unescape
decode_step-escaped_byte n c out p h room = ground arith

decode_step_end :
    (n : ℕ) (out rest : Bytes) → decode_step n (out, b'"' ∷ rest) ≡ stop (some (out, rest))
unfolding decode_step
decode_step_end n out rest = refl

run-escaped :
    (n : ℕ) (s out rest : Bytes)
    → IsPlain s
    → length out + length s < n
    → run (decode_loop n) (out, escaped s ++ (b'"' ∷ rest)) ≡ some (out ++ s, rest)
unfolding escaped
run-escaped n [] out rest h room =
    run_lem (decode_loop n) (out, b'"' ∷ rest)
    ∙ ap (after (run (decode_loop n))) (decode_step_end n out rest)
    ∙ ap (λ o. some (o, rest)) (sym (append-nil out))
run-escaped n (c ∷ s) out rest h room = rw append_assoc (
    run_lem (decode_loop n) (out, escaped_byte c ++ (escaped s ++ (b'"' ∷ rest)))
    ∙ ap (after (run (decode_loop n)))
        (decode_step-escaped_byte n c out (escaped s ++ (b'"' ∷ rest)) h.0 (omega arith))
    ∙ run-escaped n s (out ++ c ∷ []) rest h.1 (omega (arith, length-append out (c ∷ [])))
    ∙ ap (λ o. some (o, rest)) (append_assoc out (c ∷ []) s))

-- A plain text that fits in the buffer is read back from its escaped form between quotes, and
-- the cursor stands behind the closing quote, whatever follows.
pub parse_json_string-escaped :
    (n : ℕ) (s rest : Bytes)
    → IsPlain s
    → length s < n
    → parse_json_string (b'"' ∷ (escaped s ++ (b'"' ∷ rest))) n ≡ some (s, rest)
unfolding parse_json_string
parse_json_string-escaped n s rest h room = ground (arith, run-escaped n s [] rest h (omega arith))
