-- ===== src/Rpc/Scan/Shorter.antt =====
-- Every round of a string loop reads a byte, so the loops end, and the cursor only moves on.
use anything_tool.Base.{ℕ, ◌≤◌, [], ◌∷◌, arith, length, Falls}
use anything_tool.Text.{Bytes}
use anything_tool.Rpc.Scan.{
  skip_ws, push_decoded, decode_escape, Decoding, decode_step, skip_escape, skip_string_step,
}

pub length-skip_ws : (p : Bytes) → length (skip_ws p) ≤ length p
unfolding skip_ws
length-skip_ws [] = omega arith
length-skip_ws (c ∷ cs) = ground (arith, length-skip_ws cs)

pub decode-Falls : (n : ℕ) (s : Decoding) → Falls (λ s. length s.1) (length s.1) (decode_step n s)
unfolding decode_step decode_escape push_decoded
decode-Falls n (out, []) = tt
decode-Falls n (out, c ∷ []) = ground arith
decode-Falls n (out, c ∷ d ∷ cs) = ground arith

pub skip_string-Falls : (p : Bytes) → Falls length (length p) (skip_string_step p)
unfolding skip_string_step skip_escape
skip_string-Falls [] = tt
skip_string-Falls (c ∷ []) = ground arith
skip_string-Falls (c ∷ d ∷ cs) = ground arith
