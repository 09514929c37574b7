-- ===== src/Rpc/Response/Framed.antt =====
-- An error response is one line, whole, in its buffer.
use anything_tool.Base.{
  ℕ, suc, ◌+◌, ◌*◌, ◌<◌, ◌≡◌, refl, sym, ap, ◌∙◌, subst, Bool, true, ◌&&◌, Option, none, some, [],
  ◌∷◌, ◌++◌, append_assoc, arith, ltb, length, length-append, All-append, ℤ, pos, negsuc,
}
use anything_tool.Text.{Bytes, codes, clip}
use anything_tool.Text.Clip.{clip_fits}
use anything_tool.Text.Decimal.{decimal-IsVisible}
use anything_tool.Json.Escape.{
  IsVisible, IsPlain, escaped, escaped-IsVisible, escape_string-IsPlain, length-escaped, all_plain,
  all_plain-IsPlain,
}
use anything_tool.Json.Visible.{Visible, IsLine, lit, then_text}
use anything_tool.Rpc.Response.{format_int, error_response_text, rpc_error}

-- The buffer was filled, and what is in it is a whole line.
abbrev pub IsFramed : Option Bytes → Type 0
IsFramed none = ⊥
IsFramed (some text) = (length text < 4096) × IsLine text

-- A text that a buffer of n bytes takes in its escaped form.
abbrev pub Escapes : ℕ → Bytes → Type 0
Escapes n s = IsPlain s × (2 * length s < n)

-- For a literal, by evaluation.
abbrev pub is_literal : ℕ → Bytes → Bool
is_literal n s = all_plain s && ltb (2 * length s) n

pub is_literal-Escapes : (n : ℕ) (s : Bytes) → is_literal n s ≡ true → Escapes n s
is_literal-Escapes n s h = (all_plain-IsPlain s (ground arith), ground arith)

pub format_int-IsVisible : (n : ℤ) → Visible (format_int n)
unfolding format_int
format_int-IsVisible (pos n) = decimal-IsVisible n
format_int-IsVisible (negsuc n) = (omega arith, decimal-IsVisible (suc n))

-- The response without the newline that ends it.
error_line : Bytes → ℤ → Bytes → Bytes → Bytes → Bytes
error_line id code kind message extra =
    codes "{\"jsonrpc\":\"2.0\",\"id\":\""
    ++ (id
        ++ (codes "\",\"error\":{\"code\":"
            ++ (format_int code
                ++ (codes ",\"message\":\""
                    ++ (message
                        ++ (codes "\",\"data\":{\"kind\":\""
                            ++ (kind ++ (codes "\"" ++ (extra ++ codes "}}}")))))))))

error_response_text-error_line :
    (id : Bytes) (code : ℤ) (kind message extra : Bytes)
    → error_response_text id code kind message extra
      ≡ error_line id code kind message extra ++ b'\n' ∷ []
unfolding error_response_text error_line
error_response_text-error_line id code kind message extra = simp append_assoc

error_line-Visible :
    (id : Bytes) (code : ℤ) (kind message extra : Bytes)
    → Visible id
    → Visible kind
    → Visible message
    → Visible extra
    → Visible (error_line id code kind message extra)
unfolding error_line
error_line-Visible id code kind message extra i k m e =
    let join = All-append IsVisible in
    then_text (codes "{\"jsonrpc\":\"2.0\",\"id\":\"") _ refl (
      join id _ i (
        then_text (codes "\",\"error\":{\"code\":") _ refl (
          join (format_int code) _ (format_int-IsVisible code) (
            then_text (codes ",\"message\":\"") _ refl (
              join message _ m (
                then_text (codes "\",\"data\":{\"kind\":\"") _ refl (
                  join kind _ k
                    (then_text (codes "\"") _ refl (join extra _ e (lit (codes "}}}") refl))))))))))

length-error_line :
    (id : Bytes) (code : ℤ) (kind message extra : Bytes)
    → length (error_line id code kind message extra)
      ≡ length id + length (format_int code) + length message + length kind + length extra + 75
unfolding error_line
length-error_line id code kind message extra = simp length-append (omega arith)

escaped_short : (n : ℕ) (s : Bytes) → Escapes n s → length (escaped s) < n
escaped_short n s h = omega (arith, length-escaped s h.0, h.1)

rpc_error_made :
    (id : Bytes) (code : ℤ) (kind message extra : Bytes)
    → Escapes 128 id
    → Escapes 128 kind
    → Escapes 256 message
    → rpc_error id code kind message extra
      ≡ some
          (clip 4096 (error_response_text (escaped id) code (escaped kind) (escaped message) extra))
unfolding rpc_error
rpc_error_made id code kind message extra i k m =
    rw
      (
        escape_string-IsPlain 128 id i.0 i.1,
        escape_string-IsPlain 128 kind k.0 k.1,
        escape_string-IsPlain 256 message m.0 m.1,
      )
      refl

-- An error response whose texts go into their buffers is a whole line.
pub rpc_error-IsFramed :
    (id : Bytes) (code : ℤ) (kind message extra : Bytes)
    → Escapes 128 id
    → Escapes 128 kind
    → Escapes 256 message
    → Visible extra
    → length extra < 1024
    → length (format_int code) < 16
    → IsFramed (rpc_error id code kind message extra)
rpc_error-IsFramed id code kind message extra i k m e few short =
    let line = error_line (escaped id) code (escaped kind) (escaped message) extra in
    let bound : length (line ++ b'\n' ∷ []) < 4096 = omega (
      arith,
      length-append line (b'\n' ∷ []),
      length-error_line (escaped id) code (escaped kind) (escaped message) extra,
      escaped_short 128 id i,
      escaped_short 128 kind k,
      escaped_short 256 message m,
    ) in
    let made : rpc_error id code kind message extra ≡ some (line ++ b'\n' ∷ []) =
      rpc_error_made id code kind message extra i k m
      ∙ ap (λ t. some (clip 4096 t))
          (error_response_text-error_line (escaped id) code (escaped kind) (escaped message) extra)
      ∙ ap some (clip_fits 4096 (line ++ b'\n' ∷ []) bound) in
    subst IsFramed (sym made) (
      bound,
      (
        line,
        refl,
        error_line-Visible (escaped id) code (escaped kind) (escaped message) extra
            (escaped-IsVisible id) (escaped-IsVisible kind) (escaped-IsVisible message) e,
      ),
    )
