-- ===== src/Client/Simple.antt =====
-- Text that stands in a JSON string as it is, and what the scanner makes of it.
use anything_tool.Base.{
  ℕ, ◌<◌, ◌≡◌, refl, ap, ◌∙◌, subst, Bool, true, false, not, ◌&&◌, ◌==◌, ◌-◌, ◌>>=◌, if◌then◌else◌,
  leb, length-append, take, take_append, Option, none, some, [], ◌∷◌, ◌++◌, arith, length, All,
  again, stop, after, run, run_lem, append_assoc,
}
use anything_tool.Text.{Bytes, str_eq}
use anything_tool.Text.Equal.{str_eq_iff}
use anything_tool.Json.Escape.{IsPlain, escaped, escaped_byte}
use anything_tool.Rpc.Scan.{skip_ws, skip_string_step}
use anything_tool.Rpc.Literal.{parse_json_string, skip_json_string, skip_string_loop}
use anything_tool.Rpc.Literal.RoundTrip.{parse_json_string-escaped}
use anything_tool.Rpc.Value.{copy_json_object_raw, object_loop, object_step, skip_inner_string}
use anything_tool.Rpc.Param.{
  param_loop, param_step, param_member, param_open, skip_colon, extract_param_string,
}

-- No quote, no backslash and no control byte.
abbrev pub is_simple : ℕ → Bool
is_simple c = leb 0x20 c && (not (c == b'"') && not (c == b'\\'))

abbrev pub IsSimple : Bytes → Type 0
IsSimple = All (λ c. is_simple c ≡ true)

escaped_byte-simple : (c : ℕ) → is_simple c ≡ true → escaped_byte c ≡ c ∷ []
unfolding escaped_byte
escaped_byte-simple c h = ground arith

escaped-IsSimple : (s : Bytes) → IsSimple s → escaped s ≡ s
unfolding escaped
escaped-IsSimple [] h = refl
escaped-IsSimple (c ∷ s) h = rw (escaped_byte-simple c h.0, escaped-IsSimple s h.1) refl

IsSimple-IsPlain : (s : Bytes) → IsSimple s → IsPlain s
IsSimple-IsPlain [] h = tt
IsSimple-IsPlain (c ∷ s) h = (ground arith, IsSimple-IsPlain s h.1)

-- Between quotes it is read as it is.
pub parse_json_string-IsSimple :
    (n : ℕ) (s rest : Bytes)
    → IsSimple s
    → length s < n
    → parse_json_string (b'"' ∷ (s ++ (b'"' ∷ rest))) n ≡ some (s, rest)
parse_json_string-IsSimple n s rest h room =
    subst (λ t. parse_json_string (b'"' ∷ (t ++ (b'"' ∷ rest))) n ≡ some (s, rest))
      (escaped-IsSimple s h) (parse_json_string-escaped n s rest (IsSimple-IsPlain s h) room)

skip_string_step-simple :
    (c : ℕ) (cs : Bytes) → is_simple c ≡ true → skip_string_step (c ∷ cs) ≡ again cs
unfolding skip_string_step
skip_string_step-simple c cs h = ground arith

run_skip_string :
    (s rest : Bytes) → IsSimple s → run skip_string_loop (s ++ (b'"' ∷ rest)) ≡ some rest
unfolding skip_string_step
run_skip_string [] rest h = run_lem skip_string_loop (b'"' ∷ rest)
run_skip_string (c ∷ s) rest h =
    run_lem skip_string_loop (c ∷ (s ++ (b'"' ∷ rest)))
    ∙ ap (after (run skip_string_loop)) (skip_string_step-simple c (s ++ (b'"' ∷ rest)) h.0)
    ∙ run_skip_string s rest h.1

skip_json_string-IsSimple :
    (s rest : Bytes) → IsSimple s → skip_json_string (b'"' ∷ (s ++ (b'"' ∷ rest))) ≡ some rest
unfolding skip_json_string
skip_json_string-IsSimple s rest h = run_skip_string s rest h

skip_inner_string-simple :
    (s rest : Bytes) (depth : ℕ)
    → IsSimple s
    → skip_inner_string depth (b'"' ∷ (s ++ (b'"' ∷ rest))) ≡ again (depth, rest)
unfolding skip_inner_string
skip_inner_string-simple s rest depth h =
    rw (skip_json_string-IsSimple s rest h, skip_inner_string) refl

object_step_quote :
    (depth : ℕ) (p : Bytes) → object_step (depth, b'"' ∷ p) ≡ skip_inner_string depth (b'"' ∷ p)
unfolding object_step
object_step_quote depth p = refl

object_step_string :
    (s rest : Bytes) (depth : ℕ)
    → IsSimple s
    → object_step (depth, b'"' ∷ (s ++ (b'"' ∷ rest))) ≡ again (depth, rest)
object_step_string s rest depth h =
    object_step_quote depth (s ++ (b'"' ∷ rest)) ∙ skip_inner_string-simple s rest depth h

-- From one round of the loop to the next.
object_again :
    (depth depth' : ℕ) (p q : Bytes)
    → object_step (depth, p) ≡ again (depth', q)
    → run object_loop (depth, p) ≡ run object_loop (depth', q)
object_again depth depth' p q h = run_lem object_loop (depth, p) ∙ ap (after (run object_loop)) h

-- An object of one string member ends at its brace.
run_object :
    (name arg rest : Bytes)
    → IsSimple name
    → IsSimple arg
    → run object_loop
        (0, b'{' ∷ b'"' ∷ (name ++ (b'"' ∷ b':' ∷ b'"' ∷ (arg ++ (b'"' ∷ b'}' ∷ rest)))))
      ≡ some rest
unfolding object_step
run_object name arg rest h k =
    object_again 0 1 (b'{' ∷ b'"' ∷ (name ++ (b'"' ∷ b':' ∷ b'"' ∷ (arg ++ (b'"' ∷ b'}' ∷ rest)))))
      (b'"' ∷ (name ++ (b'"' ∷ b':' ∷ b'"' ∷ (arg ++ (b'"' ∷ b'}' ∷ rest))))) refl
    ∙ object_again 1 1 _ (b':' ∷ b'"' ∷ (arg ++ (b'"' ∷ b'}' ∷ rest)))
        (object_step_string name (b':' ∷ b'"' ∷ (arg ++ (b'"' ∷ b'}' ∷ rest))) 1 h)
    ∙ object_again 1 1 _ (b'"' ∷ (arg ++ (b'"' ∷ b'}' ∷ rest))) refl
    ∙ object_again 1 1 _ (b'}' ∷ rest) (object_step_string arg (b'}' ∷ rest) 1 k)
    ∙ run_lem object_loop (1, b'}' ∷ rest)

str_eq_refl : (s : Bytes) → str_eq s s ≡ true
str_eq_refl s = (str_eq_iff s s).1 refl

-- The object of one member, as the request has it.
abbrev pub one_member : Bytes → Bytes → Bytes → Bytes
one_member name arg rest =
    b'{' ∷ b'"' ∷ (name ++ (b'"' ∷ b':' ∷ b'"' ∷ (arg ++ (b'"' ∷ b'}' ∷ rest))))

one_member-append :
    (name arg rest : Bytes) → one_member name arg rest ≡ one_member name arg [] ++ rest
one_member-append name arg rest = simp append_assoc

-- What is copied, of the text and where it ends.
abbrev copied_to : ℕ → ℕ → Bytes → Bytes → Option (Bytes × Bytes)
copied_to n len p rest = if leb n len then none else some (take len p, rest)

abbrev copied : ℕ → Bytes → Bytes → Option (Bytes × Bytes)
copied n p rest = copied_to n (length p - length rest) p rest

copy_json_object_raw_end :
    (p rest : Bytes) (n : ℕ)
    → run object_loop (0, b'{' ∷ p) ≡ some rest
    → copy_json_object_raw (b'{' ∷ p) n ≡ copied n (b'{' ∷ p) rest
unfolding copy_json_object_raw
copy_json_object_raw_end p rest n h = ap (λ o. o >>= copied n (b'{' ∷ p)) h

copied_all : (n : ℕ) (p rest : Bytes) → length p < n → copied n (p ++ rest) rest ≡ some (p, rest)
copied_all n p rest room =
    subst (λ len. copied_to n len (p ++ rest) rest ≡ some (p, rest)) all_taken
      (rw (within, take_append p rest) refl)
  where
    all_taken : length p ≡ length (p ++ rest) - length rest
    all_taken = omega (arith, length-append p rest)

    within : leb n (length p) ≡ false
    within = ground arith

pub copy_json_object_raw-one_member :
    (name arg rest : Bytes) (n : ℕ)
    → IsSimple name
    → IsSimple arg
    → length (one_member name arg []) < n
    → copy_json_object_raw (one_member name arg rest) n ≡ some (one_member name arg [], rest)
copy_json_object_raw-one_member name arg rest n h k room =
    copy_json_object_raw_end _ rest n (run_object name arg rest h k)
    ∙ ap (λ p. copied n p rest) (one_member-append name arg rest)
    ∙ copied_all n (one_member name arg []) rest room

skip_colon_quote : (p : Bytes) → skip_colon (b':' ∷ b'"' ∷ p) ≡ some (b'"' ∷ p)
unfolding skip_colon skip_ws
skip_colon_quote p = refl

param_member-one :
    (name arg rest : Bytes) (n : ℕ)
    → IsSimple name
    → length name < 64
    → IsSimple arg
    → length arg < n
    → param_member name n (b'"' ∷ (name ++ (b'"' ∷ b':' ∷ b'"' ∷ (arg ++ (b'"' ∷ rest)))))
      ≡ stop (some arg)
unfolding param_member
param_member-one name arg rest n h short k room =
    rw
      (
        parse_json_string-IsSimple 64 name (b':' ∷ b'"' ∷ (arg ++ (b'"' ∷ rest))) h short,
        skip_colon_quote (arg ++ (b'"' ∷ rest)),
        str_eq_refl name,
        parse_json_string-IsSimple n arg rest k room,
      )
      refl

pub extract_param_string-one_member :
    (name arg : Bytes) (n : ℕ)
    → IsSimple name
    → length name < 64
    → IsSimple arg
    → length arg < n
    → extract_param_string (one_member name arg []) name n ≡ some arg
unfolding extract_param_string param_open param_step
extract_param_string-one_member name arg n h short k room =
    run_lem (param_loop name n)
      (b'"' ∷ (name ++ (b'"' ∷ b':' ∷ b'"' ∷ (arg ++ (b'"' ∷ b'}' ∷ [])))))
    ∙ ap (after (run (param_loop name n))) (param_member-one name arg (b'}' ∷ []) n h short k room)
