-- ===== src/Rpc/Parse.antt =====
-- anything_rpc_parse of rpc.c.
pub mod Sound
use anything_tool.Base.{
  ℕ, suc, ◌+◌, ◌-◌, ◌≤◌, ◌<◌, ◌≡◌, refl, Bool, true, false, not, ◌&&◌, ◌||◌, Option, none, some,
  List, [], ◌∷◌, ◌++◌, arith, length, Next, again, stop, Falls, Loop, run, ◌==◌, if◌then◌else◌,
  Bool-cases, inl, inr,
}
use anything_tool.Text.{Bytes, codes, c_str, str_eq}
use anything_tool.Rpc.Scan.{skip_ws}
use anything_tool.Rpc.Scan.Shorter.{length-skip_ws}
use anything_tool.Rpc.Literal.{
  parse_json_string, parse_json_string-IsDecoded, parse_json_string-some,
}
use anything_tool.Rpc.Value.{copy_json_object_raw, skip_json_value}
use anything_tool.Rpc.Value.Suffix.{copy_json_object_raw-LeavesCopied, skip_json_value-Leaves}
use anything_tool.Rpc.Param.{skip_colon, length-skip_colon, extract_param_string}
use anything_tool.Rpc.Hash.{hash_request}
use anything_tool.Rpc.Request.{
  Request, RpcScan, no_fields, RpcError, invalid_json, invalid_object, invalid_request, invalid_key,
  invalid_shape, duplicate_key, invalid_version, invalid_id, invalid_method, non_object_params,
  invalid_params, invalid_value, invalid_terminator, trailing_data, missing_field, Result, ok, err,
  ◌>>=◌, ◌>>◌, or_err, Ensures, or_err-Ensures,
}

-- The flag is set by the caller in the scan that it returns.
unfoldable pub mark_seen : Bool → Result (Unit {0})
mark_seen seen = if seen then err duplicate_key else ok tt

unfoldable pub read_version : RpcScan → Bytes → Result (RpcScan × Bytes)
read_version s p = do
  mark_seen s.seen_jsonrpc
  version ← or_err (parse_json_string p 16) invalid_version
  if not (str_eq version.0 (codes "2.0"))
      then err invalid_version
      else ok (record s { seen_jsonrpc = true }, version.1)

unfoldable pub read_id : RpcScan → Bytes → Result (RpcScan × Bytes)
read_id s p = do
  mark_seen s.seen_id
  text ← or_err (parse_json_string p 64) invalid_id
  ok (record s { seen_id = true; id = text.0 }, text.1)

unfoldable pub read_method : RpcScan → Bytes → Result (RpcScan × Bytes)
read_method s p = do
  mark_seen s.seen_method
  text ← or_err (parse_json_string p 64) invalid_method
  ok (record s { seen_method = true; method = text.0 }, text.1)

unfoldable pub is_object : Bytes → Bool
is_object [] = false
is_object (c ∷ cs) = c == b'{'

unfoldable pub read_params : RpcScan → Bytes → Result (RpcScan × Bytes)
read_params s p = do
  mark_seen s.seen_params
  if not (is_object p) then err non_object_params else do
    copied ← or_err (copy_json_object_raw p 1024) invalid_params
    ok (record s { seen_params = true; params = copied.0 }, copied.1)

unfoldable pub skip_member : RpcScan → Bytes → Result (RpcScan × Bytes)
skip_member s p = do rest ← or_err (skip_json_value p) invalid_value; ok (s, rest)

-- The value of one top-level member, by its key.
unfoldable pub read_value : Bytes → RpcScan → Bytes → Result (RpcScan × Bytes)
read_value key s p =
    if str_eq key (codes "jsonrpc")
    then read_version s p
    else if str_eq key (codes "id")
    then read_id s p
    else if str_eq key (codes "method")
    then read_method s p
    else if str_eq key (codes "params")
    then read_params s p
    else skip_member s p

unfoldable pub read_member : RpcScan → Bytes → Result (RpcScan × Bytes)
read_member s p = do
  key ← or_err (parse_json_string p 64) invalid_key
  value ← or_err (skip_colon key.1) invalid_shape
  read_value key.0 s value

abbrev pub Parsing : Type 0
Parsing = RpcScan × Bytes

-- Behind a value: `continue` at a comma, `break` at a brace.
unfoldable pub end_member : RpcScan → Bytes → Next Parsing (Result Parsing)
end_member s [] = stop (err invalid_terminator)
end_member s (c ∷ cs) =
    if c == b','
    then again (s, skip_ws cs)
    else if c == b'}'
    then stop (ok (s, cs))
    else stop (err invalid_terminator)

abbrev pub or_leave :
    Result Parsing → (Parsing → Next Parsing (Result Parsing)) → Next Parsing (Result Parsing)
or_leave (err e) k = stop (err e)
or_leave (ok s) k = k s

unfoldable pub parse_step : Parsing → Next Parsing (Result Parsing)
parse_step (s, []) = stop (ok (s, []))
parse_step (s, c ∷ cs) = or_leave (read_member s (c ∷ cs)) (λ t. end_member t.0 (skip_ws t.1))

-- What a reader leaves is no longer than what it was given.
abbrev Shrinks : Bytes → Result Parsing → Type 0
Shrinks p = Ensures (λ t. length t.1 ≤ length p)

read_version-Shrinks : (s : RpcScan) (p : Bytes) → Shrinks p (read_version s p)
unfolding read_version mark_seen
read_version-Shrinks s p = ground (arith, parse_json_string-IsDecoded p 16)

read_id-Shrinks : (s : RpcScan) (p : Bytes) → Shrinks p (read_id s p)
unfolding read_id mark_seen
read_id-Shrinks s p = ground (arith, parse_json_string-IsDecoded p 64)

read_method-Shrinks : (s : RpcScan) (p : Bytes) → Shrinks p (read_method s p)
unfolding read_method mark_seen
read_method-Shrinks s p = ground (arith, parse_json_string-IsDecoded p 64)

read_params-Shrinks : (s : RpcScan) (p : Bytes) → Shrinks p (read_params s p)
unfolding read_params mark_seen
read_params-Shrinks s p = ground (arith, copy_json_object_raw-LeavesCopied p 1024)

skip_member-Shrinks : (s : RpcScan) (p : Bytes) → Shrinks p (skip_member s p)
unfolding skip_member
skip_member-Shrinks s p = ground (arith, skip_json_value-Leaves p)

read_value-Shrinks : (key : Bytes) (s : RpcScan) (p : Bytes) → Shrinks p (read_value key s p)
unfolding read_value
read_value-Shrinks key s p = ground (
  arith,
  read_version-Shrinks s p,
  read_id-Shrinks s p,
  read_method-Shrinks s p,
  read_params-Shrinks s p,
  skip_member-Shrinks s p,
)

end_member-Falls :
    (m : ℕ) (s : RpcScan) (p : Bytes) → length p ≤ m → Falls (λ t. length t.1) m (end_member s p)
unfolding end_member
end_member-Falls m s [] h = tt
end_member-Falls m s (c ∷ cs) h = ground (arith, length-skip_ws cs)

read_member-Shrinks : (s : RpcScan) (p : Bytes) → Shrinks p (read_member s p)
unfolding read_member
read_member-Shrinks s p =
    or_err-Ensures (λ t. length t.1 ≤ length p) (parse_json_string p 64) invalid_key _
      λ key e.
        or_err-Ensures (λ t. length t.1 ≤ length p) (skip_colon key.1) invalid_shape _
          λ value e'.
            go key.0 value
              (omega (arith, parse_json_string-some p 64 key e, length-skip_colon key.1 value e'))
  where
    go : (key value : Bytes) → length value ≤ length p → Shrinks p (read_value key s value)
    go key value h = weaken (read_value key s value) (read_value-Shrinks key s value)
      where
        weaken : (r : Result Parsing) → Shrinks value r → Shrinks p r
        weaken (err e) k = tt
        weaken (ok t) k = omega arith

pub parse-Falls : (s : Parsing) → Falls (λ t. length t.1) (length s.1) (parse_step s)
unfolding parse_step
parse-Falls (s, []) = tt
parse-Falls (s, c ∷ cs) = go (read_member s (c ∷ cs)) (read_member-Shrinks s (c ∷ cs))
  where
    go :
        (r : Result Parsing)
        → Shrinks (c ∷ cs) r
        → Falls (λ t. length t.1) (length (c ∷ cs)) (or_leave r (λ t. end_member t.0 (skip_ws t.1)))
    go (err e) h = tt
    go (ok t) h = end_member-Falls _ t.0 (skip_ws t.1) (omega (arith, length-skip_ws t.1))

abbrev pub parse_loop : Loop Parsing (Result Parsing)
parse_loop = record {
  step = parse_step;
  measure = λ s. length s.1;
  spent = err invalid_json;
  falls = parse-Falls;
}

-- Only a newline may follow the object.
unfoldable pub is_finished : Bytes → Bool
is_finished [] = true
is_finished (c ∷ cs) = c == b'\n'

unfoldable pub session_of : Bytes → Bytes
session_of params = elim (extract_param_string params (codes "session_id") 64) [
  | none ↦ codes "default"
  | some session ↦ session
]

-- Behind the loop, where the request is complete.
unfoldable pub complete : RpcScan → Request
complete s =
    let params = if s.seen_params then s.params else codes "{}" in
    let session = session_of params in
    record {
      id = s.id;
      method = s.method;
      session_id = session;
      params = params;
      request_hash = hash_request s.method params session;
    }

unfoldable pub finish_parse : Parsing → Result Request
finish_parse (s, p) =
    if not (is_finished (skip_ws p))
    then err trailing_data
    else if not (s.seen_jsonrpc && s.seen_id && s.seen_method)
    then err missing_field
    else ok (complete s)

unfoldable pub parse_members : Bytes → Result Request
parse_members [] = do s ← run parse_loop (no_fields, []); finish_parse s
parse_members (c ∷ cs) =
    if c == b'}'
    then err invalid_request
    else do s ← run parse_loop (no_fields, c ∷ cs); finish_parse s

unfoldable pub parse_object : Bytes → Result Request
parse_object [] = err invalid_object
parse_object (c ∷ cs) = if not (c == b'{') then err invalid_object else parse_members (skip_ws cs)

-- The body is the buffer's first `len` bytes; the parser itself stops at the first NUL.
unfoldable pub rpc_parse : Bytes → Result Request
unfolding run parse_object parse_members finish_parse complete session_of is_finished parse_step
    end_member read_member read_value read_version read_id read_method read_params skip_member
    is_object mark_seen parse_json_string copy_json_object_raw skip_json_value skip_colon
    extract_param_string c_str skip_ws str_eq
rpc_parse body = if length body == 0 then err invalid_json else parse_object (skip_ws (c_str body))
