-- ===== src/Rpc/Parse/Sound.antt =====
-- Whatever body anything_rpc_parse accepts, the request that it leaves is well formed.
use anything_tool.Base.{
  ◌<◌, ◌≡◌, refl, not, [], ◌∷◌, arith, length, Holds, run, run_inv, ◌==◌, if◌then◌else◌, Bool-cases,
  inl, inr,
}
use anything_tool.Text.{Bytes, codes, c_str}
use anything_tool.Json.Escape.{IsPlain}
use anything_tool.Rpc.Scan.{skip_ws}
use anything_tool.Rpc.Literal.{parse_json_string, parse_json_string-IsDecoded}
use anything_tool.Rpc.Value.Suffix.{copy_json_object_raw-Fits}
use anything_tool.Rpc.Param.{skip_colon, extract_param_string-FitsIn}
use anything_tool.Rpc.Request.{
  Request, RpcScan, no_fields, Result, ok, err, ◌>>=◌, Ensures, or_err-Ensures, invalid_key,
  invalid_shape, IsWellFormed,
}
use anything_tool.Rpc.Parse.{
  Parsing, mark_seen, read_version, read_id, read_method, read_params, skip_member, read_value,
  read_member, end_member, or_leave, parse_step, parse_loop, session_of, complete, finish_parse,
  parse_members, parse_object, rpc_parse,
}

record IsFilled (s : RpcScan) : Type 0 where
  id_fits : length s.id < 64
  id_plain : IsPlain s.id
  method_fits : length s.method < 64
  method_plain : IsPlain s.method
  params_fits : length s.params < 1024

abbrev Fills : Result Parsing → Type 0
Fills = Ensures (λ t. IsFilled t.0)

module _ (s : RpcScan) (p : Bytes) (h : IsFilled s) where
  read_version-Fills : Fills (read_version s p)
  unfolding read_version mark_seen
  read_version-Fills = ground arith

  read_id-Fills : Fills (read_id s p)
  unfolding read_id mark_seen
  read_id-Fills = ground (arith, parse_json_string-IsDecoded p 64)

  read_method-Fills : Fills (read_method s p)
  unfolding read_method mark_seen
  read_method-Fills = ground (arith, parse_json_string-IsDecoded p 64)

  read_params-Fills : Fills (read_params s p)
  unfolding read_params mark_seen
  read_params-Fills = ground (arith, copy_json_object_raw-Fits p 1024)

  skip_member-Fills : Fills (skip_member s p)
  unfolding skip_member
  skip_member-Fills = ground arith

  read_value-Fills : (key : Bytes) → Fills (read_value key s p)
  unfolding read_value
  read_value-Fills key = ground (
    arith, read_version-Fills, read_id-Fills, read_method-Fills, read_params-Fills,
    skip_member-Fills,
  )

read_member-Fills : (s : RpcScan) (p : Bytes) → IsFilled s → Fills (read_member s p)
unfolding read_member
read_member-Fills s p h =
    or_err-Ensures (λ t. IsFilled t.0) (parse_json_string p 64) invalid_key _
      λ key e.
        or_err-Ensures (λ t. IsFilled t.0) (skip_colon key.1) invalid_shape _
          λ value e'. read_value-Fills s value h key.0

end_member-Fills :
    (s : RpcScan) (p : Bytes) → IsFilled s → Holds (λ t. IsFilled t.0) Fills (end_member s p)
unfolding end_member
end_member-Fills s [] h = tt
end_member-Fills s (c ∷ cs) h = ground arith

parse_step-Fills : (s : Parsing) → IsFilled s.0 → Holds (λ t. IsFilled t.0) Fills (parse_step s)
unfolding parse_step
parse_step-Fills (s, []) h = h
parse_step-Fills (s, c ∷ cs) h = go (read_member s (c ∷ cs)) (read_member-Fills s (c ∷ cs) h)
  where
    go :
        (r : Result Parsing)
        → Fills r
        → Holds (λ t. IsFilled t.0) Fills (or_leave r (λ t. end_member t.0 (skip_ws t.1)))
    go (err e) h = tt
    go (ok t) h = end_member-Fills t.0 (skip_ws t.1) h

session_of_fits : (params : Bytes) → (length (session_of params) < 64) × IsPlain (session_of params)
unfolding session_of
session_of_fits params = ground (arith, extract_param_string-FitsIn params (codes "session_id") 64)

complete-IsWellFormed : (s : RpcScan) → IsFilled s → IsWellFormed (complete s)
unfolding complete
complete-IsWellFormed s h = record {
  id_fits = h.id_fits;
  id_plain = h.id_plain;
  method_fits = h.method_fits;
  method_plain = h.method_plain;
  session_fits = (session_of_fits (if s.seen_params then s.params else codes "{}")).0;
  session_plain = (session_of_fits (if s.seen_params then s.params else codes "{}")).1;
  params_fits = ground arith;
  hash_is = refl;
}

finish_parse-IsWellFormed : (s : Parsing) → IsFilled s.0 → Ensures IsWellFormed (finish_parse s)
unfolding finish_parse
finish_parse-IsWellFormed (s, p) h = ground (arith, complete-IsWellFormed s h)

parse_run-Fills : (p : Bytes) → Fills (run parse_loop (no_fields, p))
parse_run-Fills p =
    run_inv parse_loop (λ t. IsFilled t.0) Fills parse_step-Fills (no_fields, p) (omega arith)

parse_run-IsWellFormed :
    (p : Bytes) → Ensures IsWellFormed (run parse_loop (no_fields, p) >>= finish_parse)
parse_run-IsWellFormed p = go (run parse_loop (no_fields, p)) (parse_run-Fills p)
  where
    go : (r : Result Parsing) → Fills r → Ensures IsWellFormed (r >>= finish_parse)
    go (err e) h = tt
    go (ok s) h = finish_parse-IsWellFormed s h

parse_members-IsWellFormed : (p : Bytes) → Ensures IsWellFormed (parse_members p)
unfolding parse_members
parse_members-IsWellFormed [] = parse_run-IsWellFormed []
parse_members-IsWellFormed (c ∷ cs) = elim (Bool-cases (c == b'}')) [
  | inl end ↦ rw end tt
  | inr more ↦ rw more (parse_run-IsWellFormed (c ∷ cs))
]

parse_object-IsWellFormed : (p : Bytes) → Ensures IsWellFormed (parse_object p)
unfolding parse_object
parse_object-IsWellFormed [] = tt
parse_object-IsWellFormed (c ∷ cs) = elim (Bool-cases (not (c == b'{'))) [
  | inl bad ↦ rw bad tt
  | inr good ↦ rw good (parse_members-IsWellFormed (skip_ws cs))
]

rpc_parse-Ensures : (body : Bytes) → Ensures IsWellFormed (rpc_parse body)
unfolding rpc_parse
rpc_parse-Ensures body = elim (Bool-cases (length body == 0)) [
  | inl none_read ↦ rw none_read tt
  | inr some_read ↦ rw some_read (parse_object-IsWellFormed (skip_ws (c_str body)))
]

-- Whatever body is accepted, each field of the request is inside its buffer with its NUL, the
-- id, the method and the session are plain text, and the hash is that of the fields.
pub rpc_parse-IsWellFormed : (body : Bytes) (r : Request) → rpc_parse body ≡ ok r → IsWellFormed r
rpc_parse-IsWellFormed body r e = rw e at (rpc_parse-Ensures body)
