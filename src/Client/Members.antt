-- ===== src/Client/Members.antt =====
-- The parser's way through the members of a request of the client.
use anything_tool.Base.{
  ◌<◌, ◌≡◌, refl, ap, ◌∙◌, true, [], ◌∷◌, ◌++◌, arith, length, again, stop, after, run, run_lem,
  append_assoc,
}
use anything_tool.Text.{Bytes, codes, c_str, str_eq}
use anything_tool.Rpc.Scan.{skip_ws}
use anything_tool.Rpc.Literal.{parse_json_string}
use anything_tool.Rpc.Param.{skip_colon}
use anything_tool.Rpc.Request.{
  RpcScan, no_fields, Result, ok, or_err, invalid_method, invalid_params, ◌>>=◌,
}
use anything_tool.Rpc.Parse.{
  mark_seen, read_version, read_id, read_method, read_params, is_object, read_value, read_member,
  Parsing, end_member, or_leave, parse_step, parse_loop,
}
use anything_tool.Client.{request_text, param_text}
use anything_tool.Client.Simple.{
  IsSimple, parse_json_string-IsSimple, one_member, copy_json_object_raw-one_member,
}

c_str_simple : (s t : Bytes) → IsSimple s → c_str (s ++ t) ≡ s ++ c_str t
unfolding c_str
c_str_simple [] t h = refl
c_str_simple (c ∷ s) t h = ground (arith, c_str_simple s t h.1)

-- The scan behind each of the members.
abbrev with_version : RpcScan
with_version = record no_fields { seen_jsonrpc = true }

abbrev with_id : RpcScan
with_id = record with_version { seen_id = true; id = codes "1" }

abbrev with_method : Bytes → RpcScan
with_method method = record with_id { seen_method = true; method = method }

abbrev pub with_params : Bytes → Bytes → RpcScan
with_params method params = record (with_method method) { seen_params = true; params = params }

step_version :
    (p : Bytes)
    → parse_step (no_fields, codes "\"jsonrpc\":\"2.0\",\"" ++ p) ≡ again (with_version, b'"' ∷ p)
unfolding parse_step read_member read_value read_version mark_seen parse_json_string skip_colon
    skip_ws str_eq end_member
step_version p = refl

step_id :
    (p : Bytes)
    → parse_step (with_version, codes "\"id\":\"1\",\"" ++ p) ≡ again (with_id, b'"' ∷ p)
unfolding parse_step read_member read_value read_id mark_seen parse_json_string skip_colon skip_ws
    str_eq end_member
step_id p = refl

member_method :
    (method p : Bytes)
    → IsSimple method
    → length method < 64
    → read_member with_id (codes "\"method\":\"" ++ (method ++ (b'"' ∷ p)))
      ≡ ok (with_method method, p)
unfolding read_member read_value read_method mark_seen parse_json_string skip_colon skip_ws str_eq
member_method method p h short =
    ap
      (λ o. or_err o invalid_method >>= λ text.
        ok (record with_id { seen_method = true; method = text.0 }, text.1))
      (parse_json_string-IsSimple 64 method p h short)

member_params :
    (method name arg p : Bytes)
    → IsSimple name
    → IsSimple arg
    → length (one_member name arg []) < 1024
    → read_member (with_method method) (codes "\"params\":" ++ one_member name arg p)
      ≡ ok (with_params method (one_member name arg []), p)
unfolding read_member read_value read_params mark_seen is_object parse_json_string skip_colon
    skip_ws str_eq
member_params method name arg p h k room =
    ap
      (λ o. or_err o invalid_params >>= λ copied.
        ok (record (with_method method) { seen_params = true; params = copied.0 }, copied.1))
      (copy_json_object_raw-one_member name arg p 1024 h k room)

step_method :
    (method p : Bytes)
    → IsSimple method
    → length method < 64
    → parse_step (with_id, codes "\"method\":\"" ++ (method ++ (codes "\",\"" ++ p)))
      ≡ again (with_method method, b'"' ∷ p)
unfolding parse_step end_member skip_ws
step_method method p h short =
    ap (λ (r : Result Parsing). or_leave r (λ t. end_member t.0 (skip_ws t.1)))
      (member_method method (b',' ∷ b'"' ∷ p) h short)

step_params :
    (method name arg p : Bytes)
    → IsSimple name
    → IsSimple arg
    → length (one_member name arg []) < 1024
    → parse_step (with_method method, codes "\"params\":" ++ one_member name arg (b'}' ∷ p))
      ≡ stop (ok (with_params method (one_member name arg []), p))
unfolding parse_step end_member skip_ws
step_params method name arg p h k room =
    ap (λ (r : Result Parsing). or_leave r (λ t. end_member t.0 (skip_ws t.1)))
      (member_params method name arg (b'}' ∷ p) h k room)

again_lem :
    (s t : RpcScan) (p q : Bytes)
    → parse_step (s, p) ≡ again (t, q)
    → run parse_loop (s, p) ≡ run parse_loop (t, q)
again_lem s t p q h = run_lem parse_loop (s, p) ∙ ap (after (run parse_loop)) h

-- The whole request, as the scanner sees it.
abbrev pub request_of : Bytes → Bytes → Bytes → Bytes
request_of method name arg =
    codes "{\"jsonrpc\":\"2.0\",\"id\":\"1\",\"method\":\""
    ++ (method ++ (codes "\",\"params\":" ++ one_member name arg (codes "}\n")))

pub request_text_is :
    (method name arg : Bytes)
    → request_text method (param_text name arg) ≡ request_of method name arg
unfolding request_text param_text
request_text_is method name arg = simp append_assoc

pub request_of-c_str :
    (method name arg : Bytes)
    → IsSimple method
    → IsSimple name
    → IsSimple arg
    → c_str (request_of method name arg) ≡ request_of method name arg
unfolding c_str
request_of-c_str method name arg h k l =
    ap (λ t. codes "{\"jsonrpc\":\"2.0\",\"id\":\"1\",\"method\":\"" ++ t)
      (c_str_simple method _ h
        ∙ ap (λ t. method ++ (codes "\",\"params\":{\"" ++ t))
            (c_str_simple name _ k ∙ ap (λ t. name ++ (codes "\":\"" ++ t)) (c_str_simple arg _ l)))

pub run_members :
    (method name arg : Bytes)
    → IsSimple method
    → length method < 64
    → IsSimple name
    → IsSimple arg
    → length (one_member name arg []) < 1024
    → run parse_loop (
      no_fields,
      (codes "\"jsonrpc\":\"2.0\",\"id\":\"1\",\"method\":\""
          ++ (method ++ (codes "\",\"params\":" ++ one_member name arg (codes "}\n")))),
    )
      ≡ ok (with_params method (one_member name arg []), codes "\n")
run_members method name arg h short k l room =
    again_lem no_fields with_version _ _ (step_version _)
    ∙ again_lem with_version with_id _ _ (step_id _)
    ∙ again_lem with_id (with_method method) _ _ (step_method method _ h short)
    ∙ (run_lem parse_loop _
        ∙ ap (after (run parse_loop)) (step_params method name arg (codes "\n") k l room))
