-- ===== src/Daemon/Replies/Framed.antt =====
-- Every answer on the tool plane is a whole line.

use anything_tool.Base.{ℕ, ◌≡◌, refl, true, not, ltb, Option, [], ◌∷◌, ◌++◌, arith, length}
use anything_tool.Text.{Bytes, codes, str_eq, starts_with}
use anything_tool.Text.Decimal.{decimal}
use anything_tool.Identity.{Identity}
use anything_tool.Config.{Config}
use anything_tool.Policy.{Policy, is_deny, preflight}
use anything_tool.Policy.Decisions.{preflight-IsPrintable, preflight-reason}
use anything_tool.Approval.{Pending, add}
use anything_tool.Rpc.Request.{
  Request, IsWellFormed, RpcError, invalid_json, invalid_object, invalid_request, invalid_key,
  invalid_shape, duplicate_key, invalid_version, invalid_id, invalid_method, non_object_params,
  invalid_params, invalid_value, invalid_terminator, trailing_data, missing_field, error_text,
}
use anything_tool.Rpc.Parse.{rpc_parse}
use anything_tool.Rpc.Parse.Sound.{rpc_parse-IsWellFormed}
use anything_tool.Rpc.Response.{format_int, rpc_error}
use anything_tool.Rpc.Response.Framed.{
  IsFramed, Escapes, is_literal, is_literal-Escapes, rpc_error-IsFramed,
}
use anything_tool.Daemon.World.{Os, World, write_response, code}
use anything_tool.Daemon.Tool.{
  send_invalid, approval_data, announce, add_pending, deny_tool, apply_policy, deny_control_plane,
  route_tool, handle_tool_request,
}
use anything_tool.Daemon.Replies.Answers.{
  Answers, Answers-write_response, Answers-store, Answers-put, Answers-clock, Answers-if,
  Answers-option, Answers-result, plain_error, literal_error, Answers-logged, approval_data-some,
}

module _ (os : Os) (config : Config) (caller : Identity) (r : Request) (well : IsWellFormed r) where
  id-Escapes : Escapes 128 r.id
  id-Escapes = (well.id_plain, omega (arith, well.id_fits))

  -- An error whose texts are literals.
  reply-Answers :
      (n : ℕ) (kind message : Bytes)
      → is_literal 128 kind ≡ true
      → is_literal 256 message ≡ true
      → ltb (length (format_int (code n))) 16 ≡ true
      → Answers (write_response (rpc_error r.id (code n) kind message []))
  reply-Answers n kind message k m short =
      Answers-write_response _ (literal_error r.id n kind message id-Escapes k m short)

  announce-Answers : (p : Pending) → Answers (announce os config r caller p)
  unfolding announce format_int decimal
  announce-Answers p =
      Answers-option (approval_data p)
        (reply-Answers 32000 (codes "resource_limit") (codes "approval response too large") refl
          refl refl)
        λ text e.
          let (seen, few) = approval_data-some p text e in
          Answers-logged os _ r.id _ id-Escapes (
            Answers-write_response _ (
              rpc_error-IsFramed r.id (code 32010) (codes "approval_required")
                (codes "approval required") text id-Escapes
                (is_literal-Escapes 128 (codes "approval_required") refl)
                (is_literal-Escapes 256 (codes "approval required") refl) seen (omega arith)
                (omega arith)))

  add_pending-Answers : (policy : Policy) → Answers (add_pending os config r policy caller)
  unfolding add_pending format_int decimal
  add_pending-Answers policy = Answers-store _ λ s. Answers-clock os _ λ now.
      Answers-option (add s r policy caller config.approval_ttl_seconds now)
        (reply-Answers 32000 (codes "resource_limit") (codes "approval store full") refl refl refl)
        λ added e. Answers-put added.0 _ (announce-Answers added.1)

  apply_policy-Answers : Answers (apply_policy os config r (preflight config r caller) caller)
  unfolding apply_policy deny_tool format_int decimal
  apply_policy-Answers =
      let policy = preflight config r caller in
      Answers-if (is_deny policy.decision)
        (λ _. Answers-logged os _ r.id _ id-Escapes (
          Answers-write_response _ (
            plain_error r.id 32020 policy.reason (codes "policy denied") id-Escapes
              (
                (preflight-IsPrintable config r caller well.method_plain).reason_plain,
                omega (arith, preflight-reason config r caller),
              )
              (is_literal-Escapes 256 (codes "policy denied") refl) (omega arith))))
        λ _.
          Answers-if (not (str_eq r.method (codes "sys.info")))
            (λ _.
              reply-Answers 32601 (codes "unknown_tool") (codes "unknown method") refl refl refl)
            (λ _. add_pending-Answers policy)

  route_tool-Answers : Answers (route_tool os config r caller)
  unfolding route_tool deny_control_plane format_int decimal
  route_tool-Answers = Answers-logged os _ r.id _ id-Escapes (
      Answers-if (starts_with (codes "approval.") r.method)
        (λ _. Answers-logged os _ r.id _ id-Escapes (
          reply-Answers 32040 (codes "control_plane_denied")
            (codes "approval methods require admin socket") refl refl refl))
        (λ _. apply_policy-Answers))

error_text_short : (e : RpcError) → is_literal 256 (error_text e) ≡ true
unfolding error_text
error_text_short invalid_json = refl
error_text_short invalid_object = refl
error_text_short invalid_request = refl
error_text_short invalid_key = refl
error_text_short invalid_shape = refl
error_text_short duplicate_key = refl
error_text_short invalid_version = refl
error_text_short invalid_id = refl
error_text_short invalid_method = refl
error_text_short non_object_params = refl
error_text_short invalid_params = refl
error_text_short invalid_value = refl
error_text_short invalid_terminator = refl
error_text_short trailing_data = refl
error_text_short missing_field = refl

all_answer :
    (os : Os) (config : Config) (caller : Identity) (body : Bytes)
    → Answers (handle_tool_request os config caller body)
unfolding handle_tool_request send_invalid format_int decimal
all_answer os config caller body =
    Answers-result (rpc_parse body)
      (λ e. Answers-write_response _ (
        literal_error (codes "null") 32600 (codes "invalid_request") (error_text e)
          (is_literal-Escapes 128 (codes "null") refl) refl (error_text_short e) refl))
      λ r parsed. route_tool-Answers os config caller r (rpc_parse-IsWellFormed body r parsed)

-- Whatever an agent sends on the tool plane, and whatever the system calls answer, the response is
-- one whole line in its buffer of 4096 bytes, with no control byte before its newline: never a
-- buffer that nothing was written to, never a cut text.
pub handle_tool_request-IsFramed :
    (os : Os) (config : Config) (caller : Identity) (body : Bytes) (w : World)
    → (response : Option Bytes) × ((handle_tool_request os config caller body w).1.sent
        ≡ w.sent ++ response ∷ [])
      × IsFramed response
handle_tool_request-IsFramed os config caller body w = (all_answer os config caller body).at w
