-- ===== src/Daemon/Tool.antt =====
-- handle_tool_request of anythingd.c.
use anything_tool.Base.{not, Option, some, [], ◌++◌, if◌then◌else◌}
use mathlib.Core.Option
use anything_tool.Text.{Bytes, codes, clip, str_eq, starts_with}
use anything_tool.Json.{escape_string}
use anything_tool.Identity.{Identity}
use anything_tool.Config.{Config}
use anything_tool.Policy.{Policy, is_deny, preflight}
use anything_tool.Approval.{Pending, add}
use anything_tool.Rpc.Request.{Request, error_text}
use anything_tool.Rpc.Parse.{rpc_parse}
use anything_tool.Rpc.Response.{rpc_error, format_int}
use anything_tool.Daemon.World.{
  Os, M, ◌>>=◌, ◌>>◌, skip, on_option, on_result, write_response, get_store, put_store, time_now,
  code, checked_audit, plain_event,
}

unfoldable pub send_invalid : Bytes → Bytes → Bytes → M (Unit {0})
send_invalid id kind message = write_response (rpc_error id (code 32600) kind message [])

-- The escaped fields of the approval response, or `none` where one exceeds its buffer.
unfoldable pub approval_data : Pending → Option Bytes
approval_data p = Option.bind (escape_string (some p.request_id) 128) λ id.
    Option.bind (escape_string (some p.risk) 64) λ risk.
      Option.bind (escape_string (some p.summary) 512) λ summary. some (
        clip 768 (
          codes ",\"request_id\":\""
          ++ (id
              ++ (codes "\",\"risk\":\""
                  ++ (risk
                      ++ (codes "\",\"summary\":\""
                          ++ (summary
                              ++ (codes "\",\"expires_at\":" ++ format_int p.expires_at))))))))

module _ (os : Os) (config : Config) where
  -- Behind the new entry: the audit event and the response.
  unfoldable pub announce : Request → Identity → Pending → M (Unit {0})
  announce request caller entry =
      on_option (approval_data entry)
        (write_response (
          rpc_error request.id (code 32000) (codes "resource_limit")
            (codes "approval response too large") []))
        λ text. do
          logged ←
              checked_audit os
                (record (plain_event (codes "approval_required") entry.session_id caller
                  entry.method) {
                    request_id = entry.request_id;
                    risk = entry.risk;
                    decision = codes "approval_required";
                    params_summary = entry.summary;
                  })
                request.id
          if not logged
              then skip
              else write_response (
                  rpc_error request.id (code 32010) (codes "approval_required")
                    (codes "approval required") text)

  unfoldable pub add_pending : Request → Policy → Identity → M (Unit {0})
  add_pending request policy caller = do
    store ← get_store
    now ← time_now os
    on_option (add store request policy caller config.approval_ttl_seconds now)
        (write_response (
          rpc_error request.id (code 32000) (codes "resource_limit") (codes "approval store full")
            []))
        λ added. do put_store added.0; announce request caller added.1

  unfoldable pub deny_tool : Request → Policy → Identity → M (Unit {0})
  deny_tool request policy caller = do
    logged ←
        checked_audit os
          (record (plain_event (codes "preflight_denied") request.session_id caller
            request.method) {
              risk = policy.risk;
              decision = codes "deny";
              error_kind = policy.reason;
              params_summary = policy.summary;
            })
          request.id
    if not logged
        then skip
        else write_response
            (rpc_error request.id (code 32020) policy.reason (codes "policy denied") [])

  unfoldable pub apply_policy : Request → Policy → Identity → M (Unit {0})
  apply_policy request policy caller =
      if is_deny policy.decision
      then deny_tool request policy caller
      else if not (str_eq request.method (codes "sys.info"))
      then write_response
          (rpc_error request.id (code 32601) (codes "unknown_tool") (codes "unknown method") [])
      else add_pending request policy caller

  unfoldable pub deny_control_plane : Request → Identity → M (Unit {0})
  deny_control_plane request caller = do
    logged ←
        checked_audit os
          (record (plain_event (codes "preflight_denied") request.session_id caller
            request.method) {
              risk = codes "denied";
              decision = codes "deny";
              error_kind = codes "control_plane_denied";
              params_summary = codes "agent tool socket cannot access approval methods";
            })
          request.id
    if not logged
        then skip
        else write_response (
            rpc_error request.id (code 32040) (codes "control_plane_denied")
              (codes "approval methods require admin socket") [])

  unfoldable pub route_tool : Request → Identity → M (Unit {0})
  route_tool request caller = do
    logged ←
        checked_audit os
          (record (plain_event (codes "request_received") request.session_id caller
            request.method) {
              decision = codes "received";
              params_summary = codes "bounded request";
            })
          request.id
    if not logged
        then skip
        else if starts_with (codes "approval.") request.method
        then deny_control_plane request caller
        else apply_policy request (preflight config request caller) caller

  unfoldable pub handle_tool_request : Identity → Bytes → M (Unit {0})
  handle_tool_request caller body =
      on_result (rpc_parse body)
        (λ e. send_invalid (codes "null") (codes "invalid_request") (error_text e))
        (λ request. route_tool request caller)
