-- ===== src/Daemon/Admin.antt =====
-- handle_admin_request and handle_admin_execute of anythingd.c.
use anything_tool.Base.{ℕ, not, ◌||◌, ◌==◌, Option, none, some, [], if◌then◌else◌}
use anything_tool.Text.{Bytes, codes, clip, str_eq}
use anything_tool.Identity.{Identity}
use anything_tool.Config.{Config}
use anything_tool.Config.Admin.{identity_is_admin}
use anything_tool.Policy.{is_deny, preflight}
use anything_tool.Approval.{
  Pending, Status, Found, find, write, Attempt, done, refused, kind_text, grant, reject,
  validate_for_execute,
}
use anything_tool.Approval.Listing.{approval_list_json}
use anything_tool.Audit.{AuditEvent}
use anything_tool.SysInfo.{SysInfo, report, failure}
use anything_tool.Rpc.Hash.{hash_request}
use anything_tool.Rpc.Param.{extract_param_string}
use anything_tool.Rpc.Request.{Request, error_text}
use anything_tool.Rpc.Parse.{rpc_parse}
use anything_tool.Rpc.Response.{rpc_error, rpc_result}
use anything_tool.Daemon.World.{
  Os, M, ◌>>=◌, ◌>>◌, skip, on_option, on_attempt, on_result, write_response, get_store, put_store,
  time_now, sys_info, code, checked_audit, plain_event,
}
use anything_tool.Daemon.Tool.{send_invalid}

-- The request that the entry was made from, with its hash computed anew.
unfoldable pub pending_to_request : Pending → Request
pending_to_request p =
    let method = clip 64 p.method in
    let params = clip 1024 p.params in
    let session = clip 64 p.session_id in
    record {
      id = clip 64 p.request_id;
      method = method;
      session_id = session;
      params = params;
      request_hash = hash_request method params session;
    }

-- 0 where there is no entry.
unfoldable pub current_hash : Option Found → ℕ
unfolding pending_to_request
current_hash none = 0
current_hash (some (i, p)) = (pending_to_request p).request_hash

-- An event about an entry, on behalf of its requester, by an admin.
abbrev pub entry_event : Bytes → Pending → Identity → Bytes → Bytes → Bytes → AuditEvent
entry_event event p admin decision error_kind summary = record {
  event = event;
  request_id = p.request_id;
  session_id = p.session_id;
  caller = p.requester;
  approver = some admin;
  method = p.method;
  risk = p.risk;
  decision = decision;
  error_kind = error_kind;
  params_summary = summary;
  duration_ms = 0;
}

unfoldable pub reply_error : Request → ℕ → Bytes → Bytes → M (Unit {0})
reply_error request n kind message = write_response (rpc_error request.id (code n) kind message [])

module _ (os : Os) (config : Config) (admin : Identity) (request : Request) where
  -- Behind sys.info: the entry is marked before the last event is written.
  unfoldable pub finish_execution : Found → SysInfo → M (Unit {0})
  finish_execution (i, p) (failure why) = do
    logged ←
        checked_audit os
          (entry_event (codes "execution_failed") p admin (codes "failed")
            (codes "execution_failed") why)
          request.id
    if not logged then skip else reply_error request 32030 (codes "execution_failed") why
  finish_execution (i, p) (report result) = do
    store ← get_store
    let p' = record p { status = Status.executed }
    put_store (write store i p')
    logged ←
        checked_audit os
          (entry_event (codes "execution_finished") p' admin (codes "finished") [] p'.summary)
          request.id
    if not logged then skip else write_response (rpc_result request.id result)

  unfoldable pub start_execution : Found → M (Unit {0})
  start_execution (i, p) = do
    logged ←
        checked_audit os
          (entry_event (codes "execution_started") p admin (codes "started") [] p.summary)
          request.id
    if not logged then skip else do info ← sys_info os; finish_execution (i, p) info

  unfoldable pub recheck : Found → M (Unit {0})
  recheck (i, p) =
      let policy = preflight config (pending_to_request p) p.requester in
      if is_deny policy.decision || not (policy.request_hash == p.request_hash)
      then reply_error request 32021 (codes "policy_denied") (codes "policy recheck failed")
      else start_execution (i, p)

  unfoldable pub execute_found : Option Found → M (Unit {0})
  execute_found found = do
    now ← time_now os
    on_attempt (validate_for_execute found (current_hash found) now)
        (λ why. reply_error request 32011 (kind_text why) (codes "approval cannot execute")) recheck

  unfoldable pub handle_admin_execute : M (Unit {0})
  handle_admin_execute =
      on_option (extract_param_string request.params (codes "request_id") 40)
        (reply_error request 32602 (codes "invalid_params") (codes "request_id is required"))
        λ request_id. do store ← get_store; execute_found (find store request_id)

  unfoldable pub handle_list : M (Unit {0})
  handle_list = do
    store ← get_store
    on_option (approval_list_json 4096 store)
        (reply_error request 32000 (codes "resource_limit") (codes "pending list too large"))
        (λ result. write_response (rpc_result request.id result))

  -- The entry is changed in the store before the event is written.
  unfoldable pub settle : Attempt Found → ℕ → Bytes → Bytes → Bytes → Bytes → M (Unit {0})
  settle (refused why) n message event decision result =
      reply_error request n (kind_text why) message
  settle (done (i, p)) n message event decision result = do
    store ← get_store
    put_store (write store i p)
    logged ← checked_audit os (entry_event event p admin decision [] p.summary) request.id
    if not logged then skip else write_response (rpc_result request.id result)

  unfoldable pub handle_grant : Option Found → M (Unit {0})
  handle_grant found = do
    now ← time_now os
    settle (grant found admin now) 32012 (codes "approval denied") (codes "approval_granted")
        (codes "granted") (codes "{\"approved\":true}")

  unfoldable pub handle_reject : Option Found → M (Unit {0})
  handle_reject found =
      settle (reject found admin) 32013 (codes "approval rejection failed")
        (codes "approval_rejected") (codes "rejected") (codes "{\"rejected\":true}")

  unfoldable pub decide : Option Found → M (Unit {0})
  decide found =
      if str_eq request.method (codes "approval.approve")
      then handle_grant found
      else if str_eq request.method (codes "approval.reject")
      then handle_reject found
      else reply_error request 32601 (codes "unknown_tool") (codes "unknown admin method")

  unfoldable pub handle_decision : M (Unit {0})
  handle_decision =
      on_option (extract_param_string request.params (codes "request_id") 40)
        (reply_error request 32602 (codes "invalid_params") (codes "request_id is required"))
        λ request_id. do store ← get_store; decide (find store request_id)

  unfoldable pub deny_admin : M (Unit {0})
  deny_admin = do
    logged ←
        checked_audit os
          (record (plain_event (codes "preflight_denied") request.session_id admin request.method) {
            risk = codes "denied";
            decision = codes "deny";
            error_kind = codes "control_plane_denied";
            params_summary = codes "admin caller is not in allowlist";
          })
          request.id
    if not logged
        then skip
        else reply_error request 32040 (codes "control_plane_denied")
            (codes "admin caller is not authorized")

  unfoldable pub route_admin : M (Unit {0})
  route_admin =
      if not (identity_is_admin config admin)
      then deny_admin
      else if str_eq request.method (codes "approval.list")
      then handle_list
      else if str_eq request.method (codes "approval.execute")
      then handle_admin_execute
      else handle_decision

unfoldable pub handle_admin_request : Os → Config → Identity → Bytes → M (Unit {0})
handle_admin_request os config admin body =
    on_result (rpc_parse body)
      (λ e. send_invalid (codes "null") (codes "invalid_request") (error_text e))
      (λ request. route_admin os config admin request)
