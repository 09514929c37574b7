-- ===== src/Daemon/Traverse.antt =====
-- What holds of each part of a handler holds of the handlers: a property of actions is shown for
-- the ways in which an action begins, once.
use anything_tool.Base.{
  ℕ, ◌≡◌, refl, Bool, true, false, Option, none, some, not, ◌||◌, ◌==◌, if◌then◌else◌,
}
use anything_tool.Text.{Bytes, codes, str_eq, starts_with}
use anything_tool.Identity.{Identity}
use anything_tool.Config.{Config}
use anything_tool.Config.Admin.{identity_is_admin}
use anything_tool.Policy.{Policy, is_deny, preflight}
use anything_tool.Approval.{
  Store, Refusal, Pending, Found, Attempt, done, refused, add, find, grant, reject,
  validate_for_execute,
}
use anything_tool.Approval.Listing.{approval_list_json}
use anything_tool.Audit.{AuditEvent}
use anything_tool.Audit.Contract.{is_known_event}
use anything_tool.SysInfo.{SysInfo, report, failure}
use anything_tool.Rpc.Param.{extract_param_string}
use anything_tool.Rpc.Request.{Request, Result, ok, err, RpcError}
use anything_tool.Rpc.Parse.{rpc_parse}
use anything_tool.Daemon.World.{
  Os, M, ◌>>=◌, ◌>>◌, skip, on_option, on_attempt, on_result, write_response, get_store, put_store,
  time_now, sys_info, checked_audit,
}
use anything_tool.Daemon.Tool.{
  send_invalid, approval_data, announce, add_pending, deny_tool, apply_policy, deny_control_plane,
  route_tool, handle_tool_request,
}
use anything_tool.Daemon.Admin.{
  pending_to_request, current_hash, reply_error, finish_execution, start_execution, recheck,
  execute_found, handle_admin_execute, handle_list, settle, handle_grant, handle_reject, decide,
  handle_decision, deny_admin, route_admin, handle_admin_request,
}

-- The property of an action that ends in its response, by what the action does first.
pub record Rules (os : Os) (Full : M (Unit {0}) → Type 0) : Type 0 where
  pub store : (k : Store → M (Unit {0})) → ((s : Store) → Full (k s)) → Full (get_store >>= k)
  pub clock : (k : ℕ → M (Unit {0})) → ((now : ℕ) → Full (k now)) → Full (time_now os >>= k)
  pub tool :
      (k : SysInfo → M (Unit {0})) → ((info : SysInfo) → Full (k info)) → Full (sys_info os >>= k)
  pub put : (s : Store) (k : M (Unit {0})) → Full k → Full (put_store s >> k)
  pub reply : (r : Option Bytes) → Full (write_response r)
  pub logged :
      (e : AuditEvent) (id : Bytes) (k : M (Unit {0}))
      → is_known_event e.event ≡ true
      → Full k
      → Full (checked_audit os e id >>= λ logged. if not logged then skip else k)

module _ (Full : M (Unit {0}) → Type 0) where
  if-Full : (b : Bool) {l r : M (Unit {0})} → Full l → Full r → Full (if b then l else r)
  if-Full true h k = h
  if-Full false h k = k

  option-Full :
      {A : Type 0} (o : Option A) {m : M (Unit {0})} {k : A → M (Unit {0})}
      → Full m
      → ((a : A) → Full (k a))
      → Full (on_option o m k)
  option-Full none h k = h
  option-Full (some a) h k = k a

  attempt-Full :
      {A : Type 0} (o : Attempt A) {m : Refusal → M (Unit {0})} {k : A → M (Unit {0})}
      → ((why : Refusal) → Full (m why))
      → ((a : A) → Full (k a))
      → Full (on_attempt o m k)
  attempt-Full (refused why) h k = h why
  attempt-Full (done a) h k = k a

  result-Full :
      {A : Type 0} (o : Result A) {m : RpcError → M (Unit {0})} {k : A → M (Unit {0})}
      → ((e : RpcError) → Full (m e))
      → ((a : A) → Full (k a))
      → Full (on_result o m k)
  result-Full (err e) h k = h e
  result-Full (ok a) h k = k a

module _ (os : Os) (config : Config) (Full : M (Unit {0}) → Type 0) (rules : Rules os Full) where
  announce-Full :
      (r : Request) (caller : Identity) (p : Pending) → Full (announce os config r caller p)
  unfolding announce is_known_event str_eq
  announce-Full r caller p =
      option-Full Full (approval_data p) (rules.reply _)
        (λ text. rules.logged _ r.id _ refl (rules.reply _))

  add_pending-Full :
      (r : Request) (policy : Policy) (caller : Identity)
      → Full (add_pending os config r policy caller)
  unfolding add_pending
  add_pending-Full r policy caller = rules.store _ λ s. rules.clock _ λ now.
      option-Full Full (add s r policy caller config.approval_ttl_seconds now) (rules.reply _)
        (λ added. rules.put added.0 _ (announce-Full r caller added.1))

  apply_policy-Full :
      (r : Request) (policy : Policy) (caller : Identity)
      → Full (apply_policy os config r policy caller)
  unfolding apply_policy deny_tool is_known_event str_eq
  apply_policy-Full r policy caller =
      if-Full Full (is_deny policy.decision) (rules.logged _ r.id _ refl (rules.reply _)) (
        if-Full Full (not (str_eq r.method (codes "sys.info"))) (rules.reply _)
          (add_pending-Full r policy caller))

  pub handle_tool_request-Full :
      (caller : Identity) (body : Bytes) → Full (handle_tool_request os config caller body)
  unfolding handle_tool_request route_tool deny_control_plane send_invalid is_known_event str_eq
  handle_tool_request-Full caller body =
      result-Full Full (rpc_parse body) (λ e. rules.reply _)
        λ r. rules.logged _ r.id _ refl (
          if-Full Full (starts_with (codes "approval.") r.method)
            (rules.logged _ r.id _ refl (rules.reply _))
            (apply_policy-Full r (preflight config r caller) caller))

module _ (os : Os) (config : Config) (caller : Identity) (r : Request)
    (Full : M (Unit {0}) → Type 0) (rules : Rules os Full) where
  reply_error-Full : (n : ℕ) (kind message : Bytes) → Full (reply_error r n kind message)
  unfolding reply_error
  reply_error-Full n kind message = rules.reply _

  settle-Full :
      (a : Attempt Found) (n : ℕ) (message event decision result : Bytes)
      → is_known_event event ≡ true
      → Full (settle os config caller r a n message event decision result)
  unfolding settle
  settle-Full (refused why) n message event decision result known = reply_error-Full n _ message
  settle-Full (done (i, p)) n message event decision result known =
      rules.store _ λ s. rules.put _ _ (rules.logged _ r.id _ known (rules.reply _))

  handle_decision-Full : Full (handle_decision os config caller r)
  unfolding handle_decision decide handle_grant handle_reject is_known_event str_eq
  handle_decision-Full =
      option-Full Full (extract_param_string r.params (codes "request_id") 40)
        (reply_error-Full _ _ _)
        λ id. rules.store _ λ s.
          if-Full Full (str_eq r.method (codes "approval.approve"))
            (rules.clock _ λ now. settle-Full (grant (find s id) caller now) _ _ _ _ _ refl)
            (if-Full Full (str_eq r.method (codes "approval.reject"))
              (settle-Full (reject (find s id) caller) _ _ _ _ _ refl) (reply_error-Full _ _ _))

  finish_execution-Full :
      (f : Found) (info : SysInfo) → Full (finish_execution os config caller r f info)
  unfolding finish_execution is_known_event str_eq
  finish_execution-Full (i, p) (failure why) = rules.logged _ r.id _ refl (reply_error-Full _ _ _)
  finish_execution-Full (i, p) (report result) =
      rules.store _ λ s. rules.put _ _ (rules.logged _ r.id _ refl (rules.reply _))

  recheck-Full : (f : Found) → Full (recheck os config caller r f)
  unfolding recheck start_execution is_known_event str_eq
  recheck-Full (i, p) =
      if-Full Full
        (is_deny (preflight config (pending_to_request p) p.requester).decision
          || not (
              (preflight config (pending_to_request p) p.requester).request_hash == p.request_hash))
        (reply_error-Full _ _ _)
        (rules.logged _ r.id _ refl (rules.tool _ λ info. finish_execution-Full (i, p) info))

  handle_admin_execute-Full : Full (handle_admin_execute os config caller r)
  unfolding handle_admin_execute execute_found
  handle_admin_execute-Full =
      option-Full Full (extract_param_string r.params (codes "request_id") 40)
        (reply_error-Full _ _ _)
        λ id. rules.store _ λ s. rules.clock _ λ now.
          attempt-Full Full (validate_for_execute (find s id) (current_hash (find s id)) now)
            (λ why. reply_error-Full _ _ _) recheck-Full

  route_admin-Full : Full (route_admin os config caller r)
  unfolding route_admin deny_admin handle_list is_known_event str_eq
  route_admin-Full =
      if-Full Full (not (identity_is_admin config caller))
        (rules.logged _ r.id _ refl (reply_error-Full _ _ _))
        (if-Full Full (str_eq r.method (codes "approval.list"))
          (rules.store _ λ s.
            option-Full Full (approval_list_json 4096 s) (reply_error-Full _ _ _)
              (λ result. rules.reply _))
          (if-Full Full (str_eq r.method (codes "approval.execute")) handle_admin_execute-Full
            handle_decision-Full))

pub handle_admin_request-Full :
    (os : Os) (config : Config) (Full : M (Unit {0}) → Type 0) (rules : Rules os Full)
    (caller : Identity) (body : Bytes)
    → Full (handle_admin_request os config caller body)
unfolding handle_admin_request send_invalid
handle_admin_request-Full os config Full rules caller body =
    result-Full Full (rpc_parse body) (λ e. rules.reply _)
      (λ r. route_admin-Full os config caller r Full rules)
