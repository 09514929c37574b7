-- ===== src/Daemon/Steps/Tool.antt =====
-- handle_tool_request implements the steps of the agent plane.
use anything_tool.Base.{ℕ, ◌+◌, ◌≡◌, refl, true, not, some}
use anything_tool.Text.{Bytes, codes, str_eq, starts_with}
use anything_tool.Identity.{Identity}
use anything_tool.Config.{Config}
use anything_tool.Policy.{Policy, is_deny, preflight}
use anything_tool.Policy.Decisions.{preflight-not_deny, preflight-method}
use anything_tool.Approval.{Store, Pending, add}
use anything_tool.Rpc.Request.{ok, Request}
use anything_tool.Rpc.Parse.{rpc_parse}
use anything_tool.Rpc.Parse.Sound.{rpc_parse-IsWellFormed}
use anything_tool.Daemon.World.{Os, World}
use anything_tool.Daemon.Tool.{
  approval_data, send_invalid, announce, add_pending, deny_tool, apply_policy, deny_control_plane,
  route_tool, handle_tool_request,
}
use anything_tool.Daemon.Keeps.{
  Leads, Same, Leads-put, Leads-option, Leads-logged, Leads-write_response,
}
use anything_tool.Daemon.Timed.{
  Timed, Timed-Leads, Timed-get, Timed-now, Timed-if, Timed-result, Timed-logged,
}
use anything_tool.Daemon.Steps.Taken.{add-Takes}
use anything_tool.Daemon.Steps.{ToolStep, stay, submit}

module _ (os : Os) (config : Config) where
  module _ {Q : Store → Type 0} (s : Store) (q : Q s) where
    pub announce-Leads :
        (r : Request) (caller : Identity) (p : Pending)
        → Leads (Same s) Q (announce os config r caller p)
    unfolding announce
    announce-Leads r caller p =
        Leads-option s (approval_data p) (Leads-write_response s _ q)
          λ text e. Leads-logged os s _ r.id q (Leads-write_response s _ q)

  module _ {Q : Store → Type 0} (s : Store) (q : Q s) where
    deny_tool-Leads :
        (r : Request) (policy : Policy) (caller : Identity)
        → Leads (Same s) Q (deny_tool os config r policy caller)
    unfolding deny_tool
    deny_tool-Leads r policy caller = Leads-logged os s _ r.id q (Leads-write_response s _ q)

    deny_control_plane-Leads :
        (r : Request) (caller : Identity) → Leads (Same s) Q (deny_control_plane os config r caller)
    unfolding deny_control_plane
    deny_control_plane-Leads r caller = Leads-logged os s _ r.id q (Leads-write_response s _ q)

    add_pending-Timed :
        (r : Request) (policy : Policy) (caller : Identity) (now : ℕ)
        → ((t : Store) (p : Pending)
            → add s r policy caller config.approval_ttl_seconds (os.time now) ≡ some (t, p)
            → Q t)
        → Timed s now Q (add_pending os config r policy caller)
    unfolding add_pending
    add_pending-Timed r policy caller now h = Timed-get s now _ (
        Timed-now s now os _ (
          Leads-option s (add s r policy caller config.approval_ttl_seconds (os.time now))
            (Leads-write_response s _ q)
            λ added e.
              Leads-put s added.0 (announce-Leads added.0 (h added.0 added.1 e) r caller added.1)))

  module _ (s : Store) (caller : Identity) (body : Bytes) where
    apply_policy-ToolStep :
        (r : Request) (now : ℕ)
        → rpc_parse body ≡ ok r
        → Timed s now
            (ToolStep config caller body (os.time now) s)
            (apply_policy os config r (preflight config r caller) caller)
    unfolding apply_policy
    apply_policy-ToolStep r now parsed =
        Timed-if s now (is_deny (preflight config r caller).decision)
          (λ _.
            Timed-Leads s now (deny_tool-Leads s (stay refl) r (preflight config r caller) caller))
          λ waits.
            Timed-if s now (not (str_eq r.method (codes "sys.info")))
              (λ _. Timed-Leads s now (Leads-write_response s _ (stay refl)))
              λ same.
                add_pending-Timed s (stay refl) r (preflight config r caller) caller now
                  λ t p added.
                    let method : r.method ≡ codes "sys.info" =
                      preflight-method config r caller waits in
                    let on : config.capability_sys_read ≡ true =
                      preflight-not_deny config r caller waits in
                    submit r parsed method on (
                      add-Takes config caller r (os.time now) s t p
                        (rpc_parse-IsWellFormed body r parsed) method on added)

    route_tool-ToolStep :
        (r : Request) (now : ℕ)
        → rpc_parse body ≡ ok r
        → Timed s now
            (ToolStep config caller body (os.time (now + 1)) s)
            (route_tool os config r caller)
    unfolding route_tool
    route_tool-ToolStep r now parsed = Timed-logged s now os _ r.id (stay refl) (
        Timed-if s (now + 1) (starts_with (codes "approval.") r.method)
          (λ _. Timed-Leads s (now + 1) (deny_control_plane-Leads s (stay refl) r caller))
          (λ _. apply_policy-ToolStep r (now + 1) parsed))

    handle_tool_request-Timed :
        (now : ℕ)
        → Timed s now
            (ToolStep config caller body (os.time (now + 1)) s)
            (handle_tool_request os config caller body)
    unfolding handle_tool_request send_invalid
    handle_tool_request-Timed now =
        Timed-result s now (rpc_parse body)
          (λ e. Timed-Leads s now (Leads-write_response s _ (stay refl)))
          λ r parsed. route_tool-ToolStep r now parsed

-- Whatever an agent sends, and whatever the system calls answer, the request leaves the store as
-- it was or, where the body is a request for sys.info, the capability is on and the store has less
-- than 64 entries, appends one entry for it: a pending one with the caller as its requester, no
-- approver, the next id and the request's own hash, session, method and parameters, which expires
-- the configured time after what the clock shows at the request's second call of the system.
pub handle_tool_request-ToolStep :
    (os : Os) (config : Config) (caller : Identity) (body : Bytes) (w : World)
    → ToolStep config caller body
        (os.time (w.ticks + 1))
        w.store
        (handle_tool_request os config caller body w).1.store
handle_tool_request-ToolStep os config caller body w =
    (handle_tool_request-Timed os config w.store caller body w.ticks).at w refl refl
