-- ===== src/Daemon/Runs.antt =====
-- When the tool runs: what a request does without it, whatever uname and the two files would give.
pub mod Agree
pub mod Only
use anything_tool.Base.{ℕ, ◌≡◌, refl}
use anything_tool.Text.{Bytes}
use anything_tool.Identity.{Identity}
use anything_tool.Config.{Config}
use anything_tool.Rpc.Request.{Request}
use anything_tool.SysInfo.{SystemFacts}
use anything_tool.Daemon.World.{
  Os, World, M, ◌>>=◌, ◌>>◌, pure, write_response, get_store, put_store, time_now, audit_event,
  checked_audit,
}
use anything_tool.Daemon.Tool.{
  send_invalid, announce, add_pending, deny_tool, apply_policy, deny_control_plane, route_tool,
  handle_tool_request,
}
use anything_tool.Daemon.Admin.{
  settle, handle_grant, handle_reject, decide, handle_decision, deny_admin, handle_list,
}

-- The system with other facts.
abbrev pub with_facts : Os → (ℕ → SystemFacts) → Os
with_facts os facts = record os { facts = facts }

module _ (os : Os) (facts : ℕ → SystemFacts) (config : Config) (caller : Identity) where
  pub handle_tool_request_blind :
      (body : Bytes)
      → handle_tool_request os config caller body
        ≡ handle_tool_request (with_facts os facts) config caller body
  unfolding handle_tool_request route_tool apply_policy add_pending announce deny_tool
      deny_control_plane checked_audit audit_event time_now
  handle_tool_request_blind body = refl

  pub handle_decision_blind :
      (r : Request)
      → handle_decision os config caller r ≡ handle_decision (with_facts os facts) config caller r
  unfolding handle_decision decide handle_grant handle_reject settle checked_audit audit_event
      time_now
  handle_decision_blind r = refl

  pub deny_admin_blind :
      (r : Request)
      → deny_admin os config caller r ≡ deny_admin (with_facts os facts) config caller r
  unfolding deny_admin checked_audit audit_event
  deny_admin_blind r = refl

  pub handle_list_blind :
      (r : Request)
      → handle_list os config caller r ≡ handle_list (with_facts os facts) config caller r
  unfolding handle_list
  handle_list_blind r = refl
