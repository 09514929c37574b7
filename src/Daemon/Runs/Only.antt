-- ===== src/Daemon/Runs/Only.antt =====
-- The tool runs only for an admin, an entry that is granted, and an event that says so.
use anything_tool.Base.{
  ℕ, ◌+◌, ◌≡◌, refl, sym, subst, ap, true, false, not, ◌||◌, ◌==◌, ◌⊎◌, inl, inr, Option, none,
  some, arith, Bool-cases,
}
use anything_tool.Text.{Bytes, codes, str_eq}
use anything_tool.Text.Equal.{str_eq_iff}
use anything_tool.Identity.{Identity}
use anything_tool.Config.{Config}
use anything_tool.Config.Admin.{identity_is_admin}
use anything_tool.Policy.{is_deny, preflight}
use anything_tool.Policy.Decisions.{preflight-not_deny, preflight-method}
use anything_tool.Approval.{granted, Pending, Found, done, find, validate_for_execute, has_expired}
use anything_tool.Approval.Attempts.{validate-none, validate_for_execute_iff}
use anything_tool.Audit.{audit_write_event}
use anything_tool.SysInfo.{SystemFacts}
use anything_tool.Rpc.Param.{extract_param_string}
use anything_tool.Rpc.Request.{Request, ok}
use anything_tool.Rpc.Parse.{rpc_parse}
use anything_tool.Daemon.World.{
  Os, World, M, ◌>>=◌, ◌>>◌, pure, get_store, time_now, audit_event, checked_audit,
}
use anything_tool.Daemon.Admin.{
  pending_to_request, current_hash, start_execution, recheck, execute_found, handle_admin_execute,
  route_admin, handle_admin_request,
}
use anything_tool.Daemon.Steps.Effects.{start_event}
use anything_tool.Daemon.Serve.{Plane, tool, admin, handle}
use anything_tool.Daemon.Runs.{
  with_facts, handle_tool_request_blind, handle_decision_blind, deny_admin_blind, handle_list_blind,
}
use anything_tool.Daemon.Runs.Agree.{
  Agree, both, holds, if-Agree, option-Agree, attempt-Agree, result-Agree, moved,
}

-- What has to be so for the tool to run, by the request and the entry.
pub record MayRun (os : Os) (config : Config) (caller : Identity) (body : Bytes) (w : World)
    : Type 0 where
  pub request : Request
  pub parsed : rpc_parse body ≡ ok request
  pub allowed : identity_is_admin config caller ≡ true
  pub asked : request.method ≡ codes "approval.execute"
  pub id : Bytes
  pub named : extract_param_string request.params (codes "request_id") 40 ≡ some id
  pub index : ℕ
  pub entry : Pending
  pub found : find w.store id ≡ some (index, entry)
  pub ready : entry.status ≡ granted
  pub fresh : has_expired (os.time w.ticks) entry ≡ false
  pub hash_kept : entry.request_hash ≡ (pending_to_request entry).request_hash
  pub tool_named : (pending_to_request entry).method ≡ codes "sys.info"
  pub capability : config.capability_sys_read ≡ true
  pub logged :
      (audit_write_event
        (os.audit (w.ticks + 1))
        (start_event os config caller request index entry)).1
      ≡ true

module _ (os : Os) (facts : ℕ → SystemFacts) (config : Config) (caller : Identity) where
  start_execution-Agree :
      (C : Type 0) (r : Request) (i : ℕ) (p : Pending) (w : World)
      → ((audit_write_event (os.audit w.ticks) (start_event os config caller r i p)).1 ≡ true → C)
      → Agree C
          (start_execution os config caller r (i, p))
          (start_execution (with_facts os facts) config caller r (i, p))
          w
  unfolding start_execution checked_audit audit_event ◌>>=◌ ◌>>◌ pure
  start_execution-Agree C r i p w h =
      elim (Bool-cases
        (audit_write_event (os.audit w.ticks) (start_event os config caller r i p)).1) [
          | inl wrote ↦ holds (h wrote)
          | inr failed ↦ both (rw failed refl)
        ]

  recheck-Agree :
      (C : Type 0) (r : Request) (i : ℕ) (p : Pending) (w : World)
      → ((pending_to_request p).method ≡ codes "sys.info"
          → config.capability_sys_read ≡ true
          → (audit_write_event (os.audit w.ticks) (start_event os config caller r i p)).1 ≡ true
          → C)
      → Agree C
          (recheck os config caller r (i, p))
          (recheck (with_facts os facts) config caller r (i, p))
          w
  unfolding recheck
  recheck-Agree C r i p w h =
      if-Agree w
        (is_deny (preflight config (pending_to_request p) p.requester).decision
          || not (
              (preflight config (pending_to_request p) p.requester).request_hash == p.request_hash))
        (λ _. both refl)
        λ passed. start_execution-Agree C r i p w (
          h (preflight-method config (pending_to_request p) p.requester (ground arith))
            (preflight-not_deny config (pending_to_request p) p.requester (ground arith)))

  module _ (body : Bytes) (w : World) (r : Request) (parsed : rpc_parse body ≡ ok r)
      (allowed : identity_is_admin config caller ≡ true)
      (asked : r.method ≡ codes "approval.execute") (id : Bytes)
      (named : extract_param_string r.params (codes "request_id") 40 ≡ some id) where
    found-Agree :
        (f : Option Found) (p : Found) (now : ℕ)
        → find w.store id ≡ f
        → now ≡ os.time w.ticks
        → validate_for_execute f (current_hash f) now ≡ done p
        → Agree
            (MayRun os config caller body w)
            (recheck os config caller r p)
            (recheck (with_facts os facts) config caller r p)
            (record w { ticks = w.ticks + 1 })
    unfolding current_hash
    found-Agree none p now found clock valid = absurd (validate-none _ now p valid)
    found-Agree (some (i, q)) p now found clock valid =
        let (ready, fresh, hash, made) =
          (validate_for_execute_iff i q (pending_to_request q).request_hash now p).0 valid in
        subst
          (λ f.
            Agree (MayRun os config caller body w) (recheck os config caller r f)
              (recheck (with_facts os facts) config caller r f) (record w { ticks = w.ticks + 1 }))
          (sym made)
          (recheck-Agree (MayRun os config caller body w) r i q (record w { ticks = w.ticks + 1 })
            (λ sys on wrote. record {
              request = r;
              parsed = parsed;
              allowed = allowed;
              asked = asked;
              id = id;
              named = named;
              index = i;
              entry = q;
              found = found;
              ready = ready;
              fresh = subst (λ t. has_expired t q ≡ false) clock fresh;
              hash_kept = hash;
              tool_named = sys;
              capability = on;
              logged = wrote;
            }))

    execute_found-Agree :
        (f : Option Found)
        → find w.store id ≡ f
        → Agree
            (MayRun os config caller body w)
            (execute_found os config caller r f)
            (execute_found (with_facts os facts) config caller r f)
            w
    unfolding execute_found time_now ◌>>=◌
    execute_found-Agree f found = moved refl refl (
        attempt-Agree (record w { ticks = w.ticks + 1 })
          (validate_for_execute f (current_hash f) (os.time w.ticks)) (λ why. both refl)
          (λ p valid. found-Agree f p (os.time w.ticks) found refl valid))

  module _ (body : Bytes) (w : World) (r : Request) (parsed : rpc_parse body ≡ ok r)
      (allowed : identity_is_admin config caller ≡ true)
      (asked : r.method ≡ codes "approval.execute") where
    handle_admin_execute-Agree :
        Agree
          (MayRun os config caller body w)
          (handle_admin_execute os config caller r)
          (handle_admin_execute (with_facts os facts) config caller r)
          w
    unfolding handle_admin_execute get_store ◌>>=◌
    handle_admin_execute-Agree =
        option-Agree w (extract_param_string r.params (codes "request_id") 40) (both refl)
          (λ id named.
            moved refl refl
              (execute_found-Agree body w r parsed allowed asked id named (find w.store id) refl))

  handle_admin_request-Agree :
      (body : Bytes) (w : World)
      → Agree
          (MayRun os config caller body w)
          (handle_admin_request os config caller body)
          (handle_admin_request (with_facts os facts) config caller body)
          w
  unfolding handle_admin_request route_admin
  handle_admin_request-Agree body w =
      result-Agree w (rpc_parse body) (λ e. both refl)
        λ r parsed.
          if-Agree w (not (identity_is_admin config caller))
            (λ _. both (ap (λ (m : M (Unit {0})). m w) (deny_admin_blind os facts config caller r)))
            λ listed.
              if-Agree w (str_eq r.method (codes "approval.list"))
                (λ _.
                  both
                    (ap (λ (m : M (Unit {0})). m w) (handle_list_blind os facts config caller r)))
                λ _.
                  if-Agree w (str_eq r.method (codes "approval.execute"))
                    (λ asked.
                      handle_admin_execute-Agree body w r parsed (ground arith)
                        ((str_eq_iff r.method (codes "approval.execute")).0 asked))
                    (λ _. both (
                      ap (λ (m : M (Unit {0})). m w)
                        (handle_decision_blind os facts config caller r)))

-- A request runs the tool only in one case. Unless it came in on the admin plane, from an admin of
-- the configuration, asks to execute an entry that its parameter names and that is granted, has not
-- expired, has the hash of its own fields and is for sys.info with the capability on, and the event
-- of the start was written to the audit log, all that it does is the same whatever the system's
-- facts are: the store, the log, the responses.
pub handle-runs :
    (os : Os) (facts : ℕ → SystemFacts) (config : Config) (plane : Plane) (peer : Identity)
    (body : Bytes) (w : World)
    → (handle os config plane peer body w ≡ handle (with_facts os facts) config plane peer body w)
      ⊎ ((plane ≡ admin) × MayRun os config peer body w)
unfolding handle
handle-runs os facts config tool peer body w =
    inl (ap (λ (m : M (Unit {0})). (m w).1) (handle_tool_request_blind os facts config peer body))
handle-runs os facts config admin peer body w =
    elim (handle_admin_request-Agree os facts config peer body w) [
      | both same ↦ inl (ap (λ (x : Unit {0} × World). x.1) same)
      | holds c ↦ inr (refl, c)
    ]
