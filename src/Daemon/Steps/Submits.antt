-- ===== src/Daemon/Steps/Submits.antt =====
-- What a request of the tool plane brings about, where nothing stands against it.
use anything_tool.Base.{ℕ, ap, ◌+◌, ◌<◌, ◌≡◌, refl, sym, subst, length, true, false, some, arith}
use anything_tool.Text.{Bytes, codes, str_eq, starts_with}
use anything_tool.Identity.{Identity}
use anything_tool.Config.{Config}
use anything_tool.Policy.{is_deny, preflight}
use anything_tool.Text.Equal.{str_eq_iff}
use anything_tool.Approval.{Store, Pending, add}
use anything_tool.Audit.{AuditEvent, audit_write_event}
use anything_tool.Rpc.Request.{Request, ok}
use anything_tool.Rpc.Parse.{rpc_parse}
use anything_tool.Daemon.World.{Os, World, ◌>>=◌, get_store, time_now, checked_audit, plain_event}
use anything_tool.Daemon.Tool.{announce, add_pending, apply_policy, route_tool, handle_tool_request}
use anything_tool.Approval.Sound.{add_room}
use anything_tool.Rpc.Parse.Sound.{rpc_parse-IsWellFormed}
use anything_tool.Daemon.Steps.{Takes}
use anything_tool.Daemon.Steps.Taken.{add-Takes}
use anything_tool.Daemon.Steps.Tool.{announce-Leads}
use anything_tool.Daemon.World.{◌>>◌, put_store, audit_event, pure}

waits :
    (config : Config) (q : Request) (caller : Identity)
    → q.method ≡ codes "sys.info"
    → config.capability_sys_read ≡ true
    → is_deny (preflight config q caller).decision ≡ false
unfolding preflight
waits config q caller method on = ground (arith, str_eq_iff q.method (codes "sys.info"))

module _ (os : Os) (config : Config) (caller : Identity) (r : Request) where
  -- The event that is written before a request is looked at.
  abbrev pub received_event : AuditEvent
  received_event = record (plain_event (codes "request_received") r.session_id caller r.method) {
    decision = codes "received";
    params_summary = codes "bounded request";
  }

  announce_done : (p : Pending) (w : World) → (announce os config r caller p w).1.store ≡ w.store
  announce_done p w =
      (announce-Leads os config {Q = λ t. t ≡ w.store} w.store refl r caller p).at w refl

stored :
    (os : Os) (config : Config) (caller : Identity) (body : Bytes) (w : World) (r : Request)
    (s : Store) (p : Pending)
    → rpc_parse body ≡ ok r
    → (audit_write_event (os.audit w.ticks) (received_event os config caller r)).1 ≡ true
    → r.method ≡ codes "sys.info"
    → config.capability_sys_read ≡ true
    → add w.store r
        (preflight config r caller)
        caller
        config.approval_ttl_seconds
        (os.time (w.ticks + 1))
      ≡ some (s, p)
    → (handle_tool_request os config caller body w).1.store ≡ s
unfolding handle_tool_request route_tool apply_policy add_pending checked_audit audit_event
    put_store ◌>>=◌ ◌>>◌ get_store time_now pure starts_with str_eq
stored os config caller body w r s p parsed logged method on added = rw (
  parsed,
  logged,
  waits config r caller method on,
  ap (λ m. starts_with (codes "approval.") m) method,
  ap (λ m. str_eq m (codes "sys.info")) method,
  added,
  announce_done,
)

-- A request of an agent for sys.info waits for an approval: where the body is such a request, the
-- capability is on, its first event can be written and the store has less than 64 entries, the
-- store has one entry more, at its end: a pending one of the caller with the request's own hash,
-- session, method and parameters, which expires the configured time after what the clock shows.
-- This holds whether or not the second event can be written.
pub handle_tool_request-submits :
    (os : Os) (config : Config) (caller : Identity) (body : Bytes) (w : World) (r : Request)
    → rpc_parse body ≡ ok r
    → (audit_write_event (os.audit w.ticks) (received_event os config caller r)).1 ≡ true
    → r.method ≡ codes "sys.info"
    → config.capability_sys_read ≡ true
    → length w.store.entries < 64
    → Takes config caller r
        (os.time (w.ticks + 1))
        w.store
        (handle_tool_request os config caller body w).1.store
handle_tool_request-submits os config caller body w r parsed logged method on room =
    let now : ℕ = os.time (w.ticks + 1) in
    let (s, p, added) =
      add_room w.store r (preflight config r caller) caller config.approval_ttl_seconds now room in
    subst (Takes config caller r now w.store)
      (sym (stored os config caller body w r s p parsed logged method on added))
      (add-Takes config caller r now w.store s p (rpc_parse-IsWellFormed body r parsed) method on
        added)
