-- ===== src/Daemon/Steps/Effects.antt =====
-- What the requests of the admin plane bring about, where nothing stands against them.
use anything_tool.Base.{
  ℕ, ap, ◌+◌, ◌≡◌, ◌≢◌, refl, Bool, true, false, not, ◌||◌, ◌==◌, Option, some, [], ◌∷◌, ◌++◌,
  arith, if◌then◌else◌,
}
use anything_tool.Text.{Bytes, codes, str_eq}
use anything_tool.Identity.{Identity}
use anything_tool.Config.{Config}
use anything_tool.Config.Admin.{identity_is_admin}
use anything_tool.Policy.{is_deny, preflight}
use anything_tool.Text.Equal.{str_eq_iff}
use anything_tool.Approval.Attempts.{grant_iff, reject_iff, validate_for_execute_iff}
use anything_tool.Approval.{
  granted, rejected, has_expired, Store, Pending, Status, done, find, write,
}
use anything_tool.Audit.{AuditEvent, audit_write_event}
use anything_tool.SysInfo.{report, sys_info_json}
use anything_tool.Rpc.Param.{extract_param_string}
use anything_tool.Rpc.Request.{Request, ok}
use anything_tool.Rpc.Parse.{rpc_parse}
use anything_tool.Rpc.Response.{rpc_error, rpc_result}
use anything_tool.Daemon.World.{
  Os, World, ◌>>=◌, ◌>>◌, pure, skip, write_response, get_store, put_store, time_now, sys_info,
  code, audit_event, checked_audit,
}
use anything_tool.Daemon.Admin.{
  pending_to_request, entry_event, finish_execution, start_execution, recheck, execute_found,
  handle_admin_execute, current_hash, settle, handle_grant, handle_reject, decide, handle_decision,
  route_admin, handle_admin_request,
}

-- What the peer gets behind an event: the response where the event was written, else an error.
abbrev pub if_logged : Bool → Bytes → Option Bytes → Option Bytes
if_logged true id response = response
if_logged false id response =
    rpc_error id (code 32050) (codes "audit_failed") (codes "audit write failed") []

-- The request leaves this store, what its last event wrote in the log, and one response more.
abbrev pub Leaves : World → World → Store → Bytes × Bool → Bytes → Option Bytes → Type 0
Leaves w v s written id response =
    (v.store ≡ s)
    × (v.log ≡ w.log ++ written.0)
    × (v.sent ≡ w.sent ++ if_logged written.1 id response ∷ [])

logged_response :
    (os : Os) (e : AuditEvent) (id : Bytes) (response : Option Bytes) (w : World)
    → Leaves w
        ((checked_audit os e id >>= λ logged. if not logged then skip else write_response response)
          w).1
        w.store
        (audit_write_event (os.audit w.ticks) e)
        id
        response
unfolding checked_audit audit_event ◌>>=◌ ◌>>◌ pure write_response
logged_response os e id response w = go (audit_write_event (os.audit w.ticks) e).1 refl
  where
    go :
        (b : Bool)
        → (audit_write_event (os.audit w.ticks) e).1 ≡ b
        → Leaves w
            ((checked_audit os e id >>= λ logged.
                if not logged then skip else write_response response)
              w).1
            w.store
            (audit_write_event (os.audit w.ticks) e)
            id
            response
    go true written = rw written (refl, refl, refl)
    go false written = rw written (refl, refl, refl)

module _ (os : Os) (config : Config) (admin : Identity) (r : Request) where
  settle_done :
      (i : ℕ) (p : Pending) (n : ℕ) (message event decision result : Bytes) (w : World)
      → Leaves w
          (settle os config admin r (done (i, p)) n message event decision result w).1
          (write w.store i p)
          (audit_write_event (os.audit w.ticks) (entry_event event p admin decision [] p.summary))
          r.id
          (rpc_result r.id result)
  unfolding settle ◌>>=◌ ◌>>◌ get_store put_store
  settle_done i p n message event decision result w =
      logged_response os (entry_event event p admin decision [] p.summary) r.id
        (rpc_result r.id result) (record w { store = write w.store i p })

-- A request of an admin to approve a waiting entry grants it: where the body is a request for
-- approval.approve whose parameter names an entry of the store that is pending, has not expired by
-- the clock and is not the admin's own, the entry is granted in the store with the admin as its
-- approver, the event of the grant is what is added to the audit log, and the admin is told so.
-- Where the event cannot be written the entry is granted all the same, and the response is the
-- error of the audit log.
pub handle_admin_request-approves :
    (os : Os) (config : Config) (admin : Identity) (body : Bytes) (w : World) (r : Request)
    (id : Bytes) (i : ℕ) (p : Pending)
    → rpc_parse body ≡ ok r
    → identity_is_admin config admin ≡ true
    → r.method ≡ codes "approval.approve"
    → extract_param_string r.params (codes "request_id") 40 ≡ some id
    → find w.store id ≡ some (i, p)
    → p.status ≡ Status.pending
    → has_expired (os.time w.ticks) p ≡ false
    → p.requester ≢ admin
    → Leaves w
        (handle_admin_request os config admin body w).1
        (write w.store i (record p { approver = admin; status = granted }))
        (audit_write_event (os.audit (w.ticks + 1)) (
          entry_event
            (codes "approval_granted")
            (record p { approver = admin; status = granted })
            admin
            (codes "granted")
            []
            p.summary))
        r.id
        (rpc_result r.id (codes "{\"approved\":true}"))
unfolding handle_admin_request route_admin handle_decision decide handle_grant ◌>>=◌ get_store
    time_now str_eq
handle_admin_request-approves os config admin body w r id i p parsed allowed method named found
      waits fresh other =
    let p' : Pending = record p { approver = admin; status = granted } in
    rw
      (
        parsed,
        allowed,
        ap (λ m. str_eq m (codes "approval.list")) method,
        ap (λ m. str_eq m (codes "approval.execute")) method,
        ap (λ m. str_eq m (codes "approval.approve")) method,
        named,
        found,
        (grant_iff i p admin (os.time w.ticks) (i, p')).1 (waits, fresh, other, refl),
      )
      (settle_done os config admin r i p' _ _ _ _ _ (record w { ticks = w.ticks + 1 }))

-- A request of an admin to reject an entry of another requester rejects it, whatever the entry's
-- state and expiry are: where the body is a request for approval.reject whose parameter names an
-- entry of the store that is not the admin's own, the entry is rejected in the store with the
-- admin as its approver, the event of the rejection is what is added to the audit log, and the
-- admin is told so. Where the event cannot be written the entry is rejected all the same, and the
-- response is the error of the audit log.
pub handle_admin_request-rejects :
    (os : Os) (config : Config) (admin : Identity) (body : Bytes) (w : World) (r : Request)
    (id : Bytes) (i : ℕ) (p : Pending)
    → rpc_parse body ≡ ok r
    → identity_is_admin config admin ≡ true
    → r.method ≡ codes "approval.reject"
    → extract_param_string r.params (codes "request_id") 40 ≡ some id
    → find w.store id ≡ some (i, p)
    → p.requester ≢ admin
    → Leaves w
        (handle_admin_request os config admin body w).1
        (write w.store i (record p { approver = admin; status = rejected }))
        (audit_write_event (os.audit w.ticks) (
          entry_event
            (codes "approval_rejected")
            (record p { approver = admin; status = rejected })
            admin
            (codes "rejected")
            []
            p.summary))
        r.id
        (rpc_result r.id (codes "{\"rejected\":true}"))
unfolding handle_admin_request route_admin handle_decision decide handle_reject ◌>>=◌ get_store
    str_eq
handle_admin_request-rejects os config admin body w r id i p parsed allowed method named found
      other =
    let p' : Pending = record p { approver = admin; status = rejected } in
    rw
      (
        parsed,
        allowed,
        ap (λ m. str_eq m (codes "approval.list")) method,
        ap (λ m. str_eq m (codes "approval.execute")) method,
        ap (λ m. str_eq m (codes "approval.approve")) method,
        ap (λ m. str_eq m (codes "approval.reject")) method,
        named,
        found,
        (reject_iff i p admin (i, p')).1 (other, refl),
      )
      (settle_done os config admin r i p' _ _ _ _ _ w)

rechecked :
    (config : Config) (q : Request) (caller : Identity) (hash : ℕ)
    → q.method ≡ codes "sys.info"
    → config.capability_sys_read ≡ true
    → hash ≡ q.request_hash
    → (is_deny (preflight config q caller).decision
        || not ((preflight config q caller).request_hash == hash))
      ≡ false
unfolding preflight
rechecked config q caller hash method on same =
    ground (arith, str_eq_iff q.method (codes "sys.info"))

module _ (os : Os) (config : Config) (admin : Identity) (r : Request) (i : ℕ) (p : Pending) where
  -- The event that is written before the tool runs.
  abbrev pub start_event : AuditEvent
  start_event = entry_event (codes "execution_started") p admin (codes "started") [] p.summary

  -- The event that is written behind the tool.
  abbrev pub finish_event : AuditEvent
  finish_event =
      entry_event (codes "execution_finished") (record p { status = Status.executed }) admin
        (codes "finished") [] p.summary

  finish_done :
      (result : Bytes) (w : World)
      → Leaves w
          (finish_execution os config admin r (i, p) (report result) w).1
          (write w.store i (record p { status = Status.executed }))
          (audit_write_event (os.audit w.ticks) finish_event)
          r.id
          (rpc_result r.id result)
  unfolding finish_execution ◌>>=◌ ◌>>◌ get_store put_store
  finish_done result w =
      logged_response os finish_event r.id (rpc_result r.id result)
        (record w { store = write w.store i (record p { status = Status.executed }) })

  -- What an execution leaves that begins at this call of the system.
  abbrev pub Executes : World → World → ℕ → Bytes → Type 0
  Executes w v t result =
      Leaves (record w { log = w.log ++ (audit_write_event (os.audit t) start_event).0 }) v
        (write w.store i (record p { status = Status.executed }))
        (audit_write_event (os.audit (t + 1 + 1)) finish_event) r.id (rpc_result r.id result)

  start_done :
      (result : Bytes) (w : World)
      → (audit_write_event (os.audit w.ticks) start_event).1 ≡ true
      → sys_info_json 2048 (os.facts (w.ticks + 1)) ≡ report result
      → Executes w (start_execution os config admin r (i, p) w).1 w.ticks result
  unfolding start_execution checked_audit audit_event sys_info ◌>>=◌ pure
  start_done result w logged ran =
      rw (logged, ran)
        (finish_done result (record w {
          log = w.log ++ (audit_write_event (os.audit w.ticks) start_event).0;
          ticks = w.ticks + 1 + 1;
        }))

  recheck_done :
      (result : Bytes) (w : World)
      → (pending_to_request p).method ≡ codes "sys.info"
      → config.capability_sys_read ≡ true
      → p.request_hash ≡ (pending_to_request p).request_hash
      → (audit_write_event (os.audit w.ticks) start_event).1 ≡ true
      → sys_info_json 2048 (os.facts (w.ticks + 1)) ≡ report result
      → Executes w (recheck os config admin r (i, p) w).1 w.ticks result
  unfolding recheck
  recheck_done result w method on hash logged ran =
      rw (rechecked config (pending_to_request p) p.requester p.request_hash method on hash)
        (start_done result w logged ran)

-- A request of an admin to execute an entry runs the tool and marks the entry: where the body is a
-- request for approval.execute whose parameter names an entry that is granted, has not expired by
-- the clock, has the hash of its own fields and is for sys.info with the capability on, and where
-- the event of the start can be written and sys.info gives its report of the system's facts, the
-- entry is executed in the store, the events of the start and of the end are what is added to the
-- audit log, and the response holds that report. Where the last event cannot be written the entry
-- is executed all the same, and the response is the error of the audit log.
pub handle_admin_request-executes :
    (os : Os) (config : Config) (admin : Identity) (body : Bytes) (w : World) (r : Request)
    (id : Bytes) (i : ℕ) (p : Pending) (result : Bytes)
    → rpc_parse body ≡ ok r
    → identity_is_admin config admin ≡ true
    → r.method ≡ codes "approval.execute"
    → extract_param_string r.params (codes "request_id") 40 ≡ some id
    → find w.store id ≡ some (i, p)
    → p.status ≡ granted
    → has_expired (os.time w.ticks) p ≡ false
    → p.request_hash ≡ (pending_to_request p).request_hash
    → (pending_to_request p).method ≡ codes "sys.info"
    → config.capability_sys_read ≡ true
    → (audit_write_event (os.audit (w.ticks + 1)) (start_event os config admin r i p)).1 ≡ true
    → sys_info_json 2048 (os.facts (w.ticks + 1 + 1)) ≡ report result
    → Leaves
        (record w {
          log =
              w.log
              ++ (audit_write_event (os.audit (w.ticks + 1)) (start_event os config admin r i p)).0;
        })
        (handle_admin_request os config admin body w).1
        (write w.store i (record p { status = Status.executed }))
        (audit_write_event (os.audit (w.ticks + 1 + 1 + 1)) (finish_event os config admin r i p))
        r.id
        (rpc_result r.id result)
unfolding handle_admin_request route_admin handle_admin_execute execute_found current_hash ◌>>=◌
    get_store time_now str_eq
handle_admin_request-executes os config admin body w r id i p result parsed allowed method named
      found ready fresh hash sys on logged ran =
    rw
      (
        parsed,
        allowed,
        ap (λ m. str_eq m (codes "approval.list")) method,
        ap (λ m. str_eq m (codes "approval.execute")) method,
        named,
        found,
        (validate_for_execute_iff i p (pending_to_request p).request_hash (os.time w.ticks)
              (i, p)).1
            (ready, fresh, hash, refl),
      )
      (recheck_done os config admin r i p result (record w { ticks = w.ticks + 1 }) sys on hash
        logged ran)
