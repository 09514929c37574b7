-- ===== src/Daemon/Steps/Admin.antt =====
-- handle_admin_request implements the steps of the admin plane.
use anything_tool.Base.{
  ℕ, ◌≡◌, refl, sym, ap, subst, true, false, not, ◌||◌, ◌==◌, Option, none, some, arith, get_elem?,
}
use anything_tool.Text.{Bytes, codes, str_eq}
use anything_tool.Identity.{Identity}
use anything_tool.Config.{Config}
use anything_tool.Config.Admin.{identity_is_admin}
use anything_tool.Policy.{is_deny, preflight}
use anything_tool.Policy.Decisions.{preflight-not_deny, preflight-method}
use anything_tool.Approval.{
  granted, executed, Store, Pending, Found, Attempt, done, refused, find, write, grant, reject,
  validate_for_execute, has_expired,
}
use anything_tool.Approval.Listing.{approval_list_json}
use anything_tool.Approval.Sound.{Points, find-Points}
use anything_tool.Approval.Attempts.{validate-none, grant_iff, reject_iff, validate_for_execute_iff}
use anything_tool.SysInfo.{SysInfo, report, failure}
use anything_tool.Rpc.Param.{extract_param_string}
use anything_tool.Rpc.Request.{Request}
use anything_tool.Rpc.Parse.{rpc_parse}
use anything_tool.Daemon.World.{Os, World}
use anything_tool.Daemon.Tool.{send_invalid}
use anything_tool.Daemon.Admin.{
  pending_to_request, current_hash, reply_error, finish_execution, start_execution, recheck,
  execute_found, handle_admin_execute, handle_list, settle, handle_grant, handle_reject, decide,
  handle_decision, deny_admin, route_admin, handle_admin_request,
}
use anything_tool.Daemon.Keeps.{
  Keeps-sys_info, Leads, Same, Leads-get, Leads-put, Leads-bind, Leads-if, Leads-option,
  Leads-attempt, Leads-logged, Leads-write_response,
}
use anything_tool.Daemon.Timed.{
  Timed, Timed-Leads, Timed-get, Timed-now, Timed-if, Timed-option, Timed-result,
}
use anything_tool.Daemon.Steps.{AdminStep, idle, approve, turn_down, execute}

module _ (os : Os) (config : Config) (admin : Identity) (r : Request) where
  reply_error-Leads :
      {Q : Store → Type 0} (s : Store) (n : ℕ) (kind message : Bytes)
      → Q s
      → Leads (Same s) Q (reply_error r n kind message)
  unfolding reply_error
  reply_error-Leads s n kind message q = Leads-write_response s _ q

  deny_admin-Leads :
      {Q : Store → Type 0} (s : Store) → Q s → Leads (Same s) Q (deny_admin os config admin r)
  unfolding deny_admin
  deny_admin-Leads s q = Leads-logged os s _ r.id q (reply_error-Leads s _ _ _ q)

  handle_list-Leads :
      {Q : Store → Type 0} (s : Store) → Q s → Leads (Same s) Q (handle_list os config admin r)
  unfolding handle_list
  handle_list-Leads s q = Leads-get s _ (
      Leads-option s (approval_list_json 4096 s) (reply_error-Leads s _ _ _ q)
        λ result e. Leads-write_response s _ q)

  -- A change through a pointer, where it is made.
  settle-Leads :
      {Q : Store → Type 0} (s : Store) (attempt : Attempt Found) (n : ℕ)
      (message event decision result : Bytes)
      → Q s
      → ((i : ℕ) (p : Pending) → attempt ≡ done (i, p) → Q (write s i p))
      → Leads (Same s) Q (settle os config admin r attempt n message event decision result)
  unfolding settle
  settle-Leads s (refused why) n message event decision result q h = reply_error-Leads s _ _ _ q
  settle-Leads s (done (i, p)) n message event decision result q h = Leads-get s _ (
      Leads-put s (write s i p) (
        Leads-logged os (write s i p) _ r.id (h i p refl)
          (Leads-write_response (write s i p) _ (h i p refl))))

  finish_execution-Leads :
      {Q : Store → Type 0} (s : Store) (i : ℕ) (p : Pending) (info : SysInfo)
      → Q s
      → Q (write s i (record p { status = executed }))
      → Leads (Same s) Q (finish_execution os config admin r (i, p) info)
  unfolding finish_execution
  finish_execution-Leads s i p (failure why) q h =
      Leads-logged os s _ r.id q (reply_error-Leads s _ _ _ q)
  finish_execution-Leads s i p (report result) q h = Leads-get s _ (
      Leads-put s (write s i (record p { status = executed })) (
        Leads-logged os (write s i (record p { status = executed })) _ r.id h
          (Leads-write_response (write s i (record p { status = executed })) _ h)))

  start_execution-Leads :
      {Q : Store → Type 0} (s : Store) (i : ℕ) (p : Pending)
      → Q s
      → Q (write s i (record p { status = executed }))
      → Leads (Same s) Q (start_execution os config admin r (i, p))
  unfolding start_execution
  start_execution-Leads s i p q h =
      Leads-logged os s _ r.id q
        (Leads-bind s (Keeps-sys_info os) λ info. finish_execution-Leads s i p info q h)

module _ (config : Config) (admin : Identity) (s : Store)
    (allowed : identity_is_admin config admin ≡ true) where
  grant-AdminStep :
      (found : Option Found) (now i : ℕ) (q : Pending)
      → Points s found
      → grant found admin now ≡ done (i, q)
      → AdminStep config admin now s (write s i q)
  unfolding grant
  grant-AdminStep none now i q h e = absurd (cc)
  grant-AdminStep (some (j, p)) now i q h e =
      let (waits, fresh, other, made) = (grant_iff j p admin now (i, q)).0 e in
      approve j p allowed h waits fresh other (ap (λ (f : Found). write s f.0 f.1) made)

  reject-AdminStep :
      (found : Option Found) (now i : ℕ) (q : Pending)
      → Points s found
      → reject found admin ≡ done (i, q)
      → AdminStep config admin now s (write s i q)
  unfolding reject
  reject-AdminStep none now i q h e = absurd (cc)
  reject-AdminStep (some (j, p)) now i q h e =
      let (other, made) = (reject_iff j p admin (i, q)).0 e in
      turn_down j p allowed h other (ap (λ (f : Found). write s f.0 f.1) made)

  module _ (os : Os) (r : Request) (t : ℕ) where
    abbrev Step : Store → Type 0
    Step = AdminStep config admin (os.time t) s

    handle_grant-AdminStep :
        (found : Option Found)
        → Points s found
        → Timed s t Step (handle_grant os config admin r found)
    unfolding handle_grant
    handle_grant-AdminStep found h = Timed-now s t os _ (
        settle-Leads os config admin r s (grant found admin (os.time t)) _ _ _ _ _ (idle refl)
          (λ i q e. grant-AdminStep found (os.time t) i q h e))

    handle_reject-AdminStep :
        (found : Option Found)
        → Points s found
        → Leads (Same s) Step (handle_reject os config admin r found)
    unfolding handle_reject
    handle_reject-AdminStep found h =
        settle-Leads os config admin r s (reject found admin) _ _ _ _ _ (idle refl)
          (λ i q e. reject-AdminStep found (os.time t) i q h e)

    handle_decision-AdminStep : Timed s t Step (handle_decision os config admin r)
    unfolding handle_decision decide
    handle_decision-AdminStep =
        Timed-option s t (extract_param_string r.params (codes "request_id") 40)
          (Timed-Leads s t (reply_error-Leads os config admin r s _ _ _ (idle refl)))
          λ id e. Timed-get s t _ (
            Timed-if s t (str_eq r.method (codes "approval.approve"))
              (λ _. handle_grant-AdminStep (find s id) (find-Points s id))
              λ _. Timed-Leads s t (
                Leads-if s (str_eq r.method (codes "approval.reject"))
                  (λ _. handle_reject-AdminStep (find s id) (find-Points s id))
                  (λ _. reply_error-Leads os config admin r s _ _ _ (idle refl))))

    recheck-AdminStep :
        (i : ℕ) (p : Pending)
        → get_elem? s.entries i ≡ some p
        → p.status ≡ granted
        → has_expired (os.time t) p ≡ false
        → p.request_hash ≡ (pending_to_request p).request_hash
        → Leads (Same s) Step (recheck os config admin r (i, p))
    unfolding recheck
    recheck-AdminStep i p h ready fresh same =
        Leads-if s
          (is_deny (preflight config (pending_to_request p) p.requester).decision
            || not (
                (preflight config (pending_to_request p) p.requester).request_hash
                == p.request_hash))
          (λ _. reply_error-Leads os config admin r s _ _ _ (idle refl))
          λ passed. start_execution-Leads os config admin r s i p (idle refl) (
            execute i p allowed h ready fresh same
              (preflight-method config (pending_to_request p) p.requester (ground arith))
              (preflight-not_deny config (pending_to_request p) p.requester (ground arith)) refl)

    execute_found-AdminStep :
        (found : Option Found)
        → Points s found
        → Timed s t Step (execute_found os config admin r found)
    unfolding execute_found current_hash
    execute_found-AdminStep found h = Timed-now s t os _ (
        Leads-attempt s (validate_for_execute found (current_hash found) (os.time t))
          (λ why. reply_error-Leads os config admin r s _ _ _ (idle refl))
          λ entry e. go found entry h e)
      where
        go :
            (found : Option Found) (entry : Found)
            → Points s found
            → validate_for_execute found (current_hash found) (os.time t) ≡ done entry
            → Leads (Same s) Step (recheck os config admin r entry)
        go none entry h e = absurd (validate-none _ (os.time t) entry e)
        go (some (i, p)) entry h e =
            let (ready, fresh, same, made) =
              (validate_for_execute_iff i p (current_hash (some (i, p))) (os.time t) entry).0 e in
            subst (λ f. Leads (Same s) Step (recheck os config admin r f)) (sym made)
              (recheck-AdminStep i p h ready fresh same)

    handle_admin_execute-AdminStep : Timed s t Step (handle_admin_execute os config admin r)
    unfolding handle_admin_execute
    handle_admin_execute-AdminStep =
        Timed-option s t (extract_param_string r.params (codes "request_id") 40)
          (Timed-Leads s t (reply_error-Leads os config admin r s _ _ _ (idle refl)))
          λ id e. Timed-get s t _ (execute_found-AdminStep (find s id) (find-Points s id))

module _ (os : Os) (config : Config) (admin : Identity) (s : Store) (t : ℕ) where
  route_admin-AdminStep :
      (r : Request)
      → Timed s t (AdminStep config admin (os.time t) s) (route_admin os config admin r)
  unfolding route_admin
  route_admin-AdminStep r =
      Timed-if s t (not (identity_is_admin config admin))
        (λ _. Timed-Leads s t (deny_admin-Leads os config admin r s (idle refl)))
        λ listed.
          let allowed : identity_is_admin config admin ≡ true = ground arith in
          Timed-if s t (str_eq r.method (codes "approval.list"))
            (λ _. Timed-Leads s t (handle_list-Leads os config admin r s (idle refl)))
            λ _.
              Timed-if s t (str_eq r.method (codes "approval.execute"))
                (λ _. handle_admin_execute-AdminStep config admin s allowed os r t)
                (λ _. handle_decision-AdminStep config admin s allowed os r t)

  handle_admin_request-Timed :
      (body : Bytes)
      → Timed s t (AdminStep config admin (os.time t) s) (handle_admin_request os config admin body)
  unfolding handle_admin_request send_invalid
  handle_admin_request-Timed body =
      Timed-result s t (rpc_parse body)
        (λ e. Timed-Leads s t (Leads-write_response s _ (idle refl))) λ r e. route_admin-AdminStep r

-- Whatever a peer of the admin socket sends, and whatever the system calls answer, the request
-- leaves the store as it was or, for an admin, changes one entry in one of three ways: a pending
-- one is granted by someone other than its requester, one is rejected by someone other than its
-- requester, or a granted one with the hash of its own fields is executed while the policy still
-- lets its method pass. An entry that is granted or executed has not expired at the time that the
-- system's clock shows at the first call of the system that the request makes.
pub handle_admin_request-AdminStep :
    (os : Os) (config : Config) (admin : Identity) (body : Bytes) (w : World)
    → AdminStep config admin
        (os.time w.ticks)
        w.store
        (handle_admin_request os config admin body w).1.store
handle_admin_request-AdminStep os config admin body w =
    (handle_admin_request-Timed os config admin w.store w.ticks body).at w refl refl
