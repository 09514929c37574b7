-- ===== src/Daemon/Logs.antt =====
-- What an action of the daemon appends to the audit log, by the parts of the action.
pub mod Append
use anything_tool.Base.{◌≡◌, Bool, true, false, not, Option, none, some, if◌then◌else◌}
use anything_tool.Text.{Bytes}
use anything_tool.Approval.{Store, Attempt, done, refused, Refusal}
use anything_tool.Rpc.Request.{Result, ok, err, RpcError}
use anything_tool.Audit.{AuditEvent}
use anything_tool.Audit.Contract.{is_known_event, Extends, unchanged, appended, Extends-trans}
use anything_tool.Daemon.Traverse.{Rules}
use anything_tool.Daemon.World.{
  Os, World, M, ◌>>=◌, ◌>>◌, pure, skip, on_option, on_attempt, on_result, write_response,
  get_store, put_store, time_now, sys_info, audit_event, checked_audit,
}

-- The action appends contract events, and changes nothing that was there.
pub record Logs (os : Os) {A : Type 0} (m : M A) : Type 0 where
  pub at : (w : World) → Extends os.audit w.log (m w).1.log

module _ {os : Os} where
  Logs-pure : {A : Type 0} (a : A) → Logs os (pure a)
  unfolding pure
  Logs-pure a = record { at = λ w. unchanged }

  Logs-bind :
      {A B : Type 0} {m : M A} {f : A → M B}
      → Logs os m
      → ((a : A) → Logs os (f a))
      → Logs os (m >>= f)
  unfolding ◌>>=◌
  Logs-bind {m} h k = record { at = λ w. Extends-trans (h.at w) ((k (m w).0).at (m w).1) }

  Logs-then : {B : Type 0} {m : M (Unit {0})} {k : M B} → Logs os m → Logs os k → Logs os (m >> k)
  unfolding ◌>>◌
  Logs-then {m} h k = record { at = λ w. Extends-trans (h.at w) (k.at (m w).1) }

  pub Logs-write_response : (r : Option Bytes) → Logs os (write_response r)
  unfolding write_response
  Logs-write_response r = record { at = λ w. unchanged }

  Logs-get_store : Logs os get_store
  unfolding get_store
  Logs-get_store = record { at = λ w. unchanged }

  Logs-put_store : (s : Store) → Logs os (put_store s)
  unfolding put_store
  Logs-put_store s = record { at = λ w. unchanged }

  Logs-time_now : Logs os (time_now os)
  unfolding time_now
  Logs-time_now = record { at = λ w. unchanged }

  Logs-sys_info : Logs os (sys_info os)
  unfolding sys_info
  Logs-sys_info = record { at = λ w. unchanged }

  Logs-if :
      {A : Type 0} (b : Bool) {l r : M A} → Logs os l → Logs os r → Logs os (if b then l else r)
  Logs-if true h k = h
  Logs-if false h k = k

  Logs-audit_event : (e : AuditEvent) → is_known_event e.event ≡ true → Logs os (audit_event os e)
  unfolding audit_event
  Logs-audit_event e known = record { at = λ w. appended w.ticks e unchanged known }

  Logs-checked_audit :
      (e : AuditEvent) (id : Bytes)
      → is_known_event e.event ≡ true
      → Logs os (checked_audit os e id)
  unfolding checked_audit
  Logs-checked_audit e id known = Logs-bind (Logs-audit_event e known) λ success.
      Logs-if success (Logs-pure true) (Logs-then (Logs-write_response _) (Logs-pure false))

  -- A contract event, and then the rest where it was written.
  Logs-logged :
      (e : AuditEvent) (id : Bytes) {k : M (Unit {0})}
      → is_known_event e.event ≡ true
      → Logs os k
      → Logs os (checked_audit os e id >>= λ logged. if not logged then skip else k)
  Logs-logged e id known h =
      Logs-bind (Logs-checked_audit e id known) λ logged. Logs-if (not logged) (Logs-pure tt) h

  pub Logs-Rules : Rules os (Logs os)
  Logs-Rules = record {
    store = λ k h. Logs-bind Logs-get_store h;
    clock = λ k h. Logs-bind Logs-time_now h;
    tool = λ k h. Logs-bind Logs-sys_info h;
    put = λ s k h. Logs-then (Logs-put_store s) h;
    reply = Logs-write_response;
    logged = λ e id k known h. Logs-logged e id known h;
  }
