-- ===== src/Daemon/Replies.antt =====
-- The responses that the handlers hand over, by the parts of an action.
pub mod Answers
pub mod Framed
pub mod Once
use anything_tool.Base.{
  ℕ, ◌+◌, ◌≡◌, refl, sym, ◌∙◌, ap, Bool, true, false, not, Option, none, some, [], ◌∷◌, ◌++◌,
  if◌then◌else◌, length, length-append, arith, Bool-cases, inl, inr,
}
use anything_tool.Text.{Bytes}
use anything_tool.Approval.{Store, Attempt, done, refused, Refusal}
use anything_tool.Rpc.Request.{Result, ok, err, RpcError}
use anything_tool.Audit.{AuditEvent, audit_write_event}
use anything_tool.Daemon.Traverse.{Rules}
use anything_tool.Daemon.World.{
  Os, World, M, ◌>>=◌, ◌>>◌, pure, skip, on_option, on_attempt, on_result, write_response,
  get_store, put_store, time_now, sys_info, audit_event, checked_audit,
}

-- The action hands n response buffers to the call that writes them, whatever the state is.
pub record Sends (n : ℕ) {A : Type 0} (m : M A) : Type 0 where
  pub at : (w : World) → length (m w).1.sent ≡ length w.sent + n

pub Sends-write_response : (r : Option Bytes) → Sends 1 (write_response r)
unfolding write_response
Sends-write_response r = record { at = λ w. length-append w.sent (r ∷ []) }

-- After a call that sends nothing.
Sends-bind :
    (n : ℕ) {A B : Type 0} {m : M A} {f : A → M B}
    → Sends 0 m
    → ((a : A) → Sends n (f a))
    → Sends n (m >>= f)
unfolding ◌>>=◌
Sends-bind n {m = m} h k = record { at = λ w. omega (arith, (k (m w).0).at (m w).1, h.at w) }

Sends-put : (n : ℕ) {B : Type 0} (s : Store) {k : M B} → Sends n k → Sends n (put_store s >> k)
unfolding put_store ◌>>◌
Sends-put n s h = record { at = λ w. h.at (record w { store = s }) }

Sends-get_store : Sends 0 get_store
unfolding get_store
Sends-get_store = record { at = λ w. omega arith }

Sends-time_now : (os : Os) → Sends 0 (time_now os)
unfolding time_now
Sends-time_now os = record { at = λ w. omega arith }

Sends-sys_info : (os : Os) → Sends 0 (sys_info os)
unfolding sys_info
Sends-sys_info os = record { at = λ w. omega arith }

-- A failed audit answers by itself, and the rest then does not run.
Sends-logged :
    (os : Os) (e : AuditEvent) (id : Bytes) {k : M (Unit {0})}
    → Sends 1 k
    → Sends 1 (checked_audit os e id >>= λ logged. if not logged then skip else k)
unfolding checked_audit ◌>>=◌ ◌>>◌ pure write_response audit_event
Sends-logged os e id {k} h = record {
  at = λ w.
      let result = audit_write_event (os.audit w.ticks) e in
      elim (Bool-cases result.1) [
        | inl wrote ↦ rw wrote (h.at (record w { log = w.log ++ result.0; ticks = w.ticks + 1 }))
        | inr failed ↦ rw failed (length-append w.sent _)
      ];
}

pub Sends-Rules : (os : Os) → Rules os (Sends 1)
Sends-Rules os = record {
  store = λ k h. Sends-bind 1 Sends-get_store h;
  clock = λ k h. Sends-bind 1 (Sends-time_now os) h;
  tool = λ k h. Sends-bind 1 (Sends-sys_info os) h;
  put = λ s k h. Sends-put 1 s h;
  reply = Sends-write_response;
  logged = λ e id k known h. Sends-logged os e id h;
}
