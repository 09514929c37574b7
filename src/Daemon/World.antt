-- ===== src/Daemon/World.antt =====
-- The daemon's state, what it shows to the outside, and the system calls under a handler.
use anything_tool.Base.{
  ℕ, zero, suc, ◌+◌, Bool, true, false, Option, none, some, List, [], ◌∷◌, ◌++◌, if◌then◌else◌, ℤ,
  pos, negsuc,
}
use anything_tool.Text.{Bytes, codes}
use anything_tool.Identity.{Identity}
use anything_tool.Approval.{Store, Attempt, done, refused, Refusal}
use anything_tool.Rpc.Request.{Result, ok, err, RpcError}
use anything_tool.Audit.{AuditEvent, AuditIo, audit_write_event}
use anything_tool.SysInfo.{SystemFacts, SysInfo, sys_info_json}
use anything_tool.Rpc.Response.{rpc_error}

-- What the system does at each call, by the number of calls before it.
pub record Os : Type 0 where
  pub time : ℕ → ℕ
  pub audit : ℕ → AuditIo
  pub facts : ℕ → SystemFacts

-- The approvals of daemon_state, the audit log's bytes, the response buffers that were handed
-- to the call that writes them to the peer, and the count of system calls. `none` is a buffer that nothing was put into.
pub record World : Type 0 where
  pub store : Store
  pub log : Bytes
  pub sent : List (Option Bytes)
  pub ticks : ℕ

abbrev pub M : Type 0 → Type 0
M A = World → A × World

infixl 5 ◌>>=◌ ◌>>◌
unfoldable pub ◌>>=◌ : {A B : Type 0} → M A → (A → M B) → M B
◌>>=◌ m f w = let (a, w') = m w in f a w'

unfoldable pub ◌>>◌ : {B : Type 0} → M (Unit {0}) → M B → M B
◌>>◌ m k w = k (m w).1

unfoldable pub pure : {A : Type 0} → A → M A
pure a w = (a, w)

abbrev pub skip : M (Unit {0})
skip = pure tt

-- The branch on a call's failure, and on its result.
abbrev pub on_option : {A B : Type 0} → Option A → M B → (A → M B) → M B
on_option none failed k = failed
on_option (some a) failed k = k a

abbrev pub on_attempt : {A B : Type 0} → Attempt A → (Refusal → M B) → (A → M B) → M B
on_attempt (refused why) failed k = failed why
on_attempt (done a) failed k = k a

abbrev pub on_result : {A B : Type 0} → Result A → (RpcError → M B) → (A → M B) → M B
on_result (err e) failed k = failed e
on_result (ok a) failed k = k a

-- The call of anything_transport_write_response, whose result no handler reads: the buffer is
-- handed over. What of it reaches the peer is said of Transport.write_response.
unfoldable pub write_response : Option Bytes → M (Unit {0})
write_response response w = (tt, record w { sent = w.sent ++ response ∷ [] })

unfoldable pub get_store : M Store
get_store w = (w.store, w)

unfoldable pub put_store : Store → M (Unit {0})
put_store s w = (tt, record w { store = s })

-- The error codes: -32600 is `code 32600`.
abbrev pub code : ℕ → ℤ
code zero = pos 0
code (suc n) = negsuc n

module _ (os : Os) where
  unfoldable pub time_now : M ℕ
  time_now w = (os.time w.ticks, record w { ticks = w.ticks + 1 })

  unfoldable pub sys_info : M SysInfo
  sys_info w = (sys_info_json 2048 (os.facts w.ticks), record w { ticks = w.ticks + 1 })

  unfoldable pub audit_event : AuditEvent → M Bool
  audit_event e w =
      let (written, success) = audit_write_event (os.audit w.ticks) e in
      (success, record w { log = w.log ++ written; ticks = w.ticks + 1 })

  -- `true` is the return of 0.
  unfoldable pub checked_audit : AuditEvent → Bytes → M Bool
  checked_audit e rpc_id = do
    success ← audit_event e
    if success then pure true else do
      write_response
          (rpc_error rpc_id (code 32050) (codes "audit_failed") (codes "audit write failed") [])
      pure false

-- An event with the fields that most calls leave empty.
abbrev pub plain_event : Bytes → Bytes → Identity → Bytes → AuditEvent
plain_event event session_id caller method = record {
  event = event;
  request_id = [];
  session_id = session_id;
  caller = caller;
  approver = none;
  method = method;
  risk = [];
  decision = [];
  error_kind = [];
  params_summary = [];
  duration_ms = 0;
}
