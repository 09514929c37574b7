-- ===== src/Audit/Contract.antt =====
-- The contract events of audit.c, and a log that only they are appended to.
use anything_tool.Base.{
  ℕ, ◌≡◌, sym, subst, Bool, true, false, ◌||◌, List, [], ◌∷◌, ◌++◌, append_assoc, append-nil,
}
use anything_tool.Text.{Bytes, codes, str_eq}
use anything_tool.Audit.{AuditEvent, AuditIo, audit_write_event}

abbrev pub k_audit_contract_events : List Bytes
k_audit_contract_events =
    codes "request_received"
    ∷ codes "preflight_denied"
    ∷ codes "approval_required"
    ∷ codes "approval_granted"
    ∷ codes "approval_rejected"
    ∷ codes "execution_started"
    ∷ codes "execution_finished"
    ∷ codes "execution_failed"
    ∷ []

unfoldable is_one_of : List Bytes → Bytes → Bool
is_one_of [] event = false
is_one_of (e ∷ events) event = str_eq event e || is_one_of events event

unfoldable pub is_known_event : Bytes → Bool
unfolding is_one_of
is_known_event event = is_one_of k_audit_contract_events event

-- The second log is the first with what calls for contract events have appended, one after
-- another: the call by its number.
pub data Extends (audit : ℕ → AuditIo) (log : Bytes) : Bytes → Type 0 where
  unchanged : Extends audit log log
  appended :
      {log' : Bytes} (n : ℕ) (e : AuditEvent)
      → Extends audit log log'
      → is_known_event e.event ≡ true
      → Extends audit log (log' ++ (audit_write_event (audit n) e).0)

pub Extends-trans :
    {audit : ℕ → AuditIo} {a b c : Bytes}
    → Extends audit a b
    → Extends audit b c
    → Extends audit a c
Extends-trans h unchanged = h
Extends-trans h (appended n e k known) = appended n e (Extends-trans h k) known

-- Nothing that was written is lost.
pub Extends-prefix :
    {audit : ℕ → AuditIo} {a b : Bytes} → Extends audit a b → (more : Bytes) × (b ≡ a ++ more)
Extends-prefix {a} unchanged = ([], sym (append-nil a))
Extends-prefix {audit} {a} (appended n e h known) =
    let (more, same) = Extends-prefix h in
    let piece = (audit_write_event (audit n) e).0 in
    (
      more ++ piece,
      subst (λ t. t ++ piece ≡ a ++ (more ++ piece)) (sym same) (append_assoc a more piece),
    )
