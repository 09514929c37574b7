-- ===== src/Audit.antt =====
-- src/common/audit.c: one JSON line for each event, appended to the audit log.
pub mod Line
pub mod Contract
pub mod Timestamp
pub mod Startup
use anything_tool.Base.{
  ℕ, suc, ◌+◌, Bool, true, false, not, ◌&&◌, ◌||◌, Option, none, some, ◌>>=◌, List, [], ◌∷◌, ◌++◌,
  if◌then◌else◌, take,
}
use anything_tool.Text.{Bytes, codes, str_eq}
use anything_tool.Text.Decimal.{decimal}
use anything_tool.Json.{escape_string}
use anything_tool.Identity.{Identity}
use anything_tool.Audit.Timestamp.{timestamp_utc}

pub record AuditEvent : Type 0 where
  pub event : Bytes
  pub request_id : Bytes
  pub session_id : Bytes
  pub caller : Identity
  pub approver : Option Identity
  pub method : Bytes
  pub risk : Bytes
  pub decision : Bytes
  pub error_kind : Bytes
  pub params_summary : Bytes
  pub duration_ms : ℕ

-- What open and fstat answer for the audit log.
pub data Opened : Type 0 where
  regular_file other_file symlink not_writable : Opened

-- The bytes that a dprintf that fails has written before it fails.
abbrev pub Printed : Type 0
Printed = Option ℕ

-- What the system does during one call: the open, the clock, the three dprintf, the close.
pub record AuditIo : Type 0 where
  pub opened : Opened
  pub now : ℕ
  pub head_print : Printed
  pub approver_print : Printed
  pub tail_print : Printed
  pub closes : Bool

-- open_audit_fd: whether there is a descriptor. A descriptor of what is no regular file is closed.
unfoldable pub open_audit_fd : Opened → Bool
open_audit_fd regular_file = true
open_audit_fd _ = false

-- What reaches the file of a text, and whether dprintf failed.
unfoldable pub print : Printed → Bytes → Bytes × Bool
print none text = (text, false)
print (some n) text = (take n text, true)

unfoldable pub identity_text : Identity → Bytes
identity_text i =
    codes "{\"uid\":"
    ++ (decimal i.uid
        ++ (codes ",\"gid\":"
            ++ (decimal i.gid ++ (codes ",\"pid\":" ++ (decimal i.pid ++ codes "}")))))

-- The escaped fields.
pub record EscapedEvent : Type 0 where
  pub event : Bytes
  pub request_id : Bytes
  pub session_id : Bytes
  pub method : Bytes
  pub risk : Bytes
  pub decision : Bytes
  pub error_kind : Bytes
  pub params_summary : Bytes

unfoldable pub escape_event : AuditEvent → Option EscapedEvent
escape_event e = do
  event ← escape_string (some e.event) 64
  request_id ← escape_string (some e.request_id) 128
  session_id ← escape_string (some e.session_id) 128
  method ← escape_string (some e.method) 128
  risk ← escape_string (some e.risk) 64
  decision ← escape_string (some e.decision) 64
  error_kind ← escape_string (some e.error_kind) 128
  params_summary ← escape_string (some e.params_summary) 512
  some (record {
    event = event;
    request_id = request_id;
    session_id = session_id;
    method = method;
    risk = risk;
    decision = decision;
    error_kind = error_kind;
    params_summary = params_summary;
  })

unfoldable pub head_text : Bytes → Identity → EscapedEvent → Bytes
head_text timestamp caller x =
    codes "{\"timestamp\":\""
    ++ (timestamp
        ++ (codes "\",\"event\":\""
            ++ (x.event
                ++ (codes "\",\"request_id\":\""
                    ++ (x.request_id
                        ++ (codes "\",\"session_id\":\""
                            ++ (x.session_id
                                ++ (codes "\",\"caller\":"
                                    ++ (identity_text caller ++ codes ",")))))))))

unfoldable pub approver_text : Option Identity → Bytes
approver_text none = []
approver_text (some i) = codes "\"approver\":" ++ (identity_text i ++ codes ",")

unfoldable pub tail_text : ℕ → EscapedEvent → Bytes
tail_text duration_ms x =
    codes "\"method\":\""
    ++ (x.method
        ++ (codes "\",\"risk\":\""
            ++ (x.risk
                ++ (codes "\",\"decision\":\""
                    ++ (x.decision
                        ++ (codes "\",\"error_kind\":\""
                            ++ (x.error_kind
                                ++ (codes "\",\"duration_ms\":"
                                    ++ (decimal duration_ms
                                        ++ (codes ",\"params_summary\":\""
                                            ++ (x.params_summary ++ codes "\"}\n")))))))))))

-- `failed || dprintf(...) < 0` behind what is written so far.
unfoldable pub print_next : Printed → Bytes → Bytes × Bool → Bytes × Bool
print_next io text (written, failed) =
    if failed
    then (written, true)
    else let (more, failed') = print io text in (written ++ more, failed')

-- The approver is printed only where there is one.
unfoldable pub print_approver : Printed → Option Identity → Bytes × Bool → Bytes × Bool
print_approver io none w = w
print_approver io (some i) w = print_next io (approver_text (some i)) w

unfoldable pub print_event : AuditIo → AuditEvent → EscapedEvent → Bytes × Bool
print_event io e x =
    let head = print io.head_print (head_text (timestamp_utc io.now) e.caller x) in
    let named = print_approver io.approver_print e.approver head in
    print_next io.tail_print (tail_text e.duration_ms x) named

-- What the call appends to the log, and whether it returns 0.
unfoldable pub audit_write_event : AuditIo → AuditEvent → Bytes × Bool
audit_write_event io e =
    if not (open_audit_fd io.opened) then ([], false) else elim (escape_event e) [
      | none ↦ ([], false)
      | some x ↦ let (written, failed) = print_event io e x in (written, not failed && io.closes)
    ]
