-- ===== src/Audit/Line.antt =====
-- Each event that is written is one line of the log, whatever its fields hold.
use anything_tool.Base.{
  ℕ, ◌≡◌, refl, sym, subst, true, false, Option, none, some, [], ◌∷◌, ◌++◌, append_assoc, arith,
  All-append, Option-cases, inl, inr,
}
use anything_tool.Text.{Bytes, codes}
use anything_tool.Text.Decimal.{decimal, decimal-IsVisible}
use anything_tool.Json.Escape.{IsVisible}
use anything_tool.Json.Visible.{Visible, IsLine, escape_string-Visible, lit, then_text}
use anything_tool.Identity.{Identity}
use anything_tool.Audit.Timestamp.{timestamp_utc}
use anything_tool.Audit.Timestamp.Civil.{timestamp_utc-Visible}
use anything_tool.Audit.{
  AuditEvent, AuditIo, EscapedEvent, escape_event, identity_text, head_text, approver_text,
  tail_text, print, print_next, print_approver, print_event, audit_write_event,
}

record IsClean (x : EscapedEvent) : Type 0 where
  event : Visible x.event
  request_id : Visible x.request_id
  session_id : Visible x.session_id
  method : Visible x.method
  risk : Visible x.risk
  decision : Visible x.decision
  error_kind : Visible x.error_kind
  params_summary : Visible x.params_summary

escape_event-IsClean : (e : AuditEvent) (x : EscapedEvent) → escape_event e ≡ some x → IsClean x
unfolding escape_event
escape_event-IsClean e x h = ground (
  arith,
  escape_string-Visible 64 e.event,
  escape_string-Visible 128 e.request_id,
  escape_string-Visible 128 e.session_id,
  escape_string-Visible 128 e.method,
  escape_string-Visible 64 e.risk,
  escape_string-Visible 64 e.decision,
  escape_string-Visible 128 e.error_kind,
  escape_string-Visible 512 e.params_summary,
)

identity_text-Visible :
    (i : Identity) (rest : Bytes) → Visible rest → Visible (identity_text i ++ rest)
unfolding identity_text
identity_text-Visible i rest v =
    let join = All-append IsVisible in
    join (identity_text i) rest
      (then_text (codes "{\"uid\":") _ refl (
        join (decimal i.uid) _ (decimal-IsVisible i.uid) (
          then_text (codes ",\"gid\":") _ refl (
            join (decimal i.gid) _ (decimal-IsVisible i.gid) (
              then_text (codes ",\"pid\":") _ refl
                (join (decimal i.pid) _ (decimal-IsVisible i.pid) (lit (codes "}") refl)))))))
      v

head_text-Visible :
    (timestamp : Bytes) (caller : Identity) (x : EscapedEvent)
    → Visible timestamp
    → IsClean x
    → Visible (head_text timestamp caller x)
unfolding head_text
head_text-Visible timestamp caller x t c =
    let join = All-append IsVisible in
    then_text (codes "{\"timestamp\":\"") _ refl (
      join timestamp _ t (
        then_text (codes "\",\"event\":\"") _ refl (
          join x.event _ c.event (
            then_text (codes "\",\"request_id\":\"") _ refl (
              join x.request_id _ c.request_id (
                then_text (codes "\",\"session_id\":\"") _ refl (
                  join x.session_id _ c.session_id (
                    then_text (codes "\",\"caller\":") _ refl
                      (identity_text-Visible caller (codes ",") (lit (codes ",") refl))))))))))

approver_text-Visible : (a : Option Identity) → Visible (approver_text a)
unfolding approver_text
approver_text-Visible none = tt
approver_text-Visible (some i) =
    then_text (codes "\"approver\":") _ refl
      (identity_text-Visible i (codes ",") (lit (codes ",") refl))

-- The last print, without the newline that ends it.
tail_line : ℕ → EscapedEvent → Bytes
tail_line duration_ms x =
    codes "\"method\":\""
    ++ (x.method
        ++ (codes "\",\"risk\":\""
            ++ (x.risk
                ++ (codes "\",\"decision\":\""
                    ++ (x.decision
                        ++ (codes "\",\"error_kind\":\""
                            ++ (x.error_kind
                                ++ (codes "\",\"duration_ms\":"
                                    ++ (decimal duration_ms
                                        ++ (codes ",\"params_summary\":\""
                                            ++ (x.params_summary ++ codes "\"}")))))))))))

tail_text-tail_line : (d : ℕ) (x : EscapedEvent) → tail_text d x ≡ tail_line d x ++ b'\n' ∷ []
unfolding tail_text tail_line
tail_text-tail_line d x = simp append_assoc

tail_line-Visible : (d : ℕ) (x : EscapedEvent) → IsClean x → Visible (tail_line d x)
unfolding tail_line
tail_line-Visible d x c =
    let join = All-append IsVisible in
    then_text (codes "\"method\":\"") _ refl (
      join x.method _ c.method (
        then_text (codes "\",\"risk\":\"") _ refl (
          join x.risk _ c.risk (
            then_text (codes "\",\"decision\":\"") _ refl (
              join x.decision _ c.decision (
                then_text (codes "\",\"error_kind\":\"") _ refl (
                  join x.error_kind _ c.error_kind (
                    then_text (codes "\",\"duration_ms\":") _ refl (
                      join (decimal d) _ (decimal-IsVisible d) (
                        then_text (codes ",\"params_summary\":\"") _ refl (
                          join x.params_summary _ c.params_summary
                            (lit (codes "\"}") refl))))))))))))

-- The whole text of an event.
pub event_text : Bytes → AuditEvent → EscapedEvent → Bytes
event_text timestamp e x =
    head_text timestamp e.caller x ++ (approver_text e.approver ++ tail_text e.duration_ms x)

event_text-IsLine :
    (timestamp : Bytes) (e : AuditEvent) (x : EscapedEvent)
    → Visible timestamp
    → IsClean x
    → IsLine (event_text timestamp e x)
unfolding event_text
event_text-IsLine timestamp e x t c =
    let join = All-append IsVisible in
    let line =
      head_text timestamp e.caller x ++ (approver_text e.approver ++ tail_line e.duration_ms x) in
    (
      line,
      rw (tail_text-tail_line) (simp append_assoc),
      join (head_text timestamp e.caller x) _ (head_text-Visible timestamp e.caller x t c) (
          join (approver_text e.approver) _ (approver_text-Visible e.approver)
            (tail_line-Visible e.duration_ms x c)),
    )

print_event_success :
    (io : AuditIo) (e : AuditEvent) (x : EscapedEvent) (written : Bytes)
    → print_event io e x ≡ (written, false)
    → written ≡ event_text (timestamp_utc io.now) e x
unfolding print_event print_approver print_next print event_text approver_text
print_event_success io e x written h = ground (
  arith,
  append_assoc (head_text (timestamp_utc io.now) e.caller x) (approver_text e.approver)
      (tail_text e.duration_ms x),
)

-- Where anything_audit_write_event returns 0, what it has appended to the log is one line: no field, whatever bytes it holds, breaks the line or begins
-- another.
pub audit_write_event-IsLine :
    (io : AuditIo) (e : AuditEvent) (written : Bytes)
    → audit_write_event io e ≡ (written, true)
    → IsLine written
unfolding audit_write_event
audit_write_event-IsLine io e written h = elim (Option-cases (escape_event e)) [
  | inl failed ↦ absurd (ground arith)
  | inr (x, escaped_ok) ↦ subst IsLine (sym (print_event_success io e x written (ground arith))) (
      event_text-IsLine (timestamp_utc io.now) e x (timestamp_utc-Visible io.now)
        (escape_event-IsClean e x escaped_ok))
]
