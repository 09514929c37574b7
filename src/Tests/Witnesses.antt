-- ===== src/Tests/Witnesses.antt =====
-- The theorems about the code at concrete runs.
use anything_tool.Base.{
  List, ◌+◌, ◌<◌, ◌≡◌, ◌≢◌, refl, ◌⊎◌, ◌↔◌, true, false, none, some, [], ◌∷◌, ◌++◌, arith, length,
  get_elem?, if◌then◌else◌, ltb,
}
use anything_tool.Text.{Bytes, codes, c_str}
use anything_tool.Json.{escape_string}
use anything_tool.Json.Escape.{escaped, escape_string-escaped, all_plain-IsPlain}
use anything_tool.Config.Paths.{path_is_under, IsBelow, path_is_under_iff, not_under_slash}
use anything_tool.Config.Validate.{validate_with_options, IsUsable, validate_with_options_iff}
use anything_tool.Config.Admin.{identity_is_admin, Listed, identity_is_admin_iff}
use anything_tool.Policy.{preflight, approval_required, allow}
use anything_tool.Policy.Decisions.{preflight-decision}
use anything_tool.Approval.{
  Pending, Found, pending, granted, rejected, grant, reject, validate_for_execute, done,
  has_expired,
}
use anything_tool.Approval.Attempts.{grant_iff, reject_iff, validate_for_execute_iff}
use anything_tool.Approval.Sound.{IsSound}
use anything_tool.Audit.{AuditEvent, audit_write_event}
use anything_tool.Json.Visible.{IsLine}
use anything_tool.Audit.Line.{audit_write_event-IsLine}
use anything_tool.Rpc.Literal.{parse_json_string}
use anything_tool.Rpc.Literal.RoundTrip.{parse_json_string-escaped}
use anything_tool.Rpc.Value.{copy_json_object_raw}
use anything_tool.Rpc.Value.Suffix.{IsCopied, copy_json_object_raw-IsCopied}
use anything_tool.Rpc.Param.{extract_param_string, FitsIn, extract_param_string-FitsIn}
use anything_tool.Rpc.Request.{IsWellFormed}
use anything_tool.Rpc.Parse.Sound.{rpc_parse-IsWellFormed}
use anything_tool.Transport.{
  ReadAnswer, arrived, interrupted, received, read_request, WriteAnswer, took, write_interrupted,
  write_response,
}
use anything_tool.Transport.Reads.{stream, IsPrefix, AtLine, AtClose, read_request-IsPrefix}
use anything_tool.Transport.Writes.{IsWritten, write_response-IsWritten}
use anything_tool.Daemon.World.{World, plain_event}
use anything_tool.Daemon.Tool.{handle_tool_request}
use anything_tool.Daemon.Admin.{handle_admin_request}
use anything_tool.Daemon.Steps.{ToolStep, AdminStep}
use anything_tool.Daemon.Steps.Tool.{handle_tool_request-ToolStep}
use anything_tool.Daemon.Steps.Admin.{handle_admin_request-AdminStep}
use anything_tool.Daemon.Serve.{tool, serve, started}
use anything_tool.Daemon.Serve.Sound.{serve-IsSound, serve-two_persons}
use anything_tool.Tests.ParseTests.{sys_info_body, sys_info_request, rpc_parse_sys_info}
use anything_tool.Tests.DaemonTests.{
  agent, operator, config, audit_works, os, approve_body, sends, life, run_life, executed_entry,
}

abbrev waiting : Pending
waiting = record executed_entry {
  approver = record { uid = 0; gid = 0; pid = 0 };
  status = pending;
}

life_entry : get_elem? (serve os config life started).store.entries 0 ≡ some executed_entry
unfolding run_life
life_entry = refl

serve-two_persons_example : (agent ≢ operator) × (identity_is_admin config operator ≡ true)
serve-two_persons_example = serve-two_persons os config life 0 executed_entry life_entry refl

abbrev submitted : World
submitted = serve os config (sends tool agent sys_info_body ∷ []) started

handle_admin_request-AdminStep_example :
    AdminStep config operator
      (os.time submitted.ticks)
      submitted.store
      (handle_admin_request os config operator approve_body submitted).1.store
handle_admin_request-AdminStep_example =
    handle_admin_request-AdminStep os config operator approve_body submitted

handle_tool_request-ToolStep_example :
    ToolStep config agent sys_info_body
      (os.time (started.ticks + 1))
      started.store
      (handle_tool_request os config agent sys_info_body started).1.store
handle_tool_request-ToolStep_example =
    handle_tool_request-ToolStep os config agent sys_info_body started

serve-IsSound_example : IsSound config (serve os config life started).store
serve-IsSound_example = serve-IsSound os config life

rpc_parse-IsWellFormed_example : IsWellFormed sys_info_request
rpc_parse-IsWellFormed_example =
    rpc_parse-IsWellFormed sys_info_body sys_info_request rpc_parse_sys_info

abbrev an_event : AuditEvent
an_event = plain_event (codes "request_received") (codes "s") agent (codes "sys.info")

abbrev logged : Bytes
logged = (audit_write_event audit_works an_event).0

logged_success : audit_write_event audit_works an_event ≡ (logged, true)
unfolding run_life
logged_success = refl

audit_write_event-IsLine_example : IsLine logged
audit_write_event-IsLine_example =
    audit_write_event-IsLine audit_works an_event logged logged_success

abbrev approved : Found
approved = (0, record waiting { approver = operator; status = granted })

grant_iff_example : (grant (some (0, waiting)) operator 1300 ≡ done approved) ↔ (
    (pending ≡ pending)
    × (has_expired 1300 waiting ≡ false)
    × (agent ≢ operator)
    × (approved ≡ approved))
grant_iff_example = grant_iff 0 waiting operator 1300 approved

abbrev turned_down : Found
turned_down = (0, record executed_entry { approver = operator; status = rejected })

reject_iff_example :
    (reject (some (0, executed_entry)) operator ≡ done turned_down)
    ↔ ((agent ≢ operator) × (turned_down ≡ turned_down))
reject_iff_example = reject_iff 0 executed_entry operator turned_down

validate_for_execute_iff_example :
    (validate_for_execute (some approved) sys_info_request.request_hash 1300 ≡ done approved) ↔ (
      (granted ≡ granted)
      × (has_expired 1300 approved.1 ≡ false)
      × (sys_info_request.request_hash ≡ sys_info_request.request_hash)
      × (approved ≡ approved))
validate_for_execute_iff_example =
    validate_for_execute_iff 0 approved.1 sys_info_request.request_hash 1300 approved

parse_json_string-escaped_example :
    parse_json_string (b'"' ∷ (escaped (codes "a\"b\\c\n") ++ (b'"' ∷ codes ","))) 64
    ≡ some (codes "a\"b\\c\n", codes ",")
parse_json_string-escaped_example =
    parse_json_string-escaped 64 (codes "a\"b\\c\n") (codes ",")
      (all_plain-IsPlain (codes "a\"b\\c\n") refl) (omega arith)

escape_string-escaped_example :
    escape_string (some (codes "a\"b")) 4
    ≡ (if ltb (length (escaped (codes "a\"b"))) 4 then some (escaped (codes "a\"b")) else none)
escape_string-escaped_example = escape_string-escaped 4 (codes "a\"b")

validate_with_options_iff_example :
    (validate_with_options config false ≡ none) ↔ IsUsable config false
validate_with_options_iff_example = validate_with_options_iff config false

identity_is_admin_iff_example :
    (identity_is_admin config operator ≡ true)
    ↔ (Listed config.admin_allowed_uids 1000 ⊎ Listed config.admin_allowed_gids 1000)
identity_is_admin_iff_example = identity_is_admin_iff config operator refl

path_is_under_iff_example :
    (path_is_under (codes "/var/log/a") (codes "/var/log") ≡ true)
    ↔ IsBelow (codes "/var/log/a") (codes "/var/log")
path_is_under_iff_example =
    path_is_under_iff (codes "/var/log/a") (codes "/var/log") (λ e. absurd (cc))

not_under_slash_example : path_is_under (codes "/var/a") (codes "/var/") ≡ false
not_under_slash_example = not_under_slash (codes "/var") [] b'a' (omega arith)

preflight-decision_example :
    ((preflight config sys_info_request agent).decision ≡ approval_required
      ↔ ((codes "sys.info" ≡ codes "sys.info") × (true ≡ true)))
    × ((preflight config sys_info_request agent).decision ≢ allow)
preflight-decision_example = preflight-decision config sys_info_request agent

copy_json_object_raw-IsCopied_example :
    IsCopied (codes "{\"a\":{}},") 1024 (copy_json_object_raw (codes "{\"a\":{}},") 1024)
copy_json_object_raw-IsCopied_example = copy_json_object_raw-IsCopied (codes "{\"a\":{}},") 1024

extract_param_string-FitsIn_example :
    FitsIn 40 (extract_param_string (codes "{\"request_id\":\"req_1\"}") (codes "request_id") 40)
extract_param_string-FitsIn_example =
    extract_param_string-FitsIn (codes "{\"request_id\":\"req_1\"}") (codes "request_id") 40

abbrev two_reads : List ReadAnswer
two_reads = arrived b'a' [] ∷ interrupted ∷ arrived b'b' (b'\n' ∷ b'c' ∷ []) ∷ []

abbrev first_line : Bytes
first_line = b'a' ∷ b'b' ∷ b'\n' ∷ b'c' ∷ []

two_reads_received : read_request 64 two_reads false ≡ received first_line
unfolding read_request
two_reads_received = refl

read_request-IsPrefix_example :
    (length first_line < 64)
    × (IsPrefix first_line (stream two_reads)
        × (AtLine [] two_reads first_line ⊎ AtClose [] two_reads first_line))
read_request-IsPrefix_example =
    read_request-IsPrefix 64 two_reads false first_line two_reads_received

abbrev slow_peer : List WriteAnswer
slow_peer = took 1 ∷ write_interrupted ∷ took 2 ∷ []

write_response-IsWritten_example :
    IsWritten (c_str (codes "abc")) (write_response (codes "abc") slow_peer)
write_response-IsWritten_example = write_response-IsWritten (codes "abc") slow_peer
