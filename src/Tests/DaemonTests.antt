-- ===== src/Tests/DaemonTests.antt =====
-- A request, its approval and its execution, from an empty store.
use mathlib.Core.Option
use anything_tool.Base.{◌≡◌, refl, List, [], ◌∷◌, some, none, true, false, pos, ◌+ℤ◌}
use anything_tool.Text.{Bytes, codes, str_eq, starts_with}
use anything_tool.Text.Decimal.{decimal}
use anything_tool.Json.{escape_string}
use anything_tool.Identity.{Identity}
use anything_tool.Config.{Config, config_init}
use anything_tool.Config.Admin.{identity_is_admin, lists_id}
use anything_tool.Policy.{preflight}
use anything_tool.Approval.{
  Status, Pending, add, find, write, grant, reject, validate_for_execute, kind_text,
}
use anything_tool.Approval.Listing.{approval_list_json}
use anything_tool.Audit.{
  AuditIo, regular_file, audit_write_event, open_audit_fd, escape_event, print_event, print_next,
  print_approver, print, head_text, approver_text, tail_text, identity_text,
}
use anything_tool.Audit.Timestamp.{timestamp_utc}
use anything_tool.SysInfo.{SystemFacts, sys_info_json}
use anything_tool.Rpc.Hash.{hash_request}
use anything_tool.Rpc.Param.{extract_param_string}
use anything_tool.Rpc.Request.{error_text}
use anything_tool.Rpc.Parse.{rpc_parse}
use anything_tool.Rpc.Response.{rpc_error, rpc_result, format_int}
use anything_tool.Transport.{
  known, peer_identity, set_read_timeout, ReadAnswer, arrived, closed, read_request,
}
use anything_tool.Daemon.World.{
  Os, World, ◌>>=◌, ◌>>◌, pure, write_response, get_store, put_store, time_now, sys_info,
  audit_event, checked_audit,
}
use anything_tool.Daemon.Tool.{
  send_invalid, approval_data, announce, add_pending, deny_tool, apply_policy, deny_control_plane,
  route_tool, handle_tool_request,
}
use anything_tool.Daemon.Admin.{
  pending_to_request, current_hash, reply_error, finish_execution, start_execution, recheck,
  execute_found, handle_admin_execute, handle_list, settle, handle_grant, handle_reject, decide,
  handle_decision, deny_admin, route_admin, handle_admin_request,
}
use anything_tool.Daemon.Serve.{
  Plane, tool, admin, Connection, accept_one, accept_peer, admit, take_request, turn_away, handle,
  serve, started,
}
use anything_tool.Daemon.Loop.{Round}
use anything_tool.Tests.ParseTests.{sys_info_body, sys_info_request}

abbrev pub agent : Identity
agent = record { uid = 1001; gid = 1001; pid = 77 }

abbrev pub operator : Identity
operator = record { uid = 1000; gid = 1000; pid = 78 }

abbrev pub config : Config
config = record config_init { capability_sys_read = true; admin_allowed_uids = pos 1000 ∷ [] }

abbrev pub audit_works : AuditIo
audit_works = record {
  opened = regular_file;
  now = 1783987200;
  head_print = none;
  approver_print = none;
  tail_print = none;
  closes = true;
}

abbrev pub facts : SystemFacts
facts = record {
  uname = some (record { nodename = codes "h"; release = codes "6.1"; machine = codes "x86_64" });
  uptime_file = some (codes "12.3 4.5\n");
  os_release_file = none;
}

abbrev pub os : Os
os = record { time = λ n. 1000; audit = λ n. audit_works; facts = λ n. facts }

abbrev pub approve_body : Bytes
approve_body =
    codes
      "{\"jsonrpc\":\"2.0\",\"id\":\"2\",\"method\":\"approval.approve\",\"params\":{\"request_id\":\"req_1\"}}\n"

abbrev pub execute_body : Bytes
execute_body =
    codes
      "{\"jsonrpc\":\"2.0\",\"id\":\"3\",\"method\":\"approval.execute\",\"params\":{\"request_id\":\"req_1\"}}\n"

abbrev statuses : List Pending → List Status
statuses [] = []
statuses (p ∷ ps) = p.status ∷ statuses ps

abbrev pub whole : Bytes → List ReadAnswer
whole [] = closed ∷ []
whole (c ∷ cs) = arrived c cs ∷ []

-- A connection whose request arrives whole.
abbrev pub sends : Plane → Identity → Bytes → Connection
sends plane peer body = record {
  plane = plane;
  peer = known peer;
  setsockopt = λ t. none;
  memory = true;
  answers = whole body;
  late = false;
}

abbrev pub life : List Connection
life =
    sends tool agent sys_info_body
    ∷ sends admin operator approve_body
    ∷ sends admin operator execute_body
    ∷ []

-- The connections of `life`, one in a round, and then a signal.
abbrev pub life_rounds : List Round
life_rounds =
    record {
      signalled = false;
      ready = true;
      tool_ready = some (sends tool agent sys_info_body);
      admin_ready = some (sends admin operator approve_body);
    }
    ∷ record { signalled = false; ready = false; tool_ready = none; admin_ready = none }
    ∷ record {
      signalled = false;
      ready = true;
      tool_ready = none;
      admin_ready = some (sends admin operator execute_body);
    }
    ∷ record {
      signalled = true;
      ready = true;
      tool_ready = some (sends tool agent sys_info_body);
      admin_ready = none;
    }
    ∷ []

-- The daemon on a list of requests, to be evaluated.
unfoldable pub run_life : List Connection → World
unfolding serve accept_one accept_peer admit take_request turn_away read_request peer_identity
    set_read_timeout handle handle_tool_request handle_admin_request route_tool apply_policy
    add_pending announce deny_tool deny_control_plane send_invalid approval_data route_admin
    deny_admin handle_list handle_decision decide handle_grant handle_reject settle
    handle_admin_execute execute_found recheck start_execution finish_execution reply_error
    current_hash pending_to_request ◌>>=◌ ◌>>◌ pure write_response get_store put_store time_now
    sys_info audit_event checked_audit rpc_parse error_text extract_param_string hash_request
    rpc_error rpc_result audit_write_event open_audit_fd escape_event print_event print_next
    print_approver print head_text approver_text tail_text identity_text timestamp_utc sys_info_json
    escape_string starts_with str_eq preflight add find write grant reject validate_for_execute
    approval_list_json kind_text identity_is_admin lists_id format_int decimal ◌+ℤ◌ Option.bind
run_life connections = serve os config connections started

-- The entry of `life` at its end.
abbrev pub executed_entry : Pending
executed_entry = record {
  request_id = codes "req_1";
  request_hash = sys_info_request.request_hash;
  requester = agent;
  approver = operator;
  session_id = codes "s";
  method = codes "sys.info";
  params = codes "{\"session_id\":\"s\"}";
  risk = codes "low";
  summary = codes "Read Linux system information with sys.info";
  expires_at = pos 1300;
  status = Status.executed;
}

life_executed : statuses (run_life life).store.entries ≡ Status.executed ∷ []
unfolding run_life
life_executed = refl

first_response :
    (run_life (sends admin agent approve_body ∷ [])).sent
    ≡ some (
        codes
          "{\"jsonrpc\":\"2.0\",\"id\":\"2\",\"error\":{\"code\":-32040,\"message\":\"admin caller is not authorized\",\"data\":{\"kind\":\"control_plane_denied\"}}}\n")
      ∷ []
unfolding run_life
first_response = refl

first_log_line :
    (run_life (sends admin agent approve_body ∷ [])).log
    ≡ codes
        "{\"timestamp\":\"2026-07-14T00:00:00Z\",\"event\":\"preflight_denied\",\"request_id\":\"\",\"session_id\":\"default\",\"caller\":{\"uid\":1001,\"gid\":1001,\"pid\":77},\"method\":\"approval.approve\",\"risk\":\"denied\",\"decision\":\"deny\",\"error_kind\":\"control_plane_denied\",\"duration_ms\":0,\"params_summary\":\"admin caller is not in allowlist\"}\n"
unfolding run_life
first_log_line = refl
