-- ===== src/Tests/ClientWitnesses.antt =====
-- The client at an approval, and what the daemon's parser makes of its request.
use anything_tool.Base.{
  true, ℕ, ◌+◌, ◌<◌, ◌≡◌, refl, arith, none, some, [], ◌∷◌, ◌++◌, length, pos, ◌+ℤ◌,
}
use anything_tool.Text.{codes, c_str, str_eq}
use anything_tool.Approval.{Pending, Status}
use anything_tool.Audit.{audit_write_event}
use anything_tool.Transport.Reads.{stream}
use anything_tool.Daemon.Serve.{accept_one, started}
use anything_tool.Daemon.Steps.Submits.{received_event}
use anything_tool.Daemon.Heard.{arrives, session_request, accept_one-hears}
use anything_tool.Tests.ParseTests.{sys_info_body}
use anything_tool.Tests.DaemonTests.{agent, config, os, whole, run_life}
use anything_tool.Rpc.Param.{extract_param_string}
use anything_tool.Rpc.Request.{Request, ok}
use anything_tool.Rpc.Parse.{rpc_parse}
use anything_tool.Transport.{took, write_response, written}
use anything_tool.Client.{make_request, invoke}
use anything_tool.Client.RoundTrip.{asks_approve, rpc_parse-make_request}
use anything_tool.Client.Main.{read_bytes, ClientSystem, run_client}

rpc_parse-make_request_example :
    (r : Request) × (rpc_parse (make_request (codes "approve") (codes "req_1")) ≡ ok r)
    × (r.method ≡ codes "approval.approve")
    × ((n : ℕ)
        → length (codes "req_1") < n
        → extract_param_string r.params (codes "request_id") n ≡ some (codes "req_1"))
rpc_parse-make_request_example =
    rpc_parse-make_request (codes "req_1") asks_approve (refl, (refl, (refl, (refl, (refl, tt)))))
      (omega arith)

abbrev system : ClientSystem
system = record {
  connect = λ path. none;
  writes = took 2047 ∷ [];
  read = read_bytes (codes "{}\n");
}

approve_run :
    run_client system
      (codes "--admin-socket" ∷ codes "/run/admin.sock" ∷ codes "approve" ∷ codes "req_1" ∷ [])
    ≡ record {
      exit_code = 0;
      stdout = codes "{}\n";
      stderr = [];
      sent = some (written (make_request (codes "approve") (codes "req_1")));
    }
unfolding run_client invoke make_request write_response c_str str_eq
approve_run = refl

heard_logged :
    (audit_write_event
      (os.audit 0)
      (received_event os config agent (session_request (codes "s")))).1
    ≡ true
unfolding run_life
heard_logged = refl

heard_bytes : stream (whole sys_info_body) ≡ make_request (codes "sys-info") (codes "s")
unfolding make_request str_eq
heard_bytes = refl

heard_fits : length (make_request (codes "sys-info") (codes "s")) < config.max_request_bytes
unfolding make_request str_eq
heard_fits = omega arith

accept_one-hears_example :
    (p : Pending) × ((accept_one os config
        (arrives agent (whole sys_info_body))
        started).store.entries
      ≡ started.store.entries ++ p ∷ [])
    × (p.status ≡ Status.pending)
    × (p.requester ≡ agent)
    × (p.method ≡ codes "sys.info")
    × (p.session_id ≡ codes "s")
    × (p.expires_at ≡ pos (os.time (started.ticks + 1)) +ℤ config.approval_ttl_seconds)
accept_one-hears_example =
    accept_one-hears os config agent (whole sys_info_body) started (codes "s") (refl, tt)
      (omega arith) refl heard_bytes heard_fits refl heard_logged (omega arith)
