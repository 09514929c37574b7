-- ===== src/Tests/EffectWitnesses.antt =====
-- The theorems about the effects of the requests, at the requests of a short life.
use anything_tool.Base.{
  Option, ℕ, Option, none, ◌⊎◌, ◌+◌, ◌++◌, ◌≡◌, ◌≢◌, arith, ap, refl, true, false, some, [], ◌∷◌,
}
use anything_tool.Text.{Bytes, codes}
use anything_tool.Config.Admin.{identity_is_admin}
use anything_tool.Approval.{Store, Status, Pending, find, write, has_expired}
use anything_tool.Audit.{audit_write_event}
use anything_tool.SysInfo.{report, sys_info_json}
use anything_tool.Rpc.Param.{extract_param_string}
use anything_tool.Rpc.Hash.{hash_request}
use anything_tool.Rpc.Request.{Request, ok}
use anything_tool.Rpc.Parse.{rpc_parse}
use anything_tool.Daemon.World.{World}
use anything_tool.Daemon.Tool.{handle_tool_request}
use anything_tool.Identity.{Identity}
use anything_tool.Rpc.Response.{rpc_result}
use anything_tool.Daemon.Steps.{Takes}
use anything_tool.Daemon.Admin.{entry_event, pending_to_request, handle_admin_request}
use anything_tool.Daemon.Serve.{tool, admin, handle, serve, started}
use anything_tool.Audit.Contract.{Extends}
use anything_tool.Daemon.Logs.Append.{serve-Extends}
use anything_tool.SysInfo.{SystemFacts}
use anything_tool.Daemon.Runs.{with_facts}
use anything_tool.Daemon.Runs.Only.{MayRun, handle-runs}
use anything_tool.Rpc.Response.Framed.{IsFramed}
use anything_tool.Daemon.Replies.Framed.{handle_tool_request-IsFramed}
use anything_tool.Audit.Timestamp.{timestamp_utc}
use anything_tool.Text.Decimal.{decimal}
use anything_tool.Daemon.Serve.History.{Persists, serve-Persists}
use anything_tool.Daemon.Steps.Effects.{
  start_event, finish_event, Leaves, handle_admin_request-approves, handle_admin_request-rejects,
  handle_admin_request-executes,
}
use anything_tool.Daemon.World.{Os}
use anything_tool.Daemon.Steps.Submits.{received_event, handle_tool_request-submits}
use anything_tool.Tests.ParseTests.{sys_info_body, sys_info_request, rpc_parse_sys_info}
use anything_tool.Tests.DaemonTests.{
  agent, operator, config, os, approve_body, execute_body, sends, run_life, executed_entry,
}

abbrev submitted : World
submitted = serve os config (sends tool agent sys_info_body ∷ []) started

abbrev waiting : Pending
waiting = record executed_entry {
  approver = record { uid = 0; gid = 0; pid = 0 };
  status = Status.pending;
}

received_logged :
    (audit_write_event (os.audit 0) (received_event os config agent sys_info_request)).1 ≡ true
unfolding run_life
received_logged = refl

handle_tool_request-submits_example :
    Takes config agent sys_info_request
      (os.time 1)
      started.store
      (handle_tool_request os config agent sys_info_body started).1.store
handle_tool_request-submits_example =
    handle_tool_request-submits os config agent sys_info_body started sys_info_request
      rpc_parse_sys_info received_logged refl refl (omega arith)

-- A request of the admin plane about the entry.
abbrev about_entry : Bytes → Bytes → Request
about_entry id method = record {
  id = id;
  method = method;
  session_id = codes "default";
  params = codes "{\"request_id\":\"req_1\"}";
  request_hash = hash_request method (codes "{\"request_id\":\"req_1\"}") (codes "default");
}

abbrev approve_request : Request
approve_request = about_entry (codes "2") (codes "approval.approve")

approve_parsed : rpc_parse approve_body ≡ ok approve_request
unfolding run_life
approve_parsed = refl

abbrev approved_entry : Pending
approved_entry = record waiting { approver = operator; status = Status.granted }

approve_named :
    extract_param_string approve_request.params (codes "request_id") 40 ≡ some (codes "req_1")
unfolding run_life
approve_named = refl

waiting_found : find submitted.store (codes "req_1") ≡ some (0, waiting)
unfolding run_life
waiting_found = refl

waiting_fresh : has_expired (os.time submitted.ticks) waiting ≡ false
unfolding has_expired
waiting_fresh = refl

others : agent ≢ operator
others e = absurd (omega (arith, ap (λ (who : Identity). who.uid) e))

operator_listed : identity_is_admin config operator ≡ true
unfolding run_life
operator_listed = refl

handle_admin_request-approves_example :
    Leaves submitted
      (handle_admin_request os config operator approve_body submitted).1
      (write submitted.store 0 approved_entry)
      (audit_write_event (os.audit (submitted.ticks + 1)) (
        entry_event
          (codes "approval_granted")
          approved_entry
          operator
          (codes "granted")
          []
          waiting.summary))
      (codes "2")
      (rpc_result (codes "2") (codes "{\"approved\":true}"))
handle_admin_request-approves_example =
    handle_admin_request-approves os config operator approve_body submitted approve_request
      (codes "req_1") 0 waiting approve_parsed operator_listed refl approve_named waiting_found refl
      waiting_fresh others

abbrev reject_body : Bytes
reject_body =
    codes
      "{\"jsonrpc\":\"2.0\",\"id\":\"4\",\"method\":\"approval.reject\",\"params\":{\"request_id\":\"req_1\"}}"

abbrev reject_request : Request
reject_request = about_entry (codes "4") (codes "approval.reject")

reject_parsed : rpc_parse reject_body ≡ ok reject_request
unfolding run_life
reject_parsed = refl

abbrev approved : World
approved =
    serve os config (sends tool agent sys_info_body ∷ sends admin operator approve_body ∷ [])
      started

abbrev execute_request : Request
execute_request = about_entry (codes "3") (codes "approval.execute")

execute_parsed : rpc_parse execute_body ≡ ok execute_request
unfolding run_life
execute_parsed = refl

entry_found : find approved.store (codes "req_1") ≡ some (0, approved_entry)
unfolding run_life
entry_found = refl

entry_fresh : has_expired (os.time approved.ticks) approved_entry ≡ false
unfolding has_expired
entry_fresh = refl

hash_kept : approved_entry.request_hash ≡ (pending_to_request approved_entry).request_hash
unfolding run_life
hash_kept = refl

method_kept : (pending_to_request approved_entry).method ≡ codes "sys.info"
unfolding run_life
method_kept = refl

start_logged :
    (audit_write_event
      (os.audit (approved.ticks + 1))
      (start_event os config operator execute_request 0 approved_entry)).1
    ≡ true
unfolding run_life
start_logged = refl

abbrev info : Bytes
info =
    codes
      "{\"version\":\"v0.1.1\",\"hostname\":\"h\",\"kernel_version\":\"6.1\",\"os_release\":\"unknown\",\"uptime\":\"12.3 4.5\",\"architecture\":\"x86_64\"}"

info_given : sys_info_json 2048 (os.facts (approved.ticks + 1 + 1)) ≡ report info
unfolding run_life
info_given = refl

handle_admin_request-executes_example :
    Leaves
      (record approved {
        log =
            approved.log
            ++ (audit_write_event
                (os.audit (approved.ticks + 1))
                (start_event os config operator execute_request 0 approved_entry)).0;
      })
      (handle_admin_request os config operator execute_body approved).1
      (write approved.store 0 (record approved_entry { status = Status.executed }))
      (audit_write_event
        (os.audit (approved.ticks + 1 + 1 + 1))
        (finish_event os config operator execute_request 0 approved_entry))
      (codes "3")
      (rpc_result (codes "3") info)
handle_admin_request-executes_example =
    handle_admin_request-executes os config operator execute_body approved execute_request
      (codes "req_1") 0 approved_entry info execute_parsed operator_listed refl approve_named
      entry_found refl entry_fresh hash_kept method_kept refl start_logged info_given

-- An entry that was executed can still be rejected.
abbrev executed_store : Store
executed_store = record { entries = executed_entry ∷ []; next_id = 2 }

abbrev after_life : World
after_life = record started { store = executed_store; ticks = 9 }

executed_found : find executed_store (codes "req_1") ≡ some (0, executed_entry)
unfolding run_life
executed_found = refl

handle_admin_request-rejects_example :
    Leaves after_life
      (handle_admin_request os config operator reject_body after_life).1
      (write executed_store 0 (record executed_entry { status = Status.rejected }))
      (audit_write_event (os.audit 9) (
        entry_event
          (codes "approval_rejected")
          (record executed_entry { status = Status.rejected })
          operator
          (codes "rejected")
          []
          executed_entry.summary))
      (codes "4")
      (rpc_result (codes "4") (codes "{\"rejected\":true}"))
handle_admin_request-rejects_example =
    handle_admin_request-rejects os config operator reject_body after_life reject_request
      (codes "req_1") 0 executed_entry reject_parsed operator_listed refl approve_named
      executed_found others

abbrev late_os : Os
late_os = record os { time = λ n. 1400 }

serve-Persists_example :
    Persists submitted.store
      (serve os config (sends admin operator approve_body ∷ []) submitted).store
serve-Persists_example = serve-Persists os config (sends admin operator approve_body ∷ []) submitted

serve-Extends_example :
    Extends os.audit submitted.log
      (serve os config (sends admin operator approve_body ∷ []) submitted).log
    × ((more : Bytes) × ((serve os config (sends admin operator approve_body ∷ []) submitted).log
          ≡ submitted.log ++ more))
serve-Extends_example = serve-Extends os config (sends admin operator approve_body ∷ []) submitted

-- A system whose uname fails.
abbrev no_facts : ℕ → SystemFacts
no_facts n = record { uname = none; uptime_file = none; os_release_file = none }

handle-runs_example :
    (handle os config admin operator execute_body approved
      ≡ handle (with_facts os no_facts) config admin operator execute_body approved)
    ⊎ ((admin ≡ admin) × MayRun os config operator execute_body approved)
handle-runs_example = handle-runs os no_facts config admin operator execute_body approved

handle_tool_request-IsFramed_example :
    (response : Option Bytes) × ((handle_tool_request os config agent sys_info_body started).1.sent
      ≡ started.sent ++ response ∷ [])
    × IsFramed response
handle_tool_request-IsFramed_example =
    handle_tool_request-IsFramed os config agent sys_info_body started

leap_day : timestamp_utc 1709210096 ≡ codes "2024-02-29T12:34:56Z"
unfolding timestamp_utc decimal
leap_day = refl
