-- ===== src/Tests/StartWitnesses.antt =====
-- The theorems about the start of the daemon at a concrete start.
use anything_tool.Base.{
  ltb, length, if◌then◌else◌, ◌≡◌, ◌≢◌, refl, true, false, ◌⊎◌, none, some, List, [], ◌∷◌,
  get_elem?,
}
use anything_tool.Text.{Bytes, codes, c_str, str_eq}
use anything_tool.Config.{Config}
use anything_tool.Config.Admin.{Listed}
use anything_tool.Config.Paths.{path_is_under}
use anything_tool.Config.Validate.{IsUsable, writable_over}
use anything_tool.Config.Load.{loaded, load_with_options}
use anything_tool.Config.Load.Usable.{load_with_options-IsUsable}
use anything_tool.Config.Load.Bounded.{IsBounded}
use anything_tool.Approval.{find}
use anything_tool.Approval.Lookup.{get-find}
use anything_tool.Daemon.Serve.Sound.{serve-IsSound}
use anything_tool.Client.{sends, invoke}
use anything_tool.Audit.{regular_file}
use anything_tool.Audit.Startup.{FileSystem, validate_startup}
use anything_tool.Approval.Listing.{approval_list_json}
use anything_tool.Approval.Listing.Whole.{whole_list, approval_list_json-whole_list}
use anything_tool.Audit.{open_audit_fd}
use anything_tool.Transport.{
  cleanup_socket, unlink_path, bind_path, chmod_path, listen_socket, close_socket, ListenAnswer,
  transport_listen,
}
use anything_tool.Daemon.World.{World}
use anything_tool.Daemon.Serve.{serve, started}
use anything_tool.Daemon.Loop.{poll_loop, poll_round, accept_ready}
use anything_tool.Daemon.Start.{socket_calls, Machine, run_daemon}
use anything_tool.Daemon.Start.Guarded.{has_dev_flag, config_path_of, run_daemon-guarded}
use anything_tool.Tests.ConfigTests.{config_file, loaded_config, load_config_file}
use anything_tool.Tests.DaemonTests.{
  agent, operator, os, life_rounds, life, run_life, executed_entry,
}

load_with_options-IsUsable_example : IsUsable loaded_config false × IsBounded loaded_config
load_with_options-IsUsable_example =
    load_with_options-IsUsable (some config_file) false loaded_config load_config_file

abbrev file_system : FileSystem
file_system = record { canonical = λ p. some p; is_directory = λ p. true; opened = regular_file }

abbrev listens_well : ListenAnswer
listens_well = record { socket_failure = none; bind_failure = none; listen_failure = none }

abbrev machine : Machine
machine = record {
  files = λ path. some config_file;
  file_system = file_system;
  tool_listen = listens_well;
  admin_listen = listens_well;
}

abbrev arguments : List Bytes
arguments = codes "a.toml" ∷ []

abbrev served : World
served = serve os loaded_config life started

starts : run_daemon machine os arguments life_rounds ≡ some served
unfolding run_daemon load_with_options validate_startup open_audit_fd path_is_under c_str
    writable_over transport_listen poll_loop poll_round accept_ready serve
starts = refl

served_entry : get_elem? served.store.entries 0 ≡ some executed_entry
unfolding run_life
served_entry = refl

no_dev_flag : has_dev_flag arguments ≡ false
unfolding str_eq
no_dev_flag = refl

run_daemon-guarded_example :
    (agent ≢ operator)
    × ((c : Config) × ((load_with_options (machine.files (config_path_of arguments)) false
            ≡ loaded c)
          × (Listed c.admin_allowed_uids 1000 ⊎ Listed c.admin_allowed_gids 1000)))
run_daemon-guarded_example =
    run_daemon-guarded machine os arguments life_rounds served 0 executed_entry no_dev_flag starts
      served_entry refl

get-find_example : find served.store (codes "req_1") ≡ some (0, executed_entry)
get-find_example =
    get-find loaded_config served.store 0 executed_entry (serve-IsSound os loaded_config life)
      served_entry

approval_list_json-whole_list_example :
    approval_list_json 4096 served.store
    ≡ (if ltb (length (whole_list served.store)) 4096 then some (whole_list served.store) else none)
approval_list_json-whole_list_example =
    approval_list_json-whole_list loaded_config 4096 served.store
      (serve-IsSound os loaded_config life)

-- The client's request is the one that the daemon's tests send, but for its id.
approve_invoked :
    invoke (codes "--admin-socket" ∷ codes "/tmp/a.sock" ∷ codes "approve" ∷ codes "req_1" ∷ [])
    ≡ sends (codes "/tmp/a.sock") (
        codes
          "{\"jsonrpc\":\"2.0\",\"id\":\"1\",\"method\":\"approval.approve\",\"params\":{\"request_id\":\"req_1\"}}\n")
unfolding invoke str_eq
approve_invoked = refl

-- A daemon whose admin socket cannot be bound leaves neither path behind.
abbrev admin_path_taken : Machine
admin_path_taken = record machine {
  admin_listen = record listens_well { bind_failure = some (codes "Permission denied") };
}

abbrev two_sockets : Config
two_sockets = record loaded_config {
  tool_socket_path = codes "/run/t";
  admin_socket_path = codes "/run/a";
}

calls_undone :
    socket_calls admin_path_taken two_sockets
    ≡ unlink_path (codes "/run/t")
      ∷ bind_path (codes "/run/t")
      ∷ chmod_path (codes "/run/t") 384
      ∷ listen_socket 16
      ∷ unlink_path (codes "/run/a")
      ∷ bind_path (codes "/run/a")
      ∷ close_socket
      ∷ unlink_path (codes "/run/t")
      ∷ []
unfolding socket_calls transport_listen cleanup_socket
calls_undone = refl
