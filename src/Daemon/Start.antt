-- ===== src/Daemon/Start.antt =====
-- main of anythingd.c: the arguments, the configuration, the audit log, the two sockets, and then
-- the connections. What is printed to stderr is not modelled.
pub mod Guarded
use anything_tool.Base.{
  ℕ, ◌≡◌, Bool, true, false, ◌||◌, Option, none, some, List, [], ◌∷◌, ◌++◌, if◌then◌else◌,
}
use anything_tool.Text.{Bytes, codes, str_eq}
use anything_tool.Config.{Config}
use anything_tool.Config.Load.{LoadError, Load, loaded, failed, load_with_options}
use anything_tool.Audit.Startup.{FileSystem, StartupError, validate_startup}
use anything_tool.Transport.{
  SocketCall, close_socket, Listening, ListenAnswer, transport_listen, cleanup_socket,
}
use anything_tool.Daemon.World.{Os, World}
use anything_tool.Daemon.Serve.{started}
use anything_tool.Daemon.Loop.{Round, poll_loop}

pub record Arguments : Type 0 where
  pub config_path : Bytes
  pub allow_dev_insecure_admin : Bool

abbrev pub default_arguments : Arguments
default_arguments = record {
  config_path = codes "config/anythingd.example.toml";
  allow_dev_insecure_admin = false;
}

unfoldable pub read_argument : Arguments → Bytes → Arguments
read_argument a arg =
    if str_eq arg (codes "--dev-insecure-admin")
    then record a { allow_dev_insecure_admin = true }
    else record a { config_path = arg }

-- The loop over argv, behind the program's name.
unfoldable pub read_arguments : Arguments → List Bytes → Arguments
read_arguments a [] = a
read_arguments a (arg ∷ args) = read_arguments (read_argument a arg) args

-- The system at the start: the files by their paths, and the calls for the two sockets.
pub record Machine : Type 0 where
  pub files : Bytes → Option Bytes
  pub file_system : FileSystem
  pub tool_listen : ListenAnswer
  pub admin_listen : ListenAnswer

-- The reasons for an exit with code 2.
pub data Exit : Type 0 where
  config_error : LoadError → Exit
  audit_error : StartupError → Exit
  tool_socket_error admin_socket_error : Bytes → Exit

pub data Start : Type 0 where
  exits : Exit → Start
  listens : Config → Start

-- 0600
abbrev pub socket_mode : ℕ
socket_mode = 384

unfoldable pub open_sockets : Machine → Config → Start
open_sockets m c = elim (transport_listen c.tool_socket_path socket_mode m.tool_listen).1 [
  | some why ↦ exits (tool_socket_error why)
  | none ↦ elim (transport_listen c.admin_socket_path socket_mode m.admin_listen).1 [
    | some why ↦ exits (admin_socket_error why)
    | none ↦ listens c
  ]
]

-- Behind the loop.
unfoldable pub close_sockets : Config → List SocketCall
unfolding cleanup_socket
close_sockets c =
    close_socket
    ∷ close_socket
    ∷ (cleanup_socket c.tool_socket_path ++ cleanup_socket c.admin_socket_path)

-- The calls for the admin socket, and those that undo or end what is open.
unfoldable pub admin_socket_calls : Config → Listening → List SocketCall
unfolding cleanup_socket close_sockets
admin_socket_calls c (calls, some why) = calls ++ cleanup_socket c.tool_socket_path
admin_socket_calls c (calls, none) = calls ++ close_sockets c

unfoldable pub tool_socket_calls : Config → Listening → Listening → List SocketCall
tool_socket_calls c (calls, some why) admin_socket = calls
tool_socket_calls c (calls, none) admin_socket = calls ++ admin_socket_calls c admin_socket

-- All calls on the two sockets that `main` makes, from the first to its exit.
unfoldable pub socket_calls : Machine → Config → List SocketCall
unfolding tool_socket_calls admin_socket_calls
socket_calls m c =
    tool_socket_calls c (transport_listen c.tool_socket_path socket_mode m.tool_listen)
      (transport_listen c.admin_socket_path socket_mode m.admin_listen)

unfoldable pub check_audit : Machine → Config → Start
check_audit m c = elim (validate_startup m.file_system c) [
  | some e ↦ exits (audit_error e)
  | none ↦ open_sockets m c
]

unfoldable pub configure : Machine → Load Config → Start
configure m (failed e) = exits (config_error e)
configure m (loaded c) = check_audit m c

unfoldable pub start : Machine → List Bytes → Start
unfolding read_arguments read_argument configure check_audit open_sockets
start m argv =
    let a = read_arguments default_arguments argv in
    configure m (load_with_options (m.files a.config_path) a.allow_dev_insecure_admin)

-- The state behind the rounds of the loop, where the daemon starts.
unfoldable pub serve_from : Os → List Round → Start → Option World
serve_from os rounds (exits why) = none
serve_from os rounds (listens c) = some (poll_loop os c rounds started)

unfoldable pub run_daemon : Machine → Os → List Bytes → List Round → Option World
unfolding start serve_from
run_daemon m os argv rounds = serve_from os rounds (start m argv)
