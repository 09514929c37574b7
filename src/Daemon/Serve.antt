-- ===== src/Daemon/Serve.antt =====
-- accept_one and the loop of `main` in anythingd.c: one connection after another, each on the
-- plane of the socket that it came in by.
pub mod Induction
pub mod Sound
pub mod History
use anything_tool.Base.{
  ℕ, Bool, Option, none, some, not, if◌then◌else◌, List, [], ◌∷◌, ◌++◌, ◌≡◌, ◌⊎◌, inl, inr,
}
use anything_tool.Text.{Bytes, codes, clip}
use anything_tool.Identity.{Identity}
use anything_tool.Config.{Config}
use anything_tool.Approval.{Store, store_init}
use anything_tool.Daemon.World.{Os, World}
use anything_tool.Transport.{
  Credentials, peer_identity, Timeval, set_read_timeout, ReadAnswer, Reading, received, lost,
  read_error_text, read_request,
}
use anything_tool.Daemon.Tool.{send_invalid, handle_tool_request}
use anything_tool.Daemon.Admin.{handle_admin_request}
use anything_tool.Daemon.Steps.{ToolStep, AdminStep}

-- anything_socket_plane
pub data Plane : Type 0 where
  tool admin : Plane

-- A connection that was accepted, by what the system answers on it: the peer, the failure of
-- SO_RCVTIMEO if there is one, whether calloc succeeds, the rounds of reading before the
-- deadline, and whether the deadline passes behind the last of them.
pub record Connection : Type 0 where
  pub plane : Plane
  pub peer : Credentials
  pub setsockopt : Timeval → Option Bytes
  pub memory : Bool
  pub answers : List ReadAnswer
  pub late : Bool

-- The last call of accept_one, by the plane of the listening socket.
unfoldable pub handle : Os → Config → Plane → Identity → Bytes → World → World
handle os config tool peer body w = (handle_tool_request os config peer body w).1
handle os config admin peer body w = (handle_admin_request os config peer body w).1

-- send_invalid without a request: its id is the text null.
unfoldable pub turn_away : Bytes → Bytes → World → World
unfolding send_invalid
turn_away kind message w = (send_invalid (codes "null") kind message w).1

unfoldable pub take_request : Os → Config → Plane → Identity → Reading → World → World
take_request os config plane peer (lost e) w =
    turn_away (codes "resource_limit") (read_error_text e) w
take_request os config plane peer (received body) w = handle os config plane peer body w

unfoldable pub admit : Os → Config → Connection → Identity → Option Bytes → World → World
admit os config c peer (some error) w = turn_away (codes "resource_limit") error w
admit os config c peer none w =
    if not c.memory
    then turn_away (codes "resource_limit") (codes "allocation failed") w
    else take_request os config c.plane peer
        (read_request config.max_request_bytes c.answers c.late) w

unfoldable pub accept_peer : Os → Config → Connection → Bytes ⊎ Identity → World → World
unfolding set_read_timeout
accept_peer os config c (inl error) w = turn_away (codes "control_plane_denied") error w
accept_peer os config c (inr peer) w =
    admit os config c peer (set_read_timeout c.setsockopt config.read_timeout_ms) w

-- Behind an accept that succeeds; one that fails changes nothing.
unfoldable pub accept_one : Os → Config → Connection → World → World
unfolding peer_identity
accept_one os config c w = accept_peer os config c (peer_identity c.peer) w

-- The loop of `main`, which takes one connection after another.
unfoldable pub serve : Os → Config → List Connection → World → World
serve os config [] w = w
serve os config (c ∷ connections) w = serve os config connections (accept_one os config c w)

abbrev pub started : World
started = record { store = store_init; log = []; sent = []; ticks = 0 }

-- The stores that any requests can lead to.
pub data Reach (config : Config) : Store → Type 0 where
  fresh : Reach config store_init
  by_tool :
      {s s' : Store} (caller : Identity) (body : Bytes) (now : ℕ)
      → Reach config s
      → ToolStep config caller body now s s'
      → Reach config s'
  by_admin :
      {s s' : Store} (caller : Identity) (now : ℕ)
      → Reach config s
      → AdminStep config caller now s s'
      → Reach config s'
