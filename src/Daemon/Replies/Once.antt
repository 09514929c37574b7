-- ===== src/Daemon/Replies/Once.antt =====
-- The handlers call anything_transport_write_response once on every path.
use anything_tool.Base.{◌+◌, ◌≡◌, length}
use anything_tool.Text.{Bytes}
use anything_tool.Identity.{Identity}
use anything_tool.Config.{Config}
use anything_tool.Daemon.World.{Os, World}
use anything_tool.Daemon.Tool.{send_invalid}
use anything_tool.Daemon.Serve.Induction.{accept_one_elim}
use anything_tool.Daemon.Serve.{Plane, tool, admin, Connection, handle, turn_away, accept_one}
use anything_tool.Daemon.Replies.{Sends, Sends-write_response, Sends-Rules}
use anything_tool.Daemon.Traverse.{handle_tool_request-Full, handle_admin_request-Full}

-- For each request on a plane, well formed or not, and whatever the system calls answer,
-- exactly one buffer is handed over.
handle_once :
    (os : Os) (config : Config) (plane : Plane) (peer : Identity) (body : Bytes) (w : World)
    → length (handle os config plane peer body w).sent ≡ length w.sent + 1
unfolding handle
handle_once os config tool peer body w =
    (handle_tool_request-Full os config (Sends 1) (Sends-Rules os) peer body).at w
handle_once os config admin peer body w =
    (handle_admin_request-Full os config (Sends 1) (Sends-Rules os) peer body).at w

turn_away_once :
    (kind message : Bytes) (w : World) → length (turn_away kind message w).sent ≡ length w.sent + 1
unfolding turn_away send_invalid
turn_away_once kind message w = (Sends-write_response _).at w

module _ (os : Os) (config : Config) where
  -- For each connection that is accepted exactly one buffer is handed over.
  pub accept_one_once :
      (c : Connection) (w : World) → length (accept_one os config c w).sent ≡ length w.sent + 1
  accept_one_once c w =
      accept_one_elim os config (λ (v : World). length v.sent ≡ length w.sent + 1) w
        (λ kind message. turn_away_once kind message w)
        (λ plane peer body. handle_once os config plane peer body w) c
