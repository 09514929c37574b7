-- ===== src/Daemon/Logs/Append.antt =====
-- The audit log behind any connections.
use anything_tool.Base.{◌≡◌, ◌++◌, List}
use anything_tool.Text.{Bytes}
use anything_tool.Identity.{Identity}
use anything_tool.Config.{Config}
use anything_tool.Audit.Contract.{Extends, unchanged, Extends-trans, Extends-prefix}
use anything_tool.Daemon.World.{Os, World}
use anything_tool.Daemon.Tool.{send_invalid}
use anything_tool.Daemon.Serve.{Plane, tool, admin, Connection, handle, turn_away, serve}
use anything_tool.Daemon.Serve.Induction.{serve_inv}
use anything_tool.Daemon.Traverse.{handle_tool_request-Full, handle_admin_request-Full}
use anything_tool.Daemon.Logs.{Logs, Logs-write_response, Logs-Rules}

module _ (os : Os) (config : Config) where
  handle-Extends :
      (plane : Plane) (peer : Identity) (body : Bytes) (w : World)
      → Extends os.audit w.log (handle os config plane peer body w).log
  unfolding handle
  handle-Extends tool peer body w =
      (handle_tool_request-Full os config (Logs os) Logs-Rules peer body).at w
  handle-Extends admin peer body w =
      (handle_admin_request-Full os config (Logs os) Logs-Rules peer body).at w

  turn_away-Extends :
      (kind message : Bytes) (w : World) → Extends os.audit w.log (turn_away kind message w).log
  unfolding turn_away send_invalid
  turn_away-Extends kind message w = (Logs-write_response {os = os} _).at w

  all-Extends :
      (connections : List Connection) (w : World)
      → Extends os.audit w.log (serve os config connections w).log
  all-Extends connections w =
      serve_inv os config (λ (v : World). Extends os.audit w.log v.log)
        (λ kind message v h. Extends-trans h (turn_away-Extends kind message v))
        (λ plane peer body v h. Extends-trans h (handle-Extends plane peer body v)) connections w
        unchanged

  -- Whatever connections are served, the audit log only grows: what was in it stays its beginning,
  -- and all that is added is what calls of anything_audit_write_event write, one after another,
  -- each for an event of the contract's list.
  pub serve-Extends :
      (connections : List Connection) (w : World)
      → Extends os.audit w.log (serve os config connections w).log
        × ((more : Bytes) × ((serve os config connections w).log ≡ w.log ++ more))
  serve-Extends connections w =
      (all-Extends connections w, Extends-prefix (all-Extends connections w))
