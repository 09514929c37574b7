-- ===== src/Daemon/Serve/Induction.antt =====
-- A connection is turned away or handed to one of the handlers, and so are all that are served.
use anything_tool.Base.{not, Option, none, some, List, [], ◌∷◌, if-Holds, ◌⊎◌, inl, inr}
use anything_tool.Text.{Bytes}
use anything_tool.Identity.{Identity}
use anything_tool.Config.{Config}
use anything_tool.Transport.{peer_identity, Reading, received, lost}
use anything_tool.Daemon.World.{Os, World}
use anything_tool.Daemon.Serve.{
  Plane, Connection, handle, turn_away, take_request, admit, accept_peer, accept_one, serve,
}

module _ (os : Os) (config : Config) where
  module _ {ℓ} (Q : World → Type ℓ) (w : World)
      (turned : (kind message : Bytes) → Q (turn_away kind message w))
      (handled : (plane : Plane) (peer : Identity) (body : Bytes)
        → Q (handle os config plane peer body w)) where
    take_request_elim :
        (plane : Plane) (peer : Identity) (r : Reading) → Q (take_request os config plane peer r w)
    unfolding take_request
    take_request_elim plane peer (lost e) = turned _ _
    take_request_elim plane peer (received body) = handled plane peer body

    admit_elim :
        (c : Connection) (peer : Identity) (why : Option Bytes) → Q (admit os config c peer why w)
    unfolding admit
    admit_elim c peer (some why) = turned _ _
    admit_elim c peer none =
        if-Holds Q (not c.memory) (λ _. turned _ _) (λ _. take_request_elim c.plane peer _)

    accept_peer_elim :
        (c : Connection) (peer : Bytes ⊎ Identity) → Q (accept_peer os config c peer w)
    unfolding accept_peer
    accept_peer_elim c (inl error) = turned _ _
    accept_peer_elim c (inr peer) = admit_elim c peer _

    pub accept_one_elim : (c : Connection) → Q (accept_one os config c w)
    unfolding accept_one
    accept_one_elim c = accept_peer_elim c (peer_identity c.peer)

  module _ {ℓ} (P : World → Type ℓ)
      (turned : (kind message : Bytes) (w : World) → P w → P (turn_away kind message w))
      (handled : (plane : Plane) (peer : Identity) (body : Bytes) (w : World)
        → P w
        → P (handle os config plane peer body w)) where
    -- What both keep holds behind any connections.
    pub serve_inv :
        (connections : List Connection) (w : World) → P w → P (serve os config connections w)
    unfolding serve
    serve_inv [] w p = p
    serve_inv (c ∷ connections) w p = serve_inv connections (accept_one os config c w) (
        accept_one_elim P w (λ kind message. turned kind message w p)
          (λ plane peer body. handled plane peer body w p) c)
