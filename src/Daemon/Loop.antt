-- ===== src/Daemon/Loop.antt =====
-- The loop of `main` in anythingd.c: poll on the two sockets, the tool socket first, until a signal.
use anything_tool.Base.{
  ◌≡◌, refl, sym, ap, ◌∙◌, Bool, Option, none, some, List, [], ◌∷◌, ◌++◌, if◌then◌else◌, Bool-cases,
  inl, inr,
}
use anything_tool.Config.{Config}
use anything_tool.Daemon.World.{Os, World}
use anything_tool.Daemon.Serve.{Plane, tool, admin, Connection, accept_one, serve}

-- One round: whether on_signal has run before it, whether poll reports a socket, and what is
-- accepted on each socket that is ready. An accept that fails changes nothing, as no accept does.
pub record Round : Type 0 where
  pub signalled : Bool
  pub ready : Bool
  pub tool_ready : Option Connection
  pub admin_ready : Option Connection

-- accept_one with the plane of the listening socket.
unfoldable pub accept_ready : Os → Config → Plane → Option Connection → World → World
accept_ready os config plane none w = w
accept_ready os config plane (some c) w = accept_one os config (record c { plane = plane }) w

unfoldable pub poll_round : Os → Config → Round → World → World
poll_round os config r w =
    if r.ready
    then accept_ready os config admin r.admin_ready (accept_ready os config tool r.tool_ready w)
    else w

unfoldable pub poll_loop : Os → Config → List Round → World → World
poll_loop os config [] w = w
poll_loop os config (r ∷ rounds) w =
    let rest = poll_loop os config rounds (poll_round os config r w) in
    if r.signalled then w else rest

-- The connections of the rounds, in the order in which they are served.
unfoldable pub accepted : Plane → Option Connection → List Connection
accepted plane none = []
accepted plane (some c) = record c { plane = plane } ∷ []

unfoldable pub round_arrivals : Round → List Connection
round_arrivals r =
    if r.ready then accepted tool r.tool_ready ++ accepted admin r.admin_ready else []

unfoldable pub arrivals : List Round → List Connection
unfolding round_arrivals accepted
arrivals [] = []
arrivals (r ∷ rounds) =
    let rest = arrivals rounds in if r.signalled then [] else round_arrivals r ++ rest

module _ (os : Os) (config : Config) where
  serve-append :
      (cs ds : List Connection) (w : World)
      → serve os config (cs ++ ds) w ≡ serve os config ds (serve os config cs w)
  unfolding serve
  serve-append [] ds w = refl
  serve-append (c ∷ cs) ds w = serve-append cs ds (accept_one os config c w)

  serve-accepted :
      (plane : Plane) (c : Option Connection) (w : World)
      → serve os config (accepted plane c) w ≡ accept_ready os config plane c w
  unfolding serve accepted accept_ready
  serve-accepted plane none w = refl
  serve-accepted plane (some c) w = refl

  serve-round_arrivals :
      (r : Round) (w : World) → serve os config (round_arrivals r) w ≡ poll_round os config r w
  unfolding serve round_arrivals poll_round
  serve-round_arrivals r w = elim (Bool-cases r.ready) [
    | inl polled ↦ simp polled (
        serve-append (accepted tool r.tool_ready) (accepted admin r.admin_ready) w
        ∙ serve-accepted admin r.admin_ready _
        ∙ ap (accept_ready os config admin r.admin_ready) (serve-accepted tool r.tool_ready w))
    | inr idle ↦ simp idle refl
  ]

  -- The loop serves the connections of its rounds, one after another.
  pub poll_loop-serve :
      (rounds : List Round) (w : World)
      → poll_loop os config rounds w ≡ serve os config (arrivals rounds) w
  unfolding poll_loop arrivals serve
  poll_loop-serve [] w = refl
  poll_loop-serve (r ∷ rounds) w = elim (Bool-cases r.signalled) [
    | inl stopped ↦ simp stopped refl
    | inr runs ↦ simp runs (
        poll_loop-serve rounds (poll_round os config r w)
        ∙ ap (serve os config (arrivals rounds)) (sym (serve-round_arrivals r w))
        ∙ sym (serve-append (round_arrivals r) (arrivals rounds) w))
  ]
