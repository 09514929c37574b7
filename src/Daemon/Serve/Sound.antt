-- ===== src/Daemon/Serve/Sound.antt =====
-- What holds of the store after any requests at all.
use anything_tool.Base.{ℕ, ◌+◌, ◌≡◌, ◌≢◌, refl, sym, subst, true, some, List, get_elem?, All-get}
use anything_tool.Text.{Bytes}
use anything_tool.Identity.{Identity}
use anything_tool.Config.{Config}
use anything_tool.Config.Admin.{identity_is_admin}
use anything_tool.Rpc.Parse.Sound.{rpc_parse-IsWellFormed}
use anything_tool.Daemon.Steps.Taken.{Takes-IsSound}
use anything_tool.Approval.{granted, rejected, executed, Pending, Store, write}
use anything_tool.Approval.Sound.{
  is_authorised, IsEntry, IsSound, store_init-IsSound, write-IsSound, settled-IsEntry,
}
use anything_tool.Daemon.World.{Os, World, write_response}
use anything_tool.Daemon.Steps.{
  ToolStep, stay, submit, AdminStep, idle, approve, turn_down, execute,
}
use anything_tool.Daemon.Steps.Tool.{handle_tool_request-ToolStep}
use anything_tool.Daemon.Steps.Admin.{handle_admin_request-AdminStep}
use anything_tool.Daemon.Serve.Induction.{serve_inv}
use anything_tool.Daemon.Serve.{
  Plane, tool, admin, Connection, handle, turn_away, serve, started, Reach, fresh, by_tool,
  by_admin,
}

module _ (config : Config) (caller : Identity) (s s' : Store) (h : IsSound config s) where
  ToolStep-IsSound :
      (body : Bytes) (now : ℕ) → ToolStep config caller body now s s' → IsSound config s'
  ToolStep-IsSound body now (stay e) = subst (IsSound config) (sym e) h
  ToolStep-IsSound body now (submit r parsed method on taken) =
      Takes-IsSound config caller r now s s' taken (rpc_parse-IsWellFormed body r parsed) h

  written :
      (i : ℕ) (p q : Pending)
      → get_elem? s.entries i ≡ some p
      → q.request_id ≡ p.request_id
      → IsEntry config q
      → s' ≡ write s i q
      → IsSound config s'
  written i p q at same e made =
      subst (IsSound config) (sym made) (write-IsSound config s i q p h at same e)

  AdminStep-IsSound : (now : ℕ) → AdminStep config caller now s s' → IsSound config s'
  AdminStep-IsSound now (idle e) = subst (IsSound config) (sym e) h
  AdminStep-IsSound now (approve i p allowed at waits fresh_still other made) =
      written i p (record p { approver = caller; status = granted }) at refl
        (settled-IsEntry config p caller granted (All-get (IsEntry config) s.entries i h.each at)
          (λ _. other) (λ _. allowed))
        made
  AdminStep-IsSound now (turn_down i p allowed at other made) =
      written i p (record p { approver = caller; status = rejected }) at refl
        (settled-IsEntry config p caller rejected (All-get (IsEntry config) s.entries i h.each at)
          (λ _. other) (λ _. allowed))
        made
  AdminStep-IsSound now (execute i p allowed at ready fresh_still same method on made) =
      let e : IsEntry config p = All-get (IsEntry config) s.entries i h.each at in
      let yes_granted : is_authorised p.status ≡ true = rw ready in
      written i p (record p { status = executed }) at refl
        (settled-IsEntry config p p.approver executed e (λ _. e.other_approver yes_granted)
          (λ _. e.admin_approver yes_granted))
        made

Reach-IsSound : {config : Config} {s : Store} → Reach config s → IsSound config s
Reach-IsSound {config} fresh = store_init-IsSound config
Reach-IsSound {config} (by_tool {s} {s'} caller body now r t) =
    ToolStep-IsSound config caller s s' (Reach-IsSound r) body now t
Reach-IsSound {config} (by_admin {s} {s'} caller now r t) =
    AdminStep-IsSound config caller s s' (Reach-IsSound r) now t

handle-Reach :
    (os : Os) (config : Config) (plane : Plane) (peer : Identity) (body : Bytes) (w : World)
    → Reach config w.store
    → Reach config (handle os config plane peer body w).store
unfolding handle
handle-Reach os config tool peer body w r =
    by_tool peer body (os.time (w.ticks + 1)) r (handle_tool_request-ToolStep os config peer body w)
handle-Reach os config admin peer body w r =
    by_admin peer (os.time w.ticks) r (handle_admin_request-AdminStep os config peer body w)

pub turn_away-store :
    (kind message : Bytes) (w : World) → (turn_away kind message w).store ≡ w.store
unfolding turn_away write_response
turn_away-store kind message w = refl

serve-Reach :
    (os : Os) (config : Config) (connections : List Connection) (w : World)
    → Reach config w.store
    → Reach config (serve os config connections w).store
serve-Reach os config connections w =
    serve_inv os config (λ (v : World). Reach config v.store)
      (λ kind message v r. subst (Reach config) (sym (turn_away-store kind message v)) r)
      (handle-Reach os config) connections w

-- After any connections to the two sockets, from whatever peers and with whatever system calls, the
-- store holds 64 entries at most, numbered from 1 without a gap, each within its buffers, with
-- plain texts and with the hash of its own fields.
pub serve-IsSound :
    (os : Os) (config : Config) (connections : List Connection)
    → IsSound config (serve os config connections started).store
serve-IsSound os config connections =
    Reach-IsSound (serve-Reach os config connections started fresh)

-- After any connections to the two sockets, an entry that is granted or executed
-- was approved by an admin of the configuration who is not the entry's requester.
pub serve-two_persons :
    (os : Os) (config : Config) (connections : List Connection) (i : ℕ) (p : Pending)
    → get_elem? (serve os config connections started).store.entries i ≡ some p
    → is_authorised p.status ≡ true
    → (p.requester ≢ p.approver) × (identity_is_admin config p.approver ≡ true)
serve-two_persons os config connections i p at ready =
    let e : IsEntry config p =
      All-get (IsEntry config) (serve os config connections started).store.entries i
        (serve-IsSound os config connections).each at in
    (e.other_approver ready, e.admin_approver ready)
