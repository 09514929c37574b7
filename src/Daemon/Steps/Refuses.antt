-- ===== src/Daemon/Steps/Refuses.antt =====
-- What the requests of the admin plane answer where something stands against them.
use anything_tool.Base.{ℕ, ◌≡◌, ◌≢◌, true, false, Option, none, some, [], ◌∷◌, ◌++◌}
use anything_tool.Text.{Bytes}
use anything_tool.Identity.{Identity}
use anything_tool.Config.{Config}
use anything_tool.Approval.{
  Status, Pending, Found, Refusal, approval_not_found, approval_not_pending, approval_expired,
  control_plane_denied, approval_rejected, approval_required, request_changed, has_expired,
}
use anything_tool.Rpc.Request.{Request}
use anything_tool.Daemon.World.{World}
use anything_tool.Daemon.Admin.{pending_to_request}

-- All that the request does is to hand over this response.
abbrev pub OnlyAnswers : World → World → Option Bytes → Type 0
OnlyAnswers w v response =
    (v.store ≡ w.store) × (v.log ≡ w.log) × (v.sent ≡ w.sent ++ response ∷ [])

-- What stands against a grant by this admin at this time, with the error that it gives.
pub data AgainstGrant (admin : Identity) (now : ℕ) : Option Found → Refusal → Type 0 where
  missing : AgainstGrant admin now none approval_not_found
  settled :
      (i : ℕ) (p : Pending)
      → p.status ≢ Status.pending
      → AgainstGrant admin now (some (i, p)) approval_not_pending
  late :
      (i : ℕ) (p : Pending)
      → p.status ≡ Status.pending
      → has_expired now p ≡ true
      → AgainstGrant admin now (some (i, p)) approval_expired
  own :
      (i : ℕ) (p : Pending)
      → p.status ≡ Status.pending
      → has_expired now p ≡ false
      → p.requester ≡ admin
      → AgainstGrant admin now (some (i, p)) control_plane_denied

-- What stands against an execution at this time, with the error that it gives.
pub data AgainstExecution (now : ℕ) : Option Found → Refusal → Type 0 where
  absent : AgainstExecution now none approval_not_found
  turned_down :
      (i : ℕ) (p : Pending)
      → p.status ≡ Status.rejected
      → AgainstExecution now (some (i, p)) approval_rejected
  not_granted :
      (i : ℕ) (p : Pending)
      → p.status ≢ Status.granted
      → p.status ≢ Status.rejected
      → AgainstExecution now (some (i, p)) approval_required
  too_late :
      (i : ℕ) (p : Pending)
      → p.status ≡ Status.granted
      → has_expired now p ≡ true
      → AgainstExecution now (some (i, p)) approval_expired
  changed :
      (i : ℕ) (p : Pending)
      → p.status ≡ Status.granted
      → has_expired now p ≡ false
      → p.request_hash ≢ (pending_to_request p).request_hash
      → AgainstExecution now (some (i, p)) request_changed
