-- ===== src/Daemon/Steps.antt =====
-- What a request may do to the approval store, as relations: the contract of the two planes.
pub mod Taken
pub mod Tool
pub mod Admin
pub mod Effects
pub mod Submits
pub mod Refuses
use anything_tool.Base.{
  ℕ, ◌+◌, ◌<◌, ◌≡◌, ◌≢◌, Bool, true, false, some, List, [], ◌∷◌, ◌++◌, length, get_elem?, ℤ, pos,
  ◌+ℤ◌,
}
use anything_tool.Text.{Bytes, codes}
use anything_tool.Identity.{Identity, no_identity}
use anything_tool.Config.{Config}
use anything_tool.Config.Admin.{identity_is_admin}
use anything_tool.Approval.{
  Status, pending, granted, rejected, executed, Pending, Store, request_id_of, write, has_expired,
}
use anything_tool.Daemon.Admin.{pending_to_request}
use anything_tool.Rpc.Request.{Request, ok}
use anything_tool.Rpc.Parse.{rpc_parse}

-- The second store is the first with one entry more, at its end: one that waits for an approval
-- of this caller's request, with the request's own fields, until the configured time is over.
pub record Takes (config : Config) (caller : Identity) (r : Request) (now : ℕ) (s t : Store)
    : Type 0 where
  pub entry : Pending
  pub room : length s.entries < 64
  pub listed : t.entries ≡ s.entries ++ entry ∷ []
  pub counted : t.next_id ≡ s.next_id + 1
  pub waits : entry.status ≡ pending
  pub requester_is : entry.requester ≡ caller
  pub unapproved : entry.approver ≡ no_identity
  pub id_is : entry.request_id ≡ request_id_of s.next_id
  pub hash_is : entry.request_hash ≡ r.request_hash
  pub session_is : entry.session_id ≡ r.session_id
  pub method_is : entry.method ≡ r.method
  pub params_is : entry.params ≡ r.params
  pub risk_is : entry.risk ≡ codes "low"
  pub summary_is : entry.summary ≡ codes "Read Linux system information with sys.info"
  pub expires : entry.expires_at ≡ pos now +ℤ config.approval_ttl_seconds

-- The agent plane leaves the store, or takes an entry for the request that the body holds.
pub data ToolStep (config : Config) (caller : Identity) (body : Bytes) (now : ℕ) (s t : Store)
    : Type 0 where
  stay : t ≡ s → ToolStep config caller body now s t
  submit :
      (r : Request)
      → rpc_parse body ≡ ok r
      → r.method ≡ codes "sys.info"
      → config.capability_sys_read ≡ true
      → Takes config caller r now s t
      → ToolStep config caller body now s t

-- The admin plane leaves the store, or changes one entry, on behalf of an admin, at a
-- time.
pub data AdminStep (config : Config) (admin : Identity) (now : ℕ) (s s' : Store) : Type 0 where
  idle : s' ≡ s → AdminStep config admin now s s'
  approve :
      (i : ℕ) (p : Pending)
      → identity_is_admin config admin ≡ true
      → get_elem? s.entries i ≡ some p
      → p.status ≡ pending
      → has_expired now p ≡ false
      → p.requester ≢ admin
      → s' ≡ write s i (record p { approver = admin; status = granted })
      → AdminStep config admin now s s'
  turn_down :
      (i : ℕ) (p : Pending)
      → identity_is_admin config admin ≡ true
      → get_elem? s.entries i ≡ some p
      → p.requester ≢ admin
      → s' ≡ write s i (record p { approver = admin; status = rejected })
      → AdminStep config admin now s s'
  execute :
      (i : ℕ) (p : Pending)
      → identity_is_admin config admin ≡ true
      → get_elem? s.entries i ≡ some p
      → p.status ≡ granted
      → has_expired now p ≡ false
      → p.request_hash ≡ (pending_to_request p).request_hash
      → (pending_to_request p).method ≡ codes "sys.info"
      → config.capability_sys_read ≡ true
      → s' ≡ write s i (record p { status = executed })
      → AdminStep config admin now s s'
