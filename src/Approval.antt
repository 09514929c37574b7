-- ===== src/Approval.antt =====
-- src/common/approval.c: the store of requests that wait for an approval.
pub mod Listing
pub mod Sound
pub mod Attempts
pub mod Lookup
use anything_tool.Base.{
  ℕ, suc, ◌+◌, Bool, true, false, not, Option, none, some, List, [], ◌∷◌, ◌++◌, ltb, leb, ◌==◌,
  if◌then◌else◌, length, set, ℤ, pos, ◌+ℤ◌, lt_int,
}
use anything_tool.Text.{Bytes, codes, clip, str_eq}
use anything_tool.Text.Decimal.{decimal}
use anything_tool.Identity.{Identity, no_identity, identity_same}
use anything_tool.Rpc.Request.{Request}
use anything_tool.Policy.{Policy}

pub data Status : Type 0 where
  pending granted rejected executed : Status

pub record Pending : Type 0 where
  pub request_id : Bytes
  pub request_hash : ℕ
  pub requester : Identity
  pub approver : Identity
  pub session_id : Bytes
  pub method : Bytes
  pub params : Bytes
  pub risk : Bytes
  pub summary : Bytes
  pub expires_at : ℤ
  pub status : Status

-- The array with its count is the list of its first `count` entries. `next_id` is an unsigned
-- long that counts the entries ever made, 64 at most, so it never wraps.
pub record Store : Type 0 where
  pub entries : List Pending
  pub next_id : ℕ

abbrev pub max_pending : ℕ
max_pending = 64

abbrev pub store_init : Store
store_init = record { entries = []; next_id = 1 }

unfoldable pub request_id_of : ℕ → Bytes
request_id_of n = clip 40 (codes "req_" ++ decimal n)

-- The entry that anything_approval_add fills in, at time `now`.
unfoldable pub new_entry : ℕ → Request → Policy → Identity → ℤ → ℕ → Pending
unfolding request_id_of
new_entry id request policy requester ttl now = record {
  request_id = request_id_of id;
  request_hash = policy.request_hash;
  requester = requester;
  approver = no_identity;
  session_id = clip 64 request.session_id;
  method = clip 64 request.method;
  params = clip 1024 request.params;
  risk = clip 16 policy.risk;
  summary = clip 256 policy.summary;
  expires_at = pos now +ℤ ttl;
  status = pending;
}

-- The new store and the entry that `created` points to.
unfoldable pub add : Store → Request → Policy → Identity → ℤ → ℕ → Option (Store × Pending)
unfolding new_entry
add store request policy requester ttl now =
    if leb max_pending (length store.entries)
    then none
    else let entry = new_entry store.next_id request policy requester ttl now in
      some (record { entries = store.entries ++ entry ∷ []; next_id = store.next_id + 1 }, entry)

-- A pointer into the array: the index of an entry, and what it holds.
abbrev pub Found : Type 0
Found = ℕ × Pending

unfoldable pub find_from : ℕ → List Pending → Bytes → Option Found
find_from i [] id = none
find_from i (p ∷ ps) id = if str_eq p.request_id id then some (i, p) else find_from (i + 1) ps id

unfoldable pub find : Store → Bytes → Option Found
unfolding find_from
find store id = find_from 0 store.entries id

-- A write through the pointer.
unfoldable pub write : Store → ℕ → Pending → Store
write store i p = record store { entries = set store.entries i p }

pub data Refusal : Type 0 where
  approval_not_found approval_not_pending approval_expired control_plane_denied : Refusal
  approval_rejected approval_required request_changed : Refusal

unfoldable pub kind_text : Refusal → Bytes
kind_text approval_not_found = codes "approval_not_found"
kind_text approval_not_pending = codes "approval_not_pending"
kind_text approval_expired = codes "approval_expired"
kind_text control_plane_denied = codes "control_plane_denied"
kind_text approval_rejected = codes "approval_rejected"
kind_text approval_required = codes "approval_required"
kind_text request_changed = codes "request_changed"

pub data Attempt (A : Type 0) : Type 0 where
  done : A → Attempt A
  refused : Refusal → Attempt A

abbrev pub is_pending : Status → Bool
is_pending pending = true
is_pending _ = false

abbrev pub is_granted : Status → Bool
is_granted granted = true
is_granted _ = false

abbrev pub is_rejected : Status → Bool
is_rejected rejected = true
is_rejected _ = false

-- time(NULL) > pending->expires_at
unfoldable pub has_expired : ℕ → Pending → Bool
has_expired now p = lt_int p.expires_at (pos now)

-- The entry as the call leaves it, or the error kind.
unfoldable pub grant : Option Found → Identity → ℕ → Attempt Found
unfolding has_expired identity_same
grant none approver now = refused approval_not_found
grant (some (i, p)) approver now =
    if not (is_pending p.status)
    then refused approval_not_pending
    else if has_expired now p
    then refused approval_expired
    else if identity_same p.requester approver
    then refused control_plane_denied
    else done (i, record p { approver = approver; status = granted })

unfoldable pub reject : Option Found → Identity → Attempt Found
unfolding identity_same
reject none approver = refused approval_not_found
reject (some (i, p)) approver =
    if identity_same p.requester approver
    then refused control_plane_denied
    else done (i, record p { approver = approver; status = rejected })

-- The entry itself where it may be executed.
unfoldable pub validate_for_execute : Option Found → ℕ → ℕ → Attempt Found
unfolding has_expired
validate_for_execute none current_hash now = refused approval_not_found
validate_for_execute (some (i, p)) current_hash now =
    if not (is_granted p.status)
    then refused (if is_rejected p.status then approval_rejected else approval_required)
    else if has_expired now p
    then refused approval_expired
    else if not (p.request_hash == current_hash)
    then refused request_changed
    else done (i, p)
