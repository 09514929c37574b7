-- ===== src/Approval/Attempts.antt =====
-- When the calls on an entry succeed, and what they leave of it.
use anything_tool.Base.{ℕ, ◌≡◌, ◌≢◌, ◌↔◌, false, none, some, arith}
use anything_tool.Identity.{Identity, identity_same_iff}
use anything_tool.Approval.{
  pending, granted, rejected, Pending, Found, done, has_expired, grant, reject,
  validate_for_execute,
}

-- An approval is granted exactly for a pending entry that has not expired and whose requester is
-- another identity, and it changes the approver and the status alone.
pub grant_iff :
    (i : ℕ) (p : Pending) (approver : Identity) (now : ℕ) (found : Found)
    → (grant (some (i, p)) approver now ≡ done found) ↔ (
        (p.status ≡ pending)
        × (has_expired now p ≡ false)
        × (p.requester ≢ approver)
        × (found ≡ (i, record p { approver = approver; status = granted })))
unfolding grant
grant_iff i p approver now found = ground (arith, identity_same_iff p.requester approver)

-- A rejection of an entry succeeds exactly when it is by another identity than the requester, in
-- whatever state the entry is, and changes the approver and the status alone.
pub reject_iff :
    (i : ℕ) (p : Pending) (approver : Identity) (found : Found)
    → (reject (some (i, p)) approver ≡ done found) ↔ (
        (p.requester ≢ approver)
        × (found ≡ (i, record p { approver = approver; status = rejected })))
unfolding reject
reject_iff i p approver found = ground (arith, identity_same_iff p.requester approver)

-- An entry may be executed exactly while it is granted, has not expired, and the hash of its
-- request is the one that was approved.
pub validate_for_execute_iff :
    (i : ℕ) (p : Pending) (hash now : ℕ) (found : Found)
    → (validate_for_execute (some (i, p)) hash now ≡ done found) ↔ (
        (p.status ≡ granted)
        × (has_expired now p ≡ false)
        × (p.request_hash ≡ hash)
        × (found ≡ (i, p)))
unfolding validate_for_execute
validate_for_execute_iff i p hash now found = ground arith

pub validate-none :
    (hash now : ℕ) (found : Found) → ¬ (validate_for_execute none hash now ≡ done found)
unfolding validate_for_execute
validate-none hash now found e = cc
