-- ===== src/Policy.antt =====
-- src/common/policy.c: the preflight decision on a request.
pub mod Decisions
use anything_tool.Base.{
  ℕ, ◌≡◌, ◌≢◌, refl, ◌↔◌, ◌⊎◌, ◌++◌, Bool, true, false, not, arith, if◌then◌else◌,
}
use anything_tool.Text.{Bytes, codes, clip, str_eq}
use anything_tool.Text.Equal.{str_eq_iff}
use anything_tool.Identity.{Identity}
use anything_tool.Config.{Config}
use anything_tool.Rpc.Request.{Request}

pub data Decision : Type 0 where
  deny approval_required allow : Decision

abbrev pub is_deny : Decision → Bool
is_deny deny = true
is_deny _ = false

pub record Policy : Type 0 where
  pub decision : Decision
  pub risk : Bytes
  pub request_hash : ℕ
  pub summary : Bytes
  pub reason : Bytes

-- The fields risk, reason and summary have 16, 128 and 256 bytes.
abbrev denied : ℕ → Bytes → Bytes → Policy
denied hash reason summary = record {
  decision = deny;
  risk = clip 16 (codes "denied");
  request_hash = hash;
  summary = clip 256 summary;
  reason = clip 128 reason;
}

unfoldable pub preflight : Config → Request → Identity → Policy
preflight config request caller =
    if not (str_eq request.method (codes "sys.info"))
    then denied request.request_hash (codes "unknown_tool")
        (codes "Unknown method " ++ request.method)
    else if not config.capability_sys_read
    then denied request.request_hash (codes "policy_denied")
        (codes "sys.info denied because capabilities.sys_read is disabled")
    else record {
      decision = approval_required;
      risk = clip 16 (codes "low");
      request_hash = request.request_hash;
      summary = clip 256 (codes "Read Linux system information with sys.info");
      reason = clip 128 (codes "approval_required");
    }
