-- ===== src/Policy/Decisions.antt =====
-- What anything_policy_preflight decides, and that its texts fit and are plain.
use anything_tool.Base.{
  ℕ, ◌<◌, ◌≡◌, ◌≢◌, refl, ◌↔◌, inl, inr, ◌++◌, true, false, not, arith, length, All-append,
  Bool-cases,
}
use anything_tool.Text.{Bytes, codes, str_eq}
use anything_tool.Text.Equal.{str_eq_iff}
use anything_tool.Text.Clip.{length-clip, All-clip}
use anything_tool.Json.Escape.{IsPlain, is_plain, all_plain-IsPlain}
use anything_tool.Identity.{Identity}
use anything_tool.Config.{Config}
use anything_tool.Rpc.Request.{Request}
use anything_tool.Policy.{approval_required, allow, Policy, is_deny, denied, preflight}

module _ (config : Config) (request : Request) (caller : Identity) where
  -- The preflight asks for an approval exactly for sys.info with the capability on, denies all
  -- else, and never allows a request outright.
  pub preflight-decision :
      ((preflight config request caller).decision ≡ approval_required
        ↔ ((request.method ≡ codes "sys.info") × (config.capability_sys_read ≡ true)))
      × ((preflight config request caller).decision ≢ allow)
  unfolding preflight
  preflight-decision = ground (arith, str_eq_iff request.method (codes "sys.info"))

  pub preflight-not_deny :
      is_deny (preflight config request caller).decision ≡ false → config.capability_sys_read ≡ true
  unfolding preflight
  preflight-not_deny h = ground arith

  pub preflight-method :
      is_deny (preflight config request caller).decision ≡ false → request.method ≡ codes "sys.info"
  unfolding preflight
  preflight-method h = ground (arith, str_eq_iff request.method (codes "sys.info"))

  -- The reasons are short texts.
  pub preflight-reason : length (preflight config request caller).reason < 64
  unfolding preflight
  preflight-reason = ground arith

  -- The hash of the request is passed on unchanged.
  pub preflight-request_hash : (preflight config request caller).request_hash ≡ request.request_hash
  unfolding preflight
  preflight-request_hash = ground arith

-- The texts of a decision are in their buffers and plain.
pub record IsPrintable (p : Policy) : Type 0 where
  pub risk_fits : length p.risk < 16
  pub risk_plain : IsPlain p.risk
  pub summary_fits : length p.summary < 256
  pub summary_plain : IsPlain p.summary
  pub reason_fits : length p.reason < 128
  pub reason_plain : IsPlain p.reason

abbrev Plain : ℕ → Type 0
Plain c = is_plain c ≡ true

denied-IsPrintable :
    (hash : ℕ) (reason summary : Bytes)
    → IsPlain reason
    → IsPlain summary
    → IsPrintable (denied hash reason summary)
denied-IsPrintable hash reason summary r s = record {
  risk_fits = length-clip 16 (codes "denied") (omega arith);
  risk_plain = All-clip Plain 16 (codes "denied") (all_plain-IsPlain (codes "denied") refl);
  summary_fits = length-clip 256 summary (omega arith);
  summary_plain = All-clip Plain 256 summary s;
  reason_fits = length-clip 128 reason (omega arith);
  reason_plain = All-clip Plain 128 reason r;
}

pub preflight-IsPrintable :
    (config : Config) (request : Request) (caller : Identity)
    → IsPlain request.method
    → IsPrintable (preflight config request caller)
unfolding preflight
preflight-IsPrintable config request caller h =
    elim (Bool-cases (not (str_eq request.method (codes "sys.info")))) [
      | inl other ↦ rw other (
          denied-IsPrintable request.request_hash (codes "unknown_tool")
            (codes "Unknown method " ++ request.method)
            (all_plain-IsPlain (codes "unknown_tool") refl)
            (All-append Plain (codes "Unknown method ") request.method
              (all_plain-IsPlain (codes "Unknown method ") refl) h))
      | inr same ↦ rw same (elim (Bool-cases (not config.capability_sys_read)) [
        | inl off ↦ rw off (
            denied-IsPrintable request.request_hash (codes "policy_denied")
              (codes "sys.info denied because capabilities.sys_read is disabled")
              (all_plain-IsPlain (codes "policy_denied") refl)
              (all_plain-IsPlain (codes "sys.info denied because capabilities.sys_read is disabled")
                refl))
        | inr on ↦ rw on (record {
          risk_fits = omega arith;
          risk_plain = all_plain-IsPlain (codes "low") refl;
          summary_fits = omega arith;
          summary_plain =
              all_plain-IsPlain (codes "Read Linux system information with sys.info") refl;
          reason_fits = omega arith;
          reason_plain = all_plain-IsPlain (codes "approval_required") refl;
        })
      ])
    ]
