-- ===== src/Config/Validate.antt =====
-- anything_config_validate_with_options of config.c, against what a usable configuration is.
use anything_tool.Base.{
  ◌≤◌, ◌<◌, ◌≡◌, ◌≢◌, refl, ◌⊎◌, inl, inr, ◌↔◌, Bool, true, false, not, ◌&&◌, ◌||◌, Option, none,
  some, List, [], ◌∷◌, arith, ltb, ◌==◌, if◌then◌else◌, All, pos, lt_int, pos_part,
}
use anything_tool.Text.{Bytes, codes, str_eq}
use anything_tool.Text.Equal.{str_eq_iff}
use anything_tool.Config.{Config, PathRule}
use anything_tool.Config.Paths.{path_is_under}

pub data ConfigError : Type 0 where
  no_tool_path no_admin_path same_paths no_audit_path : ConfigError
  bad_request_size bad_timeout insecure_admin empty_allowlist audit_writable : ConfigError

unfoldable pub config_error_text : ConfigError → Bytes
config_error_text no_tool_path = codes "daemon.tool_socket_path is required"
config_error_text no_admin_path = codes "daemon.admin_socket_path is required"
config_error_text same_paths = codes "tool and admin socket paths must differ"
config_error_text no_audit_path = codes "daemon.audit_log is required"
config_error_text bad_request_size = codes "limits.max_request_bytes must be 1..1048576"
config_error_text bad_timeout = codes "limits.read_timeout_ms must be 1..60000"
config_error_text insecure_admin = codes "insecure admin mode requires --dev-insecure-admin"
config_error_text empty_allowlist = codes "admin allowlist is required but empty"
config_error_text audit_writable = codes "audit log path is inside an agent writable allowlist"

-- s[0] == '\0'
abbrev pub is_empty {ℓ} : {A : Type ℓ} → List A → Bool
is_empty [] = true
is_empty (x ∷ xs) = false

-- The loop over the path rules.
unfoldable pub writable_over : Bytes → List PathRule → Bool
writable_over audit [] = false
writable_over audit (rule ∷ rules) =
    (rule.writable && path_is_under audit rule.path) || writable_over audit rules

-- `none` is the return of 0.
unfoldable pub validate_with_options : Config → Bool → Option ConfigError
validate_with_options c allow_dev_insecure_admin =
    if is_empty c.tool_socket_path
    then some no_tool_path
    else if is_empty c.admin_socket_path
    then some no_admin_path
    else if str_eq c.tool_socket_path c.admin_socket_path
    then some same_paths
    else if is_empty c.audit_log_path
    then some no_audit_path
    else if c.max_request_bytes == 0 || ltb 1048576 c.max_request_bytes
    then some bad_request_size
    else if not (lt_int (pos 0) c.read_timeout_ms) || lt_int (pos 60000) c.read_timeout_ms
    then some bad_timeout
    else if not c.require_admin_allowlist && not allow_dev_insecure_admin
    then some insecure_admin
    else if c.require_admin_allowlist
        && (is_empty c.admin_allowed_uids && is_empty c.admin_allowed_gids)
    then some empty_allowlist
    else if writable_over c.audit_log_path c.paths
    then some audit_writable
    else none

unfoldable pub validate : Config → Option ConfigError
validate c = validate_with_options c false

-- A configuration that the daemon may run with.
pub record IsUsable (c : Config) (dev : Bool) : Type 0 where
  pub tool_path : c.tool_socket_path ≢ []
  pub admin_path : c.admin_socket_path ≢ []
  pub planes_differ : c.tool_socket_path ≢ c.admin_socket_path
  pub audit_path : c.audit_log_path ≢ []
  pub request_size : (0 < c.max_request_bytes) × (c.max_request_bytes ≤ 1048576)
  pub timeout : (0 < pos_part c.read_timeout_ms) × (pos_part c.read_timeout_ms ≤ 60000)
  pub enforced : (c.require_admin_allowlist ≡ true) ⊎ (dev ≡ true)
  pub admins :
      c.require_admin_allowlist ≡ true → (c.admin_allowed_uids ≢ []) ⊎ (c.admin_allowed_gids ≢ [])
  pub audit_apart :
      All
        (λ (r : PathRule). r.writable ≡ true → path_is_under c.audit_log_path r.path ≡ false)
        c.paths

writable_over-All :
    (audit : Bytes) (rules : List PathRule)
    → writable_over audit rules ≡ false
    → All (λ (r : PathRule). r.writable ≡ true → path_is_under audit r.path ≡ false) rules
unfolding writable_over
writable_over-All audit [] h = tt
writable_over-All audit (r ∷ rules) h =
    (λ w. ground arith, writable_over-All audit rules (ground arith))

All-writable_over :
    (audit : Bytes) (rules : List PathRule)
    → All (λ (r : PathRule). r.writable ≡ true → path_is_under audit r.path ≡ false) rules
    → writable_over audit rules ≡ false
unfolding writable_over
All-writable_over audit [] h = refl
All-writable_over audit (r ∷ rules) h = ground (arith, h.0, All-writable_over audit rules h.1)

is_empty_iff {ℓ} : {A : Type ℓ} (xs : List A) → (is_empty xs ≡ false) ↔ (xs ≢ [])
is_empty_iff [] = (λ h. absurd (cc), λ h. absurd (h refl))
is_empty_iff (x ∷ xs) = (λ h e. cc, λ h. refl)

validate-IsUsable : (c : Config) (dev : Bool) → validate_with_options c dev ≡ none → IsUsable c dev
unfolding validate_with_options
validate-IsUsable c dev h = record {
  tool_path = (is_empty_iff c.tool_socket_path).0 (ground arith);
  admin_path = (is_empty_iff c.admin_socket_path).0 (ground arith);
  planes_differ = λ e. ground (arith, str_eq_iff c.tool_socket_path c.admin_socket_path);
  audit_path = (is_empty_iff c.audit_log_path).0 (ground arith);
  request_size = ground arith;
  timeout = ground arith;
  enforced = ground arith;
  admins = λ r. ground (arith);
  audit_apart = writable_over-All c.audit_log_path c.paths (ground arith);
}

some_admin :
    (c : Config) (dev : Bool)
    → IsUsable c dev
    → c.require_admin_allowlist ≡ true
    → (is_empty c.admin_allowed_uids && is_empty c.admin_allowed_gids) ≡ false
some_admin c dev u r = elim (u.admins r) [
  | inl h ↦ ground (arith, (is_empty_iff c.admin_allowed_uids).1 h)
  | inr h ↦ ground (arith, (is_empty_iff c.admin_allowed_gids).1 h)
]

not_same : (a b : Bytes) → a ≢ b → str_eq a b ≡ false
not_same a b h = ground (arith, str_eq_iff a b)

IsUsable-validate : (c : Config) (dev : Bool) → IsUsable c dev → validate_with_options c dev ≡ none
unfolding validate_with_options
IsUsable-validate c dev u = ground (
  arith,
  (is_empty_iff c.tool_socket_path).1 u.tool_path,
  (is_empty_iff c.admin_socket_path).1 u.admin_path,
  not_same c.tool_socket_path c.admin_socket_path u.planes_differ,
  (is_empty_iff c.audit_log_path).1 u.audit_path,
  some_admin c dev u,
  All-writable_over c.audit_log_path c.paths u.audit_apart,
)

-- A configuration passes validation exactly when it is usable: both socket paths and the audit
-- path are set, the planes have different sockets, the limits are in range, the allowlist is
-- enforced and not empty unless the daemon runs in development mode, and no writable path rule
-- covers the audit log.
pub validate_with_options_iff :
    (c : Config) (dev : Bool) → (validate_with_options c dev ≡ none) ↔ IsUsable c dev
validate_with_options_iff c dev = (validate-IsUsable c dev, IsUsable-validate c dev)
