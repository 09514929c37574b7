-- ===== src/Config.antt =====
-- src/common/config.c and include/anything/config.h: the configuration and the admin allowlist.
pub mod Paths
pub mod Parse
pub mod Load
pub mod Validate
pub mod Admin
use anything_tool.Base.{ℕ, Bool, true, false, List, [], ℤ, pos}
use anything_tool.Text.{Bytes, codes}

pub record PathRule : Type 0 where
  pub path : Bytes
  pub writable : Bool

-- An array with its count is a list: of at most 16 ids, and of at most 16 rules.
pub record Config : Type 0 where
  pub tool_socket_path : Bytes
  pub admin_socket_path : Bytes
  pub audit_log_path : Bytes
  pub capability_sys_read : Bool
  pub max_request_bytes : ℕ
  pub max_output_bytes : ℕ
  pub approval_ttl_seconds : ℤ
  pub read_timeout_ms : ℤ
  pub admin_allowed_uids : List ℤ
  pub admin_allowed_gids : List ℤ
  pub require_admin_allowlist : Bool
  pub paths : List PathRule

abbrev pub config_init : Config
config_init = record {
  tool_socket_path = codes "/tmp/anythingd-tool.sock";
  admin_socket_path = codes "/tmp/anythingd-admin.sock";
  audit_log_path = codes "/tmp/anything-audit.jsonl";
  capability_sys_read = false;
  max_request_bytes = 1048576;
  max_output_bytes = 1048576;
  approval_ttl_seconds = pos 300;
  read_timeout_ms = pos 2000;
  admin_allowed_uids = [];
  admin_allowed_gids = [];
  require_admin_allowlist = true;
  paths = [];
}
