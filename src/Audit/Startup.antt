-- ===== src/Audit/Startup.antt =====
-- anything_audit_validate_startup of src/common/audit.c: the audit log before the daemon listens.

use anything_tool.Base.{
  ◌≡◌, ◌≢◌, ◌⊎◌, Bool, true, false, not, ◌&&◌, ◌||◌, Option, none, some, List, [], ◌∷◌,
  if◌then◌else◌, All,
}
use anything_tool.Text.{Bytes, codes, clip}
use anything_tool.Text.Lines.{before_last}
use anything_tool.Config.{PathRule, Config}
use anything_tool.Config.Paths.{path_is_under}
use anything_tool.Config.Validate.{is_empty}
use anything_tool.Audit.{Opened, regular_file, symlink, not_writable, open_audit_fd}

-- What realpath, stat and the open of the audit log answer. The names that realpath gives are
-- those that fit the buffers of 256 bytes; it does not know of the buffers' size, so a longer name
-- runs past their end, and what the program then does is not modelled.
pub record FileSystem : Type 0 where
  pub canonical : Bytes → Option Bytes
  pub is_directory : Bytes → Bool
  pub opened : Opened

-- The same code as path_is_under of config.c.
abbrev pub audit_path_under : Bytes → Bytes → Bool
audit_path_under path root = path_is_under path root

unfoldable pub canonical_path_under : FileSystem → Bytes → Bytes → Bool
canonical_path_under fs path root = elim (fs.canonical path) [
  | none ↦ audit_path_under path root
  | some real_path ↦ elim (fs.canonical root) [
    | none ↦ audit_path_under path root
    | some real_root ↦ audit_path_under real_path real_root
  ]
]

pub data StartupError : Type 0 where
  path_required in_allowlist no_parent parent_missing : StartupError
  cannot_append : Opened → StartupError

-- The error of open_audit_fd; a regular file is none.
unfoldable pub open_error_text : Opened → Bytes
open_error_text symlink = codes "audit log must not be a symlink"
open_error_text not_writable = codes "audit log is not writable"
open_error_text _ = codes "audit log must be a regular file"

unfoldable pub startup_error_text : StartupError → Bytes
unfolding open_error_text
startup_error_text path_required = codes "audit log path is required"
startup_error_text in_allowlist = codes "audit log path is inside an agent writable allowlist"
startup_error_text no_parent = codes "audit log path must include an existing parent directory"
startup_error_text parent_missing = codes "audit log parent directory is not available"
startup_error_text (cannot_append o) = open_error_text o

-- The loop over the path rules.
unfoldable pub writable_rule_over : FileSystem → Bytes → List PathRule → Bool
writable_rule_over fs audit [] = false
writable_rule_over fs audit (rule ∷ rules) =
    (rule.writable && canonical_path_under fs audit rule.path) || writable_rule_over fs audit rules

-- The text before the last slash of the path, where there is some.
unfoldable pub validate_parent : FileSystem → Option Bytes → Option StartupError
validate_parent fs none = some no_parent
validate_parent fs (some parent) =
    if is_empty parent
    then some no_parent
    else if not (fs.is_directory parent)
    then some parent_missing
    else if not (open_audit_fd fs.opened)
    then some (cannot_append fs.opened)
    else none

-- `none` is the return of 0.
unfoldable pub validate_startup : FileSystem → Config → Option StartupError
unfolding validate_parent writable_rule_over canonical_path_under before_last
validate_startup fs c =
    if is_empty c.audit_log_path
    then some path_required
    else if writable_rule_over fs c.audit_log_path c.paths
    then some in_allowlist
    else validate_parent fs (before_last b'/' (clip 256 c.audit_log_path))

-- The rule's path does not cover the log's: by their real names where both have one, and by the
-- names as they are written where one of them has none.
pub record IsApart (fs : FileSystem) (audit root : Bytes) : Type 0 where
  pub by_real_names :
      (real_path real_root : Bytes)
      → fs.canonical audit ≡ some real_path
      → fs.canonical root ≡ some real_root
      → path_is_under real_path real_root ≡ false
  pub as_written :
      (fs.canonical audit ≡ none) ⊎ (fs.canonical root ≡ none) → path_is_under audit root ≡ false

-- What the daemon may rely on: no rule that lets an agent write covers the log, and the log is a
-- regular file in a directory that is there.
pub record IsAuditable (fs : FileSystem) (c : Config) : Type 0 where
  pub apart : All (λ (r : PathRule). r.writable ≡ true → IsApart fs c.audit_log_path r.path) c.paths
  pub parent : Bytes
  pub in_parent : before_last b'/' (clip 256 c.audit_log_path) ≡ some parent
  pub parent_there : (parent ≢ []) × (fs.is_directory parent ≡ true)
  pub regular : fs.opened ≡ regular_file
