-- ===== src/Config/Load.antt =====
-- anything_config_load_with_options of config.c: the configuration file, line by line.
pub mod Bounded
pub mod Usable
use anything_tool.Base.{
  ℕ, suc, ◌+◌, ◌-◌, ◌≤◌, ◌<◌, ◌≡◌, refl, Bool, true, false, not, ◌&&◌, ◌||◌, Option, none, some,
  List, [], ◌∷◌, ◌++◌, arith, leb, ◌==◌, if◌then◌else◌, if-Holds, length, Next, again, stop, Falls,
  Loop, run,
}
use anything_tool.Text.{Bytes, codes, str_eq, starts_with}
use anything_tool.Text.Lines.{line_of, behind_line, length-behind_line, fgets, split_at, contains}
use anything_tool.Text.Numbers.{atoi, strtoull}
use anything_tool.Config.{PathRule, Config, config_init}
use anything_tool.Config.Parse.{trim, parse_quoted, parse_long_array}
use anything_tool.Config.Validate.{ConfigError, config_error_text, is_empty, validate_with_options}

pub data LoadError : Type 0 where
  cannot_open too_many_rules bad_tool_path bad_admin_path bad_audit_path : LoadError
  bad_uids bad_gids bad_rule bad_mode : LoadError
  unusable : ConfigError → LoadError

unfoldable pub load_error_text : LoadError → Bytes
load_error_text cannot_open = codes "failed to open config file"
load_error_text too_many_rules = codes "too many path rules"
load_error_text bad_tool_path = codes "invalid tool socket path"
load_error_text bad_admin_path = codes "invalid admin socket path"
load_error_text bad_audit_path = codes "invalid audit log path"
load_error_text bad_uids = codes "invalid admin allowed_uids"
load_error_text bad_gids = codes "invalid admin allowed_gids"
load_error_text bad_rule = codes "invalid path rule"
load_error_text bad_mode = codes "invalid path mode"
load_error_text (unusable e) = config_error_text e

-- A return of 0 with what it leaves, or the error.
pub data Load (A : Type 0) : Type 0 where
  loaded : A → Load A
  failed : LoadError → Load A

pub record Loading : Type 0 where
  pub config : Config
  pub in_path_rule : Bool

-- The file is closed and the load fails where a value cannot be read.
unfoldable pub on_value :
    {A : Type 0} → Loading → Option A → LoadError → (A → Config) → Load Loading
on_value l none e put = failed e
on_value l (some v) e put = loaded (record l { config = put v })

-- config->paths[config->path_count - 1]
unfoldable pub change_last : (PathRule → PathRule) → List PathRule → List PathRule
change_last f [] = []
change_last f (r ∷ []) = f r ∷ []
change_last f (r ∷ s ∷ rules) = r ∷ change_last f (s ∷ rules)

-- The keys `path` and `mode`, behind a path rule's head.
unfoldable pub read_rule_entry : Loading → Bytes → Bytes → Load Loading
read_rule_entry l key value =
    let c = l.config in
    if not (l.in_path_rule && not (is_empty c.paths))
    then loaded l
    else if str_eq key (codes "path")
    then on_value l (parse_quoted 256 value) bad_rule
        (λ p. record c { paths = change_last (λ r. record r { path = p }) c.paths })
    else if str_eq key (codes "mode")
    then on_value l (parse_quoted 32 value) bad_mode (λ mode. record c {
      paths = change_last (λ r. record r { writable = contains (codes "write") mode }) c.paths;
    })
    else loaded l

-- The numbers, which are read whatever they look like, and the flags.
unfoldable pub read_setting : Loading → Bytes → Bytes → Load Loading
read_setting l key value =
    let c = l.config in
    if str_eq key (codes "sys_read")
    then loaded
        (record l { config = record c { capability_sys_read = starts_with (codes "true") value } })
    else if str_eq key (codes "max_request_bytes")
    then loaded (record l { config = record c { max_request_bytes = strtoull value } })
    else if str_eq key (codes "max_output_bytes")
    then loaded (record l { config = record c { max_output_bytes = strtoull value } })
    else if str_eq key (codes "approval_ttl_seconds")
    then loaded (record l { config = record c { approval_ttl_seconds = atoi value } })
    else if str_eq key (codes "read_timeout_ms")
    then loaded (record l { config = record c { read_timeout_ms = atoi value } })
    else if str_eq key (codes "require_admin_allowlist")
    then loaded (record l {
      config = record c { require_admin_allowlist = starts_with (codes "true") value };
    })
    else read_rule_entry l key value

unfoldable pub read_entry : Loading → Bytes → Bytes → Load Loading
read_entry l key value =
    let c = l.config in
    if str_eq key (codes "tool_socket_path") || str_eq key (codes "socket_path")
    then on_value l (parse_quoted 256 value) bad_tool_path (λ p. record c { tool_socket_path = p })
    else if str_eq key (codes "admin_socket_path")
    then on_value l (parse_quoted 256 value) bad_admin_path
        (λ p. record c { admin_socket_path = p })
    else if str_eq key (codes "audit_log")
    then on_value l (parse_quoted 256 value) bad_audit_path (λ p. record c { audit_log_path = p })
    else if str_eq key (codes "allowed_uids")
    then on_value l (parse_long_array 16 value) bad_uids
        (λ ids. record c { admin_allowed_uids = ids })
    else if str_eq key (codes "allowed_gids")
    then on_value l (parse_long_array 16 value) bad_gids
        (λ ids. record c { admin_allowed_gids = ids })
    else read_setting l key value

unfoldable pub cut_comment : Bytes → Bytes
cut_comment line = elim (split_at b'#' line) [ none ↦ line | some s ↦ s.0 ]

-- The head of a path rule makes a rule with an empty path that is not writable.
unfoldable pub open_rule : Loading → Load Loading
open_rule l =
    if leb 16 (length l.config.paths)
    then failed too_many_rules
    else loaded (record {
      config = record l.config {
        paths = l.config.paths ++ record { path = []; writable = false } ∷ [];
      };
      in_path_rule = true;
    })

-- The text of a line behind `trim`.
unfoldable pub load_entry : Loading → Bytes → Load Loading
load_entry l entry =
    if is_empty entry
    then loaded l
    else if str_eq entry (codes "[[paths]]")
    then open_rule l
    else elim (split_at b'=' entry) [
      | none ↦ loaded l
      | some s ↦ read_entry l (trim s.0) (trim s.1)
    ]

abbrev pub Loaded : Type 0
Loaded = Loading × Bytes

abbrev pub Outcome : Type 0
Outcome = Next Loaded (Load Loading)

abbrev pub continue_with : Bytes → Load Loading → Outcome
continue_with rest (failed e) = stop (failed e)
continue_with rest (loaded l) = again (l, rest)

-- One round of the loop: a line of 511 bytes at most.
unfoldable pub load_step : Loaded → Outcome
load_step (l, content) = elim (fgets 512 content) [
  | none ↦ stop (loaded l)
  | some line ↦ continue_with (behind_line 511 content) (load_entry l (trim (cut_comment line)))
]

abbrev unread : Loaded → ℕ
unread s = length s.1

continue_with-Falls :
    (m : ℕ) (rest : Bytes) (r : Load Loading)
    → length rest < m
    → Falls unread m (continue_with rest r)
continue_with-Falls m rest (failed e) h = tt
continue_with-Falls m rest (loaded l) h = h

behind_line-cons : (c : ℕ) (cs : Bytes) → length (behind_line 511 (c ∷ cs)) < suc (length cs)
unfolding behind_line
behind_line-cons c cs =
    if-Holds (λ (s : Bytes). length s < suc (length cs)) (c == b'\n') (λ _. omega arith)
      (λ _. omega (arith, length-behind_line 510 cs))

pub load-Falls : (s : Loaded) → Falls unread (unread s) (load_step s)
unfolding load_step fgets
load-Falls (l, []) = tt
load-Falls (l, c ∷ cs) =
    continue_with-Falls (suc (length cs)) (behind_line 511 (c ∷ cs)) _ (behind_line-cons c cs)

abbrev pub load_loop : Loop Loaded (Load Loading)
load_loop = record {
  step = load_step;
  measure = unread;
  spent = failed cannot_open;
  falls = load-Falls;
}

unfoldable pub check_loaded : Bool → Load Loading → Load Config
check_loaded dev (failed e) = failed e
check_loaded dev (loaded l) = elim (validate_with_options l.config dev) [
  | none ↦ loaded l.config
  | some e ↦ failed (unusable e)
]

-- The file's bytes, or `none` where it cannot be opened.
unfoldable pub load_with_options : Option Bytes → Bool → Load Config
unfolding run load_step load_entry open_rule cut_comment read_entry read_setting read_rule_entry
    on_value change_last check_loaded fgets behind_line trim parse_quoted parse_long_array split_at
    contains atoi strtoull str_eq starts_with validate_with_options
load_with_options none dev = failed cannot_open
load_with_options (some content) dev =
    check_loaded dev
      (run load_loop (record { config = config_init; in_path_rule = false }, content))

unfoldable pub load : Option Bytes → Load Config
load file = load_with_options file false
