-- ===== src/Config/Load/Bounded.antt =====
-- The bounds that each entry of the configuration file keeps.
use anything_tool.Base.{
  ℕ, ◌≤◌, ◌<◌, ◌≡◌, refl, Bool, not, ◌&&◌, ◌||◌, Option, none, some, List, [], ◌∷◌, arith, if-Holds,
  length, All, ℤ,
}
use anything_tool.Text.{Bytes, codes, str_eq}
use anything_tool.Config.{PathRule, Config}
use anything_tool.Config.Parse.{
  parse_quoted, parse_quoted-fits, parse_long_array, parse_long_array-AtMost, AtMost,
}
use anything_tool.Config.Validate.{is_empty}
use anything_tool.Config.Load.{
  LoadError, Load, loaded, failed, Loading, on_value, change_last, read_rule_entry, read_setting,
  read_entry,
}

abbrev pub RuleFits : PathRule → Type 0
RuleFits r = length r.path < 256

-- Every array and every text is inside its buffer.
pub record IsBounded (c : Config) : Type 0 where
  pub tool_path_fits : length c.tool_socket_path < 256
  pub admin_path_fits : length c.admin_socket_path < 256
  pub audit_path_fits : length c.audit_log_path < 256
  pub uids_fit : length c.admin_allowed_uids ≤ 16
  pub gids_fit : length c.admin_allowed_gids ≤ 16
  pub rules_fit : length c.paths ≤ 16
  pub rule_paths_fit : All RuleFits c.paths

abbrev pub BoundedLoad : Load Loading → Type 0
BoundedLoad (failed e) = Unit
BoundedLoad (loaded l) = IsBounded l.config

on_value-BoundedLoad :
    {A : Type 0} (l : Loading) (v : Option A) (e : LoadError) (put : A → Config)
    → ((a : A) → v ≡ some a → IsBounded (put a))
    → BoundedLoad (on_value l v e put)
unfolding on_value
on_value-BoundedLoad l none e put h = tt
on_value-BoundedLoad l (some a) e put h = h a refl

length-change_last :
    (f : PathRule → PathRule) (rules : List PathRule) → length (change_last f rules) ≡ length rules
unfolding change_last
length-change_last f [] = refl
length-change_last f (r ∷ []) = refl
length-change_last f (r ∷ s ∷ rules) = omega (arith, length-change_last f (s ∷ rules))

change_last-All :
    (f : PathRule → PathRule) (rules : List PathRule)
    → ((r : PathRule) → RuleFits r → RuleFits (f r))
    → All RuleFits rules
    → All RuleFits (change_last f rules)
unfolding change_last
change_last-All f [] k h = tt
change_last-All f (r ∷ []) k h = (k r h.0, tt)
change_last-All f (r ∷ s ∷ rules) k h = (h.0, change_last-All f (s ∷ rules) k h.1)

some-AtMost :
    (m : ℕ) (o : Option (List ℤ)) (ids : List ℤ) → o ≡ some ids → AtMost m o → length ids ≤ m
some-AtMost m none ids e h = absurd (cc)
some-AtMost m (some x) ids e h = ground arith

module _ (l : Loading) (key value : Bytes) (b : IsBounded l.config) where
  changed_rules :
      (f : PathRule → PathRule)
      → ((r : PathRule) → RuleFits r → RuleFits (f r))
      → IsBounded (record l.config { paths = change_last f l.config.paths })
  changed_rules f k = record {
    tool_path_fits = b.tool_path_fits;
    admin_path_fits = b.admin_path_fits;
    audit_path_fits = b.audit_path_fits;
    uids_fit = b.uids_fit;
    gids_fit = b.gids_fit;
    rules_fit = omega (arith, length-change_last f l.config.paths, b.rules_fit);
    rule_paths_fit = change_last-All f l.config.paths k b.rule_paths_fit;
  }

  same_sizes :
      (sys require : Bool) (request output : ℕ) (ttl timeout : ℤ)
      → IsBounded (record l.config {
        capability_sys_read = sys;
        require_admin_allowlist = require;
        max_request_bytes = request;
        max_output_bytes = output;
        approval_ttl_seconds = ttl;
        read_timeout_ms = timeout;
      })
  same_sizes sys require request output ttl timeout = record {
    tool_path_fits = b.tool_path_fits;
    admin_path_fits = b.admin_path_fits;
    audit_path_fits = b.audit_path_fits;
    uids_fit = b.uids_fit;
    gids_fit = b.gids_fit;
    rules_fit = b.rules_fit;
    rule_paths_fit = b.rule_paths_fit;
  }

  read_rule_entry-BoundedLoad : BoundedLoad (read_rule_entry l key value)
  unfolding read_rule_entry
  read_rule_entry-BoundedLoad =
      if-Holds BoundedLoad (not (l.in_path_rule && not (is_empty l.config.paths))) (λ _. b)
        λ _.
          if-Holds BoundedLoad (str_eq key (codes "path"))
            (λ _.
              on_value-BoundedLoad l (parse_quoted 256 value) _ _
                (λ p e. changed_rules _ (λ r _. parse_quoted-fits 256 value p e)))
            λ _.
              if-Holds BoundedLoad (str_eq key (codes "mode"))
                (λ _.
                  on_value-BoundedLoad l (parse_quoted 32 value) _ _
                    (λ m e. changed_rules _ (λ r h. h)))
                (λ _. b)

  read_setting-BoundedLoad : BoundedLoad (read_setting l key value)
  unfolding read_setting
  read_setting-BoundedLoad =
      if-Holds BoundedLoad (str_eq key (codes "sys_read")) (λ _. same_sizes _ _ _ _ _ _)
        λ _.
          if-Holds BoundedLoad (str_eq key (codes "max_request_bytes"))
            (λ _. same_sizes _ _ _ _ _ _)
            λ _.
              if-Holds BoundedLoad (str_eq key (codes "max_output_bytes"))
                (λ _. same_sizes _ _ _ _ _ _)
                λ _.
                  if-Holds BoundedLoad (str_eq key (codes "approval_ttl_seconds"))
                    (λ _. same_sizes _ _ _ _ _ _)
                    λ _.
                      if-Holds BoundedLoad (str_eq key (codes "read_timeout_ms"))
                        (λ _. same_sizes _ _ _ _ _ _)
                        λ _.
                          if-Holds BoundedLoad (str_eq key (codes "require_admin_allowlist"))
                            (λ _. same_sizes _ _ _ _ _ _) λ _. read_rule_entry-BoundedLoad

  with_paths :
      (tool admin audit : Bytes)
      → length tool < 256
      → length admin < 256
      → length audit < 256
      → IsBounded (record l.config {
        tool_socket_path = tool;
        admin_socket_path = admin;
        audit_log_path = audit;
      })
  with_paths tool admin audit t a u = record {
    tool_path_fits = t;
    admin_path_fits = a;
    audit_path_fits = u;
    uids_fit = b.uids_fit;
    gids_fit = b.gids_fit;
    rules_fit = b.rules_fit;
    rule_paths_fit = b.rule_paths_fit;
  }

  with_ids :
      (uids gids : List ℤ)
      → length uids ≤ 16
      → length gids ≤ 16
      → IsBounded (record l.config { admin_allowed_uids = uids; admin_allowed_gids = gids })
  with_ids uids gids u g = record {
    tool_path_fits = b.tool_path_fits;
    admin_path_fits = b.admin_path_fits;
    audit_path_fits = b.audit_path_fits;
    uids_fit = u;
    gids_fit = g;
    rules_fit = b.rules_fit;
    rule_paths_fit = b.rule_paths_fit;
  }

  pub read_entry-BoundedLoad : BoundedLoad (read_entry l key value)
  unfolding read_entry
  read_entry-BoundedLoad =
      if-Holds BoundedLoad
        (str_eq key (codes "tool_socket_path") || str_eq key (codes "socket_path"))
        (λ _. on_value-BoundedLoad l (parse_quoted 256 value) _ _ (λ p e.
          with_paths p _ _ (parse_quoted-fits 256 value p e) b.admin_path_fits b.audit_path_fits))
        λ _.
          if-Holds BoundedLoad (str_eq key (codes "admin_socket_path"))
            (λ _. on_value-BoundedLoad l (parse_quoted 256 value) _ _ (λ p e.
              with_paths _ p _ b.tool_path_fits (parse_quoted-fits 256 value p e)
                b.audit_path_fits))
            λ _.
              if-Holds BoundedLoad (str_eq key (codes "audit_log"))
                (λ _. on_value-BoundedLoad l (parse_quoted 256 value) _ _ (λ p e.
                  with_paths _ _ p b.tool_path_fits b.admin_path_fits
                    (parse_quoted-fits 256 value p e)))
                λ _.
                  if-Holds BoundedLoad (str_eq key (codes "allowed_uids"))
                    (λ _. on_value-BoundedLoad l (parse_long_array 16 value) _ _ (λ ids e.
                      with_ids ids _ (some-AtMost 16 _ ids e (parse_long_array-AtMost 16 value))
                        b.gids_fit))
                    λ _.
                      if-Holds BoundedLoad (str_eq key (codes "allowed_gids"))
                        (λ _. on_value-BoundedLoad l (parse_long_array 16 value) _ _ (λ ids e.
                          with_ids _ ids b.uids_fit
                            (some-AtMost 16 _ ids e (parse_long_array-AtMost 16 value))))
                        λ _. read_setting-BoundedLoad
