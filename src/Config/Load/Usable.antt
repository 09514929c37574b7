-- ===== src/Config/Load/Usable.antt =====
-- What holds of every configuration that anything_config_load_with_options gives.
use anything_tool.Base.{
  ◌≡◌, Bool, false, Option, none, some, [], ◌∷◌, arith, leb, leb-false, if-Holds, length,
  length-append, All-append, Holds, run, run_inv, Option-cases, inl, inr, subst,
}
use anything_tool.Text.{Bytes, codes, str_eq}
use anything_tool.Text.Lines.{fgets, split_at}
use anything_tool.Config.{Config, config_init}
use anything_tool.Config.Parse.{trim}
use anything_tool.Config.Validate.{
  is_empty, validate_with_options, IsUsable, validate_with_options_iff,
}
use anything_tool.Config.Load.{
  Load, loaded, failed, Loading, read_entry, open_rule, load_entry, Loaded, continue_with,
  load_step, load_loop, check_loaded, load_with_options,
}
use anything_tool.Config.Load.Bounded.{RuleFits, IsBounded, BoundedLoad, read_entry-BoundedLoad}

module _ (l : Loading) (b : IsBounded l.config) where
  open_rule-BoundedLoad : BoundedLoad (open_rule l)
  unfolding open_rule
  open_rule-BoundedLoad =
      if-Holds BoundedLoad (leb 16 (length l.config.paths)) (λ _. tt)
        λ room. record {
          tool_path_fits = b.tool_path_fits;
          admin_path_fits = b.admin_path_fits;
          audit_path_fits = b.audit_path_fits;
          uids_fit = b.uids_fit;
          gids_fit = b.gids_fit;
          rules_fit = omega (
            arith,
            leb-false 16 (length l.config.paths) room,
            length-append l.config.paths (record { path = []; writable = false } ∷ []),
          );
          rule_paths_fit = All-append RuleFits l.config.paths _ b.rule_paths_fit (omega arith, tt);
        }

  load_entry-BoundedLoad : (entry : Bytes) → BoundedLoad (load_entry l entry)
  unfolding load_entry
  load_entry-BoundedLoad entry =
      if-Holds BoundedLoad (is_empty entry) (λ _. b)
        λ _.
          if-Holds BoundedLoad (str_eq entry (codes "[[paths]]")) (λ _. open_rule-BoundedLoad)
            λ _. go (split_at b'=' entry)
    where
      go :
          (o : Option (Bytes × Bytes))
          → BoundedLoad (elim o [ none ↦ loaded l | some s ↦ read_entry l (trim s.0) (trim s.1) ])
      go none = b
      go (some s) = read_entry-BoundedLoad l (trim s.0) (trim s.1) b

abbrev Bounds : Loaded → Type 0
Bounds s = IsBounded s.0.config

continue_with-Bounds :
    (rest : Bytes) (r : Load Loading)
    → BoundedLoad r
    → Holds Bounds BoundedLoad (continue_with rest r)
continue_with-Bounds rest (failed e) h = tt
continue_with-Bounds rest (loaded l) h = h

load_step-Bounds : (s : Loaded) → Bounds s → Holds Bounds BoundedLoad (load_step s)
unfolding load_step fgets
load_step-Bounds (l, []) b = b
load_step-Bounds (l, c ∷ cs) b = continue_with-Bounds _ _ (load_entry-BoundedLoad l b _)

config_init-IsBounded : IsBounded config_init
config_init-IsBounded = record {
  tool_path_fits = omega arith;
  admin_path_fits = omega arith;
  audit_path_fits = omega arith;
  uids_fit = omega arith;
  gids_fit = omega arith;
  rules_fit = omega arith;
  rule_paths_fit = tt;
}

check_loaded-IsUsable :
    (dev : Bool) (r : Load Loading) (c : Config)
    → BoundedLoad r
    → check_loaded dev r ≡ loaded c
    → IsUsable c dev × IsBounded c
unfolding check_loaded
check_loaded-IsUsable dev (failed e) c b h = absurd (cc)
check_loaded-IsUsable dev (loaded l) c b h =
    elim (Option-cases (validate_with_options l.config dev)) [
      | inl good ↦
          let same : l.config ≡ c = ground arith in
          subst (λ c. IsUsable c dev × IsBounded c) same
            ((validate_with_options_iff l.config dev).0 good, b)
      | inr (e, bad) ↦ absurd (ground arith)
    ]

-- A configuration that the loader gives, from any file at all, is usable, and each of its texts
-- and arrays is inside its buffer.
pub load_with_options-IsUsable :
    (file : Option Bytes) (dev : Bool) (c : Config)
    → load_with_options file dev ≡ loaded c
    → IsUsable c dev × IsBounded c
unfolding load_with_options
load_with_options-IsUsable none dev c h = absurd (cc)
load_with_options-IsUsable (some content) dev c h =
    check_loaded-IsUsable dev (run load_loop _) c
      (run_inv load_loop Bounds BoundedLoad load_step-Bounds
        (record { config = config_init; in_path_rule = false }, content) config_init-IsBounded)
      h
