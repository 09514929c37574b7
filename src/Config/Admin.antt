-- ===== src/Config/Admin.antt =====
-- anything_config_identity_is_admin of config.c.
use anything_tool.Base.{
  ℕ, ◌≡◌, ◌⊎◌, ◌↔◌, Bool, true, false, ◌||◌, not, List, [], ◌∷◌, arith, if◌then◌else◌, ℤ, pos,
  eq_int, eq_int_iff,
}
use anything_tool.Identity.{Identity}
use anything_tool.Config.{Config}

-- The loop over one of the lists of ids.
unfoldable pub lists_id : List ℤ → ℕ → Bool
lists_id [] id = false
lists_id (x ∷ xs) id = eq_int x (pos id) || lists_id xs id

unfoldable pub identity_is_admin : Config → Identity → Bool
identity_is_admin c identity =
    if not c.require_admin_allowlist
    then true
    else if lists_id c.admin_allowed_uids identity.uid
    then true
    else lists_id c.admin_allowed_gids identity.gid

abbrev pub Listed : List ℤ → ℕ → Type 0
Listed [] id = ⊥
Listed (x ∷ xs) id = (x ≡ pos id) ⊎ Listed xs id

lists_id_iff : (xs : List ℤ) (id : ℕ) → (lists_id xs id ≡ true) ↔ Listed xs id
unfolding lists_id
lists_id_iff [] id = (λ h. absurd (cc), λ h. absurd h)
lists_id_iff (x ∷ xs) id = ground (arith, eq_int_iff x (pos id), lists_id_iff xs id)

-- With the allowlist enforced, an identity is an admin exactly when its uid or its gid is listed.
pub identity_is_admin_iff :
    (c : Config) (identity : Identity)
    → c.require_admin_allowlist ≡ true
    → (identity_is_admin c identity ≡ true)
      ↔ (Listed c.admin_allowed_uids identity.uid ⊎ Listed c.admin_allowed_gids identity.gid)
unfolding identity_is_admin
identity_is_admin_iff c identity h = ground (
  arith,
  lists_id_iff c.admin_allowed_uids identity.uid,
  lists_id_iff c.admin_allowed_gids identity.gid,
)
