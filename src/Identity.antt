-- ===== src/Identity.antt =====
-- include/anything/identity.h. A pid is that of a connected peer, so it is not negative.
use anything_tool.Base.{ℕ, ◌≡◌, ◌↔◌, Bool, true, ◌&&◌, ◌==◌, arith}

pub record Identity : Type 0 where
  pub uid : ℕ
  pub gid : ℕ
  pub pid : ℕ

-- After memset.
abbrev pub no_identity : Identity
no_identity = record { uid = 0; gid = 0; pid = 0 }

unfoldable pub identity_same : Identity → Identity → Bool
identity_same a b = a.uid == b.uid && (a.gid == b.gid && a.pid == b.pid)

pub identity_same_iff : (a b : Identity) → (identity_same a b ≡ true) ↔ (a ≡ b)
unfolding identity_same
identity_same_iff a b = ground arith
