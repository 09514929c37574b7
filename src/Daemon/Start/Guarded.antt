-- ===== src/Daemon/Start/Guarded.antt =====
-- What a daemon that was started without the development flag guarantees.
use anything_tool.Base.{
  ℕ, ◌≡◌, ◌≢◌, refl, sym, ◌∙◌, Bool, true, false, ◌||◌, ◌⊎◌, inl, inr, some, List, [], ◌∷◌, arith,
  get_elem?, Option-cases, subst, ap,
}
use anything_tool.Text.{Bytes, codes, str_eq}
use anything_tool.Config.{Config}
use anything_tool.Config.Admin.{Listed, identity_is_admin_iff}
use anything_tool.Config.Validate.{IsUsable}
use anything_tool.Config.Load.{Load, loaded, failed, load_with_options}
use anything_tool.Config.Load.Usable.{load_with_options-IsUsable}
use anything_tool.Approval.{Pending}
use anything_tool.Approval.Sound.{is_authorised}
use anything_tool.Audit.Startup.{validate_startup}
use anything_tool.Daemon.World.{Os, World}
use anything_tool.Daemon.Serve.{serve, started}
use anything_tool.Daemon.Loop.{Round, arrivals, poll_loop-serve}
use anything_tool.Daemon.Serve.Sound.{serve-two_persons}
use anything_tool.Daemon.Start.{
  Arguments, default_arguments, read_argument, read_arguments, Machine, Start, exits, listens,
  open_sockets, check_audit, configure, start, serve_from, run_daemon,
}

-- The flag is among the arguments.
abbrev pub has_dev_flag : List Bytes → Bool
has_dev_flag [] = false
has_dev_flag (arg ∷ args) = str_eq arg (codes "--dev-insecure-admin") || has_dev_flag args

abbrev pub config_path_of : List Bytes → Bytes
config_path_of argv = (read_arguments default_arguments argv).config_path

other_argument :
    (a : Arguments) (arg : Bytes)
    → str_eq arg (codes "--dev-insecure-admin") ≡ false
    → (read_argument a arg).allow_dev_insecure_admin ≡ a.allow_dev_insecure_admin
unfolding read_argument
other_argument a arg h = ground arith

no_flag :
    (a : Arguments) (argv : List Bytes)
    → has_dev_flag argv ≡ false
    → (read_arguments a argv).allow_dev_insecure_admin ≡ a.allow_dev_insecure_admin
unfolding read_arguments
no_flag a [] h = refl
no_flag a (arg ∷ argv) h =
    no_flag (read_argument a arg) argv (ground arith) ∙ other_argument a arg (ground arith)

open_sockets_listens : (m : Machine) (c c' : Config) → open_sockets m c ≡ listens c' → c ≡ c'
unfolding open_sockets
open_sockets_listens m c c' h = ground arith

configure_listens :
    (m : Machine) (r : Load Config) (c : Config) → configure m r ≡ listens c → r ≡ loaded c
unfolding configure check_audit
configure_listens m (failed e) c h = absurd (cc)
configure_listens m (loaded c') c h =
    ap loaded (elim (Option-cases (validate_startup m.file_system c')) [
      | inl good ↦ open_sockets_listens m c' c (ground arith)
      | inr (e, bad) ↦ absurd (ground arith)
    ])

same_world : {v w : World} → some v ≡ some w → v ≡ w
same_world e = ground arith

serve_from-some :
    (os : Os) (rounds : List Round) (s : Start) (w : World)
    → serve_from os rounds s ≡ some w
    → (c : Config) × ((s ≡ listens c) × (serve os c (arrivals rounds) started ≡ w))
unfolding serve_from
serve_from-some os rounds (exits why) w h = absurd (cc)
serve_from-some os rounds (listens c) w h =
    (c, (refl, sym (poll_loop-serve os c rounds started) ∙ same_world h))

-- The configuration that a daemon without the flag runs with is that of its file, and usable.
run_daemon_config :
    (m : Machine) (os : Os) (argv : List Bytes) (rounds : List Round) (w : World)
    → has_dev_flag argv ≡ false
    → run_daemon m os argv rounds ≡ some w
    → (c : Config) × ((load_with_options (m.files (config_path_of argv)) false ≡ loaded c)
        × (serve os c (arrivals rounds) started ≡ w))
unfolding run_daemon start
run_daemon_config m os argv rounds w plain h =
    let (c, (runs, served)) = serve_from-some os rounds (start m argv) w h in
    (
      c,
      (
        subst (λ dev. load_with_options (m.files (config_path_of argv)) dev ≡ loaded c)
            (no_flag default_arguments argv plain) (configure_listens m _ c runs),
        served,
      ),
    )

enforced : (c : Config) → IsUsable c false → c.require_admin_allowlist ≡ true
enforced c u = elim u.enforced [ inl h ↦ h | inr h ↦ absurd (cc) ]

-- A daemon that starts without the development flag, from whatever configuration file, runs with
-- an allowlist that the file gives; after any rounds of its loop, whatever the peers send and
-- whatever the system calls answer, an entry that is granted or executed was approved by an identity that
-- is not its requester and whose uid or gid is in that allowlist.
pub run_daemon-guarded :
    (m : Machine) (os : Os) (argv : List Bytes) (rounds : List Round) (w : World) (i : ℕ)
    (p : Pending)
    → has_dev_flag argv ≡ false
    → run_daemon m os argv rounds ≡ some w
    → get_elem? w.store.entries i ≡ some p
    → is_authorised p.status ≡ true
    → (p.requester ≢ p.approver)
      × ((c : Config) × ((load_with_options (m.files (config_path_of argv)) false ≡ loaded c)
            × (Listed c.admin_allowed_uids p.approver.uid
                ⊎ Listed c.admin_allowed_gids p.approver.gid)))
run_daemon-guarded m os argv rounds w i p plain runs at ready =
    let (c, (read, served)) = run_daemon_config m os argv rounds w plain runs in
    let (other, admin) =
      serve-two_persons os c (arrivals rounds) i p
        (subst (λ (v : World). get_elem? v.store.entries i ≡ some p) (sym served) at) ready in
    let usable = (load_with_options-IsUsable (m.files (config_path_of argv)) false c read).0 in
    (other, (c, (read, (identity_is_admin_iff c p.approver (enforced c usable)).0 admin)))
