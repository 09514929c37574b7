-- ===== src/Daemon/Heard.antt =====
-- From the client's command to the entry in the daemon's store.
use anything_tool.Base.{
  ℕ, Option, ◌+◌, ◌<◌, ◌≡◌, refl, sym, ap, ◌∙◌, subst, true, false, none, some, List, [], ◌∷◌, ◌++◌,
  append_assoc, arith, length, pos, ◌+ℤ◌,
}
use anything_tool.Text.{Bytes, codes}
use anything_tool.Identity.{Identity}
use anything_tool.Config.{Config}
use anything_tool.Approval.{pending, Pending}
use anything_tool.Audit.{audit_write_event}
use anything_tool.Rpc.Request.{Request, ok}
use anything_tool.Rpc.Parse.{session_of, complete, rpc_parse}
use anything_tool.Transport.{
  ReadAnswer, known, peer_identity, set_read_timeout, received, has_newline, read_request,
}
use anything_tool.Transport.Reads.{stream}
use anything_tool.Transport.Lines.{only_bytes, line, read_request-line}
use anything_tool.Client.{make_request}
use anything_tool.Client.Simple.{IsSimple, one_member, extract_param_string-one_member}
use anything_tool.Client.Members.{request_of, with_params}
use anything_tool.Client.RoundTrip.{
  asks_sys_info, IsShort, Asks-IsShort, make_request_whole, request_of-parsed,
}
use anything_tool.Daemon.World.{Os, World}
use anything_tool.Daemon.Tool.{handle_tool_request}
use anything_tool.Daemon.Steps.Submits.{received_event, handle_tool_request-submits}
use anything_tool.Daemon.Serve.{
  tool, Connection, handle, take_request, admit, accept_peer, accept_one,
}

no_newline-append :
    (a b : Bytes) → has_newline a ≡ false → has_newline b ≡ false → has_newline (a ++ b) ≡ false
unfolding has_newline
no_newline-append [] b h k = k
no_newline-append (c ∷ a) b h k = ground (arith, no_newline-append a b)

no_newline-simple : (s : Bytes) → IsSimple s → has_newline s ≡ false
unfolding has_newline
no_newline-simple [] h = refl
no_newline-simple (c ∷ s) h = ground (arith, no_newline-simple s h.1)

-- The request without its newline.
abbrev line_of : Bytes → Bytes → Bytes → Bytes
line_of method name arg =
    codes "{\"jsonrpc\":\"2.0\",\"id\":\"1\",\"method\":\""
    ++ (method ++ (codes "\",\"params\":" ++ one_member name arg (codes "}")))

request_of-line :
    (method name arg : Bytes) → request_of method name arg ≡ line (line_of method name arg)
request_of-line method name arg = simp append_assoc

line_of-one_line :
    (method name arg : Bytes)
    → IsSimple method
    → IsSimple name
    → IsSimple arg
    → has_newline (line_of method name arg) ≡ false
unfolding has_newline
line_of-one_line method name arg h k l = no_newline-append method _ (no_newline-simple method h) (
    no_newline-append name _ (no_newline-simple name k)
      (no_newline-append arg _ (no_newline-simple arg l) refl))

-- A connection of this peer on which these bytes arrive in time.
abbrev pub arrives : Identity → List ReadAnswer → Connection
arrives caller answers = record {
  plane = tool;
  peer = known caller;
  setsockopt = λ t. none;
  memory = true;
  answers = answers;
  late = false;
}

accept_one-handled :
    (os : Os) (config : Config) (caller : Identity) (answers : List ReadAnswer) (body : Bytes)
    (w : World)
    → read_request config.max_request_bytes answers false ≡ received body
    → accept_one os config (arrives caller answers) w
      ≡ (handle_tool_request os config caller body w).1
unfolding accept_one accept_peer admit peer_identity set_read_timeout take_request handle
accept_one-handled os config caller answers body w h =
    ap (λ r. take_request os config tool caller r w) h

-- What the parser makes of the client's request for sys.info.
abbrev pub session_request : Bytes → Request
session_request arg =
    complete (with_params (codes "sys.info") (one_member (codes "session_id") arg []))

or_default : Option Bytes → Bytes
or_default none = codes "default"
or_default (some session) = session

session_request-session :
    (arg : Bytes) → IsSimple arg → length arg < 64 → (session_request arg).session_id ≡ arg
unfolding complete session_of or_default
session_request-session arg simple short = ap or_default (
    extract_param_string-one_member (codes "session_id") arg 64
      (Asks-IsShort arg asks_sys_info short).name_simple (omega arith) simple short)

session_request-method : (arg : Bytes) → (session_request arg).method ≡ codes "sys.info"
unfolding complete
session_request-method arg = refl

module _ (arg : Bytes) (simple : IsSimple arg) (short : length arg < 64) where
  request_heard :
      (max_bytes : ℕ) (answers : List ReadAnswer)
      → only_bytes answers ≡ true
      → stream answers ≡ make_request (codes "sys-info") arg
      → length (make_request (codes "sys-info") arg) < max_bytes
      → read_request max_bytes answers false ≡ received (make_request (codes "sys-info") arg)
  request_heard max_bytes answers only all fits =
      let t : IsShort (codes "sys.info") (codes "session_id") arg =
        Asks-IsShort arg asks_sys_info short in
      let text = line_of (codes "sys.info") (codes "session_id") arg in
      let is_line : make_request (codes "sys-info") arg ≡ line text =
        make_request_whole arg asks_sys_info short
        ∙ request_of-line (codes "sys.info") (codes "session_id") arg in
      read_request-line max_bytes text answers
        (line_of-one_line (codes "sys.info") (codes "session_id") arg t.method_simple t.name_simple
          simple)
        (subst (λ b. length b < max_bytes) is_line fits) only (all ∙ is_line)
      ∙ ap received (sym is_line)

  request_parsed : rpc_parse (make_request (codes "sys-info") arg) ≡ ok (session_request arg)
  request_parsed =
      let t : IsShort (codes "sys.info") (codes "session_id") arg =
        Asks-IsShort arg asks_sys_info short in
      ap rpc_parse (make_request_whole arg asks_sys_info short)
      ∙ request_of-parsed (codes "sys.info") (codes "session_id") arg t.method_simple t.method_short
          t.name_simple simple t.params_short

-- From the command line to the store: where the bytes of the client's sys-info command, with a
-- session of less than 64 bytes without a quote, a backslash or a control byte, arrive at the tool
-- socket in time, in whatever pieces, and within the limit of a request, and where the capability
-- is on, the first event can be written and the store has less than 64 entries, the daemon's store
-- has one entry more, at its end: it is pending, for this peer, for sys.info, with the session of
-- the command line, until the configured time after what the clock shows is over.
pub accept_one-hears :
    (os : Os) (config : Config) (caller : Identity) (answers : List ReadAnswer) (w : World)
    (arg : Bytes)
    → IsSimple arg
    → length arg < 64
    → only_bytes answers ≡ true
    → stream answers ≡ make_request (codes "sys-info") arg
    → length (make_request (codes "sys-info") arg) < config.max_request_bytes
    → config.capability_sys_read ≡ true
    → (audit_write_event
        (os.audit w.ticks)
        (received_event os config caller (session_request arg))).1
      ≡ true
    → length w.store.entries < 64
    → (p : Pending) × ((accept_one os config (arrives caller answers) w).store.entries
        ≡ w.store.entries ++ p ∷ [])
      × (p.status ≡ pending)
      × (p.requester ≡ caller)
      × (p.method ≡ codes "sys.info")
      × (p.session_id ≡ arg)
      × (p.expires_at ≡ pos (os.time (w.ticks + 1)) +ℤ config.approval_ttl_seconds)
accept_one-hears os config caller answers w arg simple short only all fits on logged room =
    let body = make_request (codes "sys-info") arg in
    let taken =
      handle_tool_request-submits os config caller body w (session_request arg)
        (request_parsed arg simple short) logged (session_request-method arg) on room in
    (
      taken.entry,
      ap (λ (v : World). v.store.entries)
            (accept_one-handled os config caller answers body w
              (request_heard arg simple short config.max_request_bytes answers only all fits))
          ∙ taken.listed,
      taken.waits,
      taken.requester_is,
      taken.method_is ∙ session_request-method arg,
      taken.session_is ∙ session_request-session arg simple short,
      taken.expires,
    )
