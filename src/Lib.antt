-- ===== src/Lib.antt =====
-- The Linux agent tool layer: a daemon that takes JSON-RPC requests of an agent on one Unix
-- socket, the tool plane, and lets an administrator on another, the admin plane, list, approve,
-- reject and execute them. Each event goes to an audit log before its effect is reported.
--
-- The parts, with the code that they translate (paths from the repository's root):
--   * Text: C strings and snprintf. A NUL-terminated text is the list of its bytes; a buffer of n
--     bytes holds n - 1 of them, and `clip` is the copy that cuts.
--   * Json: src/common/json.c, anything_json_escape_string and anything_json_write_string_field.
--   * Rpc: src/common/rpc.c. Scan, Literal, Value and Param are the scanner: a cursor is the rest
--     of the text, and each `while` is a `Loop` of Base.While. Hash is anything_rpc_hash_request,
--     Request the request and the parser's errors, Parse anything_rpc_parse, Response
--     anything_rpc_result and anything_rpc_error.
--   * Identity: include/anything/identity.h. Config: src/common/config.c, with the parsers of the
--     file's values in Config.Parse, the loader in Config.Load, the validation in Config.Validate,
--     the path rules in Config.Paths and the allowlist in Config.Admin.
--   * Policy: src/common/policy.c. Approval: src/common/approval.c, the store of entries, where a
--     pointer to an entry is its index and what it holds.
--   * Audit: src/common/audit.c, anything_audit_write_event, on what the system answers to it, and
--     Audit.Startup, anything_audit_validate_startup; Audit.Contract has the list of events,
--     and Audit.Timestamp is timestamp_utc, with what it takes of gmtime_r and strftime.
--   * Transport: src/common/transport.c, the loops that read a request and write a response, and the
--     calls on a socket. Transport.Clock is the read loop with the clock that it reads; elsewhere a
--     read has the answers of the rounds before the deadline, which Transport.Clock.Returns shows
--     to be the same.
--   * SysInfo: src/tools/sys_info.c, on what uname and the two files give.
--   * Daemon: src/daemon/anythingd.c. World has the state (the store, the log, the buffers
--     that are handed to anything_transport_write_response, a count of system calls) and the state monad; Tool and Admin are the handlers of the planes;
--     Serve is accept_one, and runs connections one after another; Loop is the single-threaded loop
--     of `main` over poll, which serves those of its rounds; Start is `main` up to it. Steps has
--     the contract of each plane as a relation on stores, with Steps.Tool and Steps.Admin for the
--     refinement; Steps.Submits and Steps.Effects show the requests that do take effect, and
--     Steps.Refuses what the admin plane answers to those that do not. Timed follows an action from
--     a call of the system whose number is known. Traverse
--     goes through the handlers once for a property of actions, which Replies and Logs use; Runs is
--     about when the tool runs; Serve.Induction goes through the connections; Heard goes from the
--     client's command to the entry in the store.
--   * Client: src/cli/anythingctl.c, the request that the client makes of its arguments, and
--     Client.Main, its `main` with the connection.
--   * Tests: runs of the model on concrete requests, and each result at such a run.
--
-- The system is a parameter: `Os` gives, for each call by its number, the time, what the audit
-- log's open, prints and close do (failures and partial writes included), and what uname and the
-- files return. A `Connection` has what the system answers on it: the peer's credentials, and the
-- reads before the deadline. `Machine` has the files and the socket calls of the start.
--
-- Loops carry a measure that falls in each round; `run` makes as many rounds as the measure
-- allows, and `run_lem` shows that this is the loop's own equation, so no result depends on fuel.
-- The read loop with its clock has no such measure: its rounds are a parameter, with the theorem that
-- it returns. The years of a date are counted with one round for each 365 days, which is enough.
-- Integers: a hash is kept modulo 2 ^ 64; times and identifiers of the system are not negative
-- and are not near the bounds of their types. The buffers' sizes are those of the code.
--
-- The clock is read where a handler begins to need it; where the code does not come to its call of
-- `time`, the value is not used. The numbers of the configuration file are read as strtol, strtoull
-- and atoi do with a long of 64 bits and an int of 32.
--
-- Not modelled: what the kernel does with a socket, and what the daemon prints to stderr. The
-- handlers do not read the result of anything_transport_write_response, so they are modelled up to
-- its call; its loop, with its errors, is Transport.write_response. A write to a peer that has
-- closed raises SIGPIPE, which ends the daemon; the model goes on. realpath gives names that fit the
-- buffers of the code. What a
-- failed call leaves in a buffer is not modelled; a response buffer that nothing was written to,
-- which the code then sends, is `none`. Of poll and of the signals the model has their outcome in
-- each round.
pub mod Base
pub mod Text
pub mod Json
pub mod Rpc
pub mod Tests
pub mod Identity
pub mod Config
pub mod Policy
pub mod Approval
pub mod SysInfo
pub mod Transport
pub mod Audit
pub mod Daemon
pub mod Client
