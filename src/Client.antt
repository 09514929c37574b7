-- ===== src/Client.antt =====
-- src/cli/anythingctl.c: the request that the client makes of its arguments, into a buffer of 2048
-- bytes.
pub mod Bounds
pub mod Simple
pub mod Members
pub mod RoundTrip
pub mod Main
use anything_tool.Base.{◌||◌, List, [], ◌∷◌, ◌++◌, if◌then◌else◌}
use anything_tool.Text.{Bytes, codes, clip, str_eq}

-- What a command puts in the buffer: its method, and the text of its parameters.
unfoldable pub request_text : Bytes → Bytes → Bytes
request_text method params =
    codes "{\"jsonrpc\":\"2.0\",\"id\":\"1\",\"method\":\""
    ++ (method ++ (codes "\",\"params\":{" ++ (params ++ codes "}}\n")))

-- "name":"arg", with the argument as it is.
unfoldable pub param_text : Bytes → Bytes → Bytes
param_text name arg = b'"' ∷ (name ++ (codes "\":\"" ++ (arg ++ b'"' ∷ [])))

unfoldable pub make_request : Bytes → Bytes → Bytes
unfolding request_text param_text
make_request command arg =
    if str_eq command (codes "sys-info")
    then clip 2048 (request_text (codes "sys.info") (param_text (codes "session_id") arg))
    else if str_eq command (codes "pending")
    then clip 2048 (request_text (codes "approval.list") [])
    else if str_eq command (codes "approve")
    then clip 2048 (request_text (codes "approval.approve") (param_text (codes "request_id") arg))
    else if str_eq command (codes "reject")
    then clip 2048 (request_text (codes "approval.reject") (param_text (codes "request_id") arg))
    else if str_eq command (codes "execute")
    then clip 2048 (request_text (codes "approval.execute") (param_text (codes "request_id") arg))
    else []

-- What `main` does with argv behind the program's name: the usage text and an exit, or a
-- connection to a socket with a request.
pub data Invocation : Type 0 where
  usage : Invocation
  sends : Bytes → Bytes → Invocation

-- An empty request is the usage text's case.
unfoldable pub send_or_usage : Bytes → Bytes → Invocation
send_or_usage socket_path [] = usage
send_or_usage socket_path (c ∷ cs) = sends socket_path (c ∷ cs)

-- Behind the option and the path: the command and what follows it.
unfoldable pub choose : Bytes → Bytes → List Bytes → Invocation
choose socket_path command [] =
    if str_eq command (codes "raw")
    then usage
    else send_or_usage socket_path (make_request command [])
choose socket_path command (arg ∷ rest) =
    if str_eq command (codes "raw")
    then send_or_usage socket_path (clip 2048 (arg ++ b'\n' ∷ []))
    else send_or_usage socket_path (make_request command arg)

unfoldable pub invoke : List Bytes → Invocation
unfolding choose send_or_usage make_request
invoke (option ∷ socket_path ∷ command ∷ rest) =
    if str_eq option (codes "--socket") || str_eq option (codes "--admin-socket")
    then choose socket_path command rest
    else usage
invoke _ = usage
