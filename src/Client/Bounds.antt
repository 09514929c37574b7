-- ===== src/Client/Bounds.antt =====
-- What the client sends fits its buffer, and names a socket of its arguments.
use anything_tool.Base.{◌<◌, ◌≡◌, ◌≢◌, refl, ◌||◌, List, [], ◌∷◌, ◌++◌, arith, if-Holds, length}
use anything_tool.Text.{Bytes, codes, clip, str_eq}
use anything_tool.Text.Clip.{length-clip}
use anything_tool.Client.{
  request_text, param_text, make_request, Invocation, usage, sends, send_or_usage, choose, invoke,
}

abbrev Fits : Bytes → Type 0
Fits request = length request < 2048

cut : (text : Bytes) → Fits (clip 2048 text)
cut text = length-clip 2048 text (omega arith)

make_request-Fits : (command arg : Bytes) → Fits (make_request command arg)
unfolding make_request
make_request-Fits command arg =
    if-Holds Fits (str_eq command (codes "sys-info"))
      (λ _. cut (request_text (codes "sys.info") (param_text (codes "session_id") arg)))
      λ _.
        if-Holds Fits (str_eq command (codes "pending"))
          (λ _. cut (request_text (codes "approval.list") []))
          λ _.
            if-Holds Fits (str_eq command (codes "approve"))
              (λ _.
                cut (request_text (codes "approval.approve") (param_text (codes "request_id") arg)))
              λ _.
                if-Holds Fits (str_eq command (codes "reject"))
                  (λ _.
                    cut (
                      request_text (codes "approval.reject") (param_text (codes "request_id") arg)))
                  λ _.
                    if-Holds Fits (str_eq command (codes "execute"))
                      (λ _. cut (
                        request_text (codes "approval.execute")
                          (param_text (codes "request_id") arg)))
                      (λ _. omega arith)

-- The usage text, or a request that is not empty and fits, to the socket of this path.
abbrev pub IsSent : Bytes → Invocation → Type 0
IsSent path usage = Unit
IsSent path (sends socket_path request) =
    (socket_path ≡ path) × ((request ≢ []) × (length request < 2048))

send_or_usage-IsSent :
    (path request : Bytes) → length request < 2048 → IsSent path (send_or_usage path request)
unfolding send_or_usage
send_or_usage-IsSent path [] h = tt
send_or_usage-IsSent path (c ∷ cs) h = (refl, (λ e. cc, h))

choose-IsSent : (path command : Bytes) (rest : List Bytes) → IsSent path (choose path command rest)
unfolding choose
choose-IsSent path command [] =
    if-Holds (IsSent path) (str_eq command (codes "raw")) (λ _. tt)
      (λ _. send_or_usage-IsSent path _ (make_request-Fits command []))
choose-IsSent path command (arg ∷ rest) =
    if-Holds (IsSent path) (str_eq command (codes "raw"))
      (λ _. send_or_usage-IsSent path _ (cut (arg ++ b'\n' ∷ [])))
      (λ _. send_or_usage-IsSent path _ (make_request-Fits command arg))

-- With an option, a path and a command among its arguments, the client prints its usage or sends to
-- the socket of that path a request that is not empty and is inside its buffer with its NUL, however
-- long the arguments are.
pub invoke-IsSent :
    (option path command : Bytes) (rest : List Bytes)
    → IsSent path (invoke (option ∷ path ∷ command ∷ rest))
unfolding invoke
invoke-IsSent option path command rest =
    if-Holds (IsSent path)
      (str_eq option (codes "--socket") || str_eq option (codes "--admin-socket"))
      (λ _. choose-IsSent path command rest) (λ _. tt)
