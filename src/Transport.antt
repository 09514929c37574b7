-- ===== src/Transport.antt =====
-- src/common/transport.c: reading a request from a connection within its limits, and writing a
-- response to it. The clock and the calls of read and write are what the system answers.
pub mod Reads
pub mod Clock
pub mod Listen
pub mod Lines
pub mod Writes
use mathlib.Core.Option
use anything_tool.Base.{
  Option, none, some, ℕ, ◌+◌, ◌-◌, Bool, true, false, ◌||◌, List, [], ◌∷◌, ◌++◌, leb, ltb, ◌==◌,
  if◌then◌else◌, length, take, drop, ℤ, div_int, mod_int, mul_int, ◌⊎◌, inl, inr,
}
use anything_tool.Identity.{Identity}
use anything_tool.Text.{Bytes, codes, clip, c_str}

-- What read answers in a round that begins before the deadline. Bytes that have arrived are not
-- none: a read of nothing is the peer's end of the connection.
pub data ReadAnswer : Type 0 where
  interrupted closed : ReadAnswer
  broken : Bytes → ReadAnswer
  arrived : ℕ → Bytes → ReadAnswer

-- The errors, with the text of strerror.
pub data ReadError : Type 0 where
  deadline_exceeded too_large : ReadError
  read_failed : Bytes → ReadError

unfoldable pub read_error_text : ReadError → Bytes
read_error_text deadline_exceeded = codes "request deadline exceeded"
read_error_text too_large = codes "request exceeds configured max_request_bytes"
read_error_text (read_failed why) = clip 256 (codes "read failed: " ++ why)

pub data Reading : Type 0 where
  received : Bytes → Reading
  lost : ReadError → Reading

-- memchr(buffer, '\n', total) != NULL
unfoldable pub has_newline : Bytes → Bool
has_newline [] = false
has_newline (c ∷ cs) = c == b'\n' || has_newline cs

-- The loop, with what the buffer holds. The list of answers is that of the rounds before the
-- deadline: behind its end the clock is past it.
unfoldable pub read_rounds : ℕ → Bytes → List ReadAnswer → Reading
read_rounds max_bytes got [] =
    if leb max_bytes (length got) then received got else lost deadline_exceeded
read_rounds max_bytes got (interrupted ∷ answers) =
    let rest = read_rounds max_bytes got answers in
    if leb max_bytes (length got) then received got else rest
read_rounds max_bytes got (closed ∷ answers) = received got
read_rounds max_bytes got (broken why ∷ answers) =
    if leb max_bytes (length got) then received got else lost (read_failed why)
read_rounds max_bytes got (arrived c cs ∷ answers) =
    let more = got ++ take (max_bytes - length got) (c ∷ cs) in
    let rest = read_rounds max_bytes more answers in
    if leb max_bytes (length got)
    then received got
    else if has_newline more
    then received more
    else rest

-- Behind the loop, `late` is whether the clock is past the deadline.
unfoldable pub finish_reading : ℕ → Bool → Reading → Reading
finish_reading max_bytes late (lost e) = lost e
finish_reading max_bytes late (received got) =
    if late
    then lost deadline_exceeded
    else if leb max_bytes (length got)
    then lost too_large
    else received got

unfoldable pub read_request : ℕ → List ReadAnswer → Bool → Reading
unfolding read_rounds finish_reading has_newline
read_request max_bytes answers late =
    finish_reading max_bytes late (read_rounds max_bytes [] answers)

-- What write answers: it takes some bytes, of those that it is given.
pub data WriteAnswer : Type 0 where
  write_interrupted write_failed : WriteAnswer
  took : ℕ → WriteAnswer

-- anything_transport_write_response: what has reached the peer, and whether the call returns 0.
-- Behind the end of the answers the call has not returned.
pub data Writing : Type 0 where
  written failed waiting : Bytes → Writing

-- The loop, with what is written and what is not.
unfoldable pub write_rounds : Bytes → Bytes → List WriteAnswer → Writing
write_rounds out [] answers = written out
write_rounds out (c ∷ cs) [] = waiting out
write_rounds out (c ∷ cs) (write_interrupted ∷ answers) = write_rounds out (c ∷ cs) answers
write_rounds out (c ∷ cs) (write_failed ∷ answers) = failed out
write_rounds out (c ∷ cs) (took n ∷ answers) =
    write_rounds (out ++ take n (c ∷ cs)) (drop n (c ∷ cs)) answers

unfoldable pub write_response : Bytes → List WriteAnswer → Writing
unfolding write_rounds c_str
write_response response answers = write_rounds [] (c_str response) answers

-- What socket, bind and listen answer: the text of strerror where they fail.
pub record ListenAnswer : Type 0 where
  pub socket_failure : Option Bytes
  pub bind_failure : Option Bytes
  pub listen_failure : Option Bytes

-- The calls that are made on a socket and its path. No result of unlink, chmod or close is read.
pub data SocketCall : Type 0 where
  unlink_path bind_path : Bytes → SocketCall
  chmod_path : Bytes → ℕ → SocketCall
  listen_socket : ℕ → SocketCall
  close_socket : SocketCall

-- The calls, and the error; `none` is a descriptor that listens.
abbrev pub Listening : Type 0
Listening = List SocketCall × Option Bytes

unfoldable pub listen_bound : Bytes → ℕ → Option Bytes → Listening
listen_bound path mode none =
    (unlink_path path ∷ bind_path path ∷ chmod_path path mode ∷ listen_socket 16 ∷ [], none)
listen_bound path mode (some why) = (
  unlink_path path ∷ bind_path path ∷ chmod_path path mode ∷ listen_socket 16 ∷ close_socket ∷ [],
  some (clip 256 (codes "listen failed: " ++ why)),
)

unfoldable pub bind_socket : Bytes → ℕ → Option Bytes → Option Bytes → Listening
bind_socket path mode (some why) listen_failure = (
  unlink_path path ∷ bind_path path ∷ close_socket ∷ [],
  some (clip 256 (codes "bind failed: " ++ why)),
)
bind_socket path mode none listen_failure = listen_bound path mode listen_failure

-- sun_path has 108 bytes.
unfoldable pub open_socket : Bytes → ℕ → ListenAnswer → Option Bytes → Listening
open_socket path mode answer (some why) = ([], some (clip 256 (codes "socket failed: " ++ why)))
open_socket path mode answer none =
    if leb 108 (length path)
    then (unlink_path path ∷ close_socket ∷ [], some (codes "socket path too long"))
    else bind_socket path mode answer.bind_failure answer.listen_failure

-- anything_transport_listen
unfoldable pub transport_listen : Bytes → ℕ → ListenAnswer → Listening
unfolding open_socket bind_socket listen_bound
transport_listen path mode answer = open_socket path mode answer answer.socket_failure

-- anything_transport_cleanup_socket
unfoldable pub cleanup_socket : Bytes → List SocketCall
cleanup_socket path = unlink_path path ∷ []

-- What getsockopt gives for SO_PEERCRED: the peer, or the text of strerror.
pub data Credentials : Type 0 where
  known : Identity → Credentials
  unknown : Bytes → Credentials

-- anything_transport_peer_identity: the error, or the peer's ids.
unfoldable pub peer_identity : Credentials → Bytes ⊎ Identity
peer_identity (unknown why) = inl (clip 256 (codes "SO_PEERCRED failed: " ++ why))
peer_identity (known cred) = inr (record { uid = cred.uid; gid = cred.gid; pid = cred.pid })

-- struct timeval
pub record Timeval : Type 0 where
  pub tv_sec : ℤ
  pub tv_usec : ℤ

unfoldable pub timeout_of : ℤ → Timeval
timeout_of timeout_ms = record {
  tv_sec = div_int timeout_ms 1000;
  tv_usec = mul_int (mod_int timeout_ms 1000) 1000;
}

-- anything_transport_set_read_timeout, on what setsockopt answers for a timeout: the text of
-- strerror where it fails. `none` is a return of 0.
unfoldable pub set_read_timeout : (Timeval → Option Bytes) → ℤ → Option Bytes
unfolding timeout_of
set_read_timeout setsockopt timeout_ms =
    Option.map (λ why. clip 256 (codes "SO_RCVTIMEO failed: " ++ why))
      (setsockopt (timeout_of timeout_ms))
