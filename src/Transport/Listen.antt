-- ===== src/Transport/Listen.antt =====
-- What anything_transport_listen leaves behind on each of its ways out.
use anything_tool.Base.{
  ℕ, ◌<◌, ◌≡◌, ◌≢◌, ◌⊎◌, inl, inr, refl, Bool, true, false, Option, none, some, List, [], ◌∷◌, leb,
  leb-false, length, if-Holds,
}
use anything_tool.Text.{Bytes}
use anything_tool.Transport.{
  SocketCall, unlink_path, bind_path, chmod_path, listen_socket, close_socket, ListenAnswer,
  Listening, listen_bound, bind_socket, open_socket, transport_listen,
}

abbrev pub ends_closed : List SocketCall → Bool
ends_closed [] = false
ends_closed (close_socket ∷ []) = true
ends_closed (c ∷ calls) = ends_closed calls

-- A failure with no socket, a failure that closes it, or the four calls that make it ready.
abbrev pub IsListening : Bytes → ℕ → ListenAnswer → Listening → Type 0
IsListening path mode answer (calls, none) =
    (calls ≡ unlink_path path ∷ bind_path path ∷ chmod_path path mode ∷ listen_socket 16 ∷ [])
    × (length path < 108)
    × (answer.socket_failure ≡ none)
    × (answer.bind_failure ≡ none)
    × (answer.listen_failure ≡ none)
IsListening path mode answer (calls, some error) =
    ((calls ≡ []) × (answer.socket_failure ≢ none)) ⊎ (ends_closed calls ≡ true)

module _ (path : Bytes) (mode : ℕ) where
  bind_socket-IsListening :
      (answer : ListenAnswer) (bind_failure listen_failure : Option Bytes)
      → length path < 108
      → answer.socket_failure ≡ none
      → answer.bind_failure ≡ bind_failure
      → answer.listen_failure ≡ listen_failure
      → IsListening path mode answer (bind_socket path mode bind_failure listen_failure)
  unfolding bind_socket listen_bound
  bind_socket-IsListening answer (some why) listen_failure short s b l = inr refl
  bind_socket-IsListening answer none (some why) short s b l = inr refl
  bind_socket-IsListening answer none none short s b l = (refl, short, s, b, l)

  open_socket-IsListening :
      (answer : ListenAnswer) (socket_failure : Option Bytes)
      → answer.socket_failure ≡ socket_failure
      → IsListening path mode answer (open_socket path mode answer socket_failure)
  unfolding open_socket
  open_socket-IsListening answer (some why) s = inl (refl, λ e. absurd (cc))
  open_socket-IsListening answer none s =
      if-Holds (IsListening path mode answer) (leb 108 (length path)) (λ long. inr refl)
        (λ short.
          bind_socket-IsListening answer answer.bind_failure answer.listen_failure
            (leb-false 108 (length path) short) s refl refl)

-- Where anything_transport_listen returns a descriptor, its path was short enough to be bound whole,
-- neither socket, bind nor listen failed, and it has removed the path, bound it, called chmod with
-- the mode and then listened, in this order. Where it returns an error, it had no socket or has
-- closed it as its last call.
pub transport_listen-IsListening :
    (path : Bytes) (mode : ℕ) (answer : ListenAnswer)
    → IsListening path mode answer (transport_listen path mode answer)
unfolding transport_listen
transport_listen-IsListening path mode answer =
    open_socket-IsListening path mode answer answer.socket_failure refl
