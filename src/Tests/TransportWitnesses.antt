-- ===== src/Tests/TransportWitnesses.antt =====
-- The theorems on the read loop with its clock, at a peer that sends a byte and then stalls.
use anything_tool.Base.{
  ℕ, arith, false, List, ◌∷◌, zero, suc, ◌+◌, ◌+ℤ◌, ◌≡◌, refl, true, none, some, [], pos,
}
use anything_tool.Transport.{
  has_newline, received, ReadAnswer, interrupted, arrived, read_request, ListenAnswer,
  transport_listen,
}
use anything_tool.Transport.Lines.{read_request-line}
use anything_tool.Transport.Listen.{IsListening, transport_listen-IsListening}
use anything_tool.Text.{codes}
use anything_tool.Transport.Clock.{ReadSystem, is_late, clocked_read}
use anything_tool.Transport.Clock.Returns.{in_time, rounds_used, clocked_read-returns}

abbrev stalls : ℕ → ReadAnswer
stalls zero = arrived b'x' []
stalls (suc i) = interrupted

-- The clock moves on by a second with each reading.
abbrev slow_peer : ReadSystem
slow_peer = record {
  start = record { tv_sec = 7; tv_nsec = 0 };
  clock = λ i. record { tv_sec = 7 + i; tv_nsec = 500 };
  answer = stalls;
}

third_late : is_late slow_peer 8 (pos 2000) 3 ≡ true
unfolding is_late ◌+ℤ◌
third_late = refl

clocked_read-returns_example :
    clocked_read slow_peer 8 (pos 2000) 4
    ≡ some (
        read_request 8
          (in_time slow_peer 8 (pos 2000) 3 0)
          (is_late slow_peer 8 (pos 2000) (rounds_used 8 [] (in_time slow_peer 8 (pos 2000) 3 0))))
clocked_read-returns_example =
    clocked_read-returns slow_peer 8 (pos 2000) 3 third_late 4 (omega arith)

abbrev no_listen : ListenAnswer
no_listen = record {
  socket_failure = none;
  bind_failure = none;
  listen_failure = some (codes "Address already in use");
}

transport_listen-IsListening_example :
    IsListening
      (codes "/run/tool.sock")
      384
      no_listen
      (transport_listen (codes "/run/tool.sock") 384 no_listen)
transport_listen-IsListening_example =
    transport_listen-IsListening (codes "/run/tool.sock") 384 no_listen

-- The line comes in two pieces, with an interruption between them.
abbrev pieces : List ReadAnswer
pieces = arrived b'a' (b'b' ∷ []) ∷ interrupted ∷ arrived b'c' (b'\n' ∷ []) ∷ []

one_line : has_newline (codes "abc") ≡ false
unfolding has_newline
one_line = refl

read_request-line_example : read_request 8 pieces false ≡ received (codes "abc\n")
read_request-line_example =
    read_request-line 8 (codes "abc") pieces one_line (omega arith) refl refl
