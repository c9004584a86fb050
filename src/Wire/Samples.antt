-- ===== src/Wire/Samples.antt =====
-- A message in pieces.
use mathlib.Core.List.{◌++◌}
use server_client_app.Base.{ℕ, ◌≡◌, refl, List, [], ◌∷◌, arith}
use server_client_app.Wire.{succeed, TcpMessage, done, closed, recv_efficient, send_efficient}
use server_client_app.Wire.CutOff.{recv_efficient-cut}
use server_client_app.Server.Clients.{Command}
use server_client_app.Wire.Texts.{
  bytes_of, tcp_message_of, command_of_byte, text_of, plain, plain→IsText, recv-tcp_message_of,
}
use server_client_app.Server.Payload.Samples.{datagram, datagram_read}
use server_client_app.Wire.Lines.{read_datagram-recv}
use server_client_app.Wire.RoundTrip.{IsMessage, recv-send, send_efficient-wire}

-- "upb" to subscribe to.
abbrev msg : TcpMessage
msg = record { command = 3; len = 4; payload = 117 ∷ 112 ∷ 98 ∷ 0 ∷ [] }

-- Calls that move one byte, and calls that move as much as they may.
abbrev single : ℕ → ℕ
single k = 0

abbrev whole : ℕ → ℕ
whole k = 65536

msg-IsMessage : IsMessage msg
msg-IsMessage = record { len = ground arith; payload = refl }

recv-send_example :
    (m n : ℕ) × (sent : List ℕ) × (send_efficient msg (succeed single) 0 [] ≡ done 7 m sent)
    × (recv_efficient (succeed whole) 5 (sent ++ 9 ∷ []) ≡ done msg n (9 ∷ []))
recv-send_example = recv-send msg single whole 0 5 (9 ∷ []) msg-IsMessage

send_efficient-wire_sample :
    (k' : ℕ) × (send_efficient msg (succeed single) 0 (1 ∷ [])
      ≡ done 7 k' (1 ∷ 3 ∷ 0 ∷ 4 ∷ 117 ∷ 112 ∷ 98 ∷ 0 ∷ []))
send_efficient-wire_sample = send_efficient-wire msg single 0 (1 ∷ []) msg-IsMessage

recv_efficient-cut_example : recv_efficient (succeed whole) 0 (3 ∷ 0 ∷ 4 ∷ 117 ∷ 112 ∷ []) ≡ closed
recv_efficient-cut_example = recv_efficient-cut msg whole 0 5 msg-IsMessage (ground arith)

recv-tcp_message_of_sample :
    (sent : List ℕ) × (got : TcpMessage) × (m n : ℕ) × (send_efficient
        (tcp_message_of Command.subscribe_req "upb")
        (succeed single)
        0
        []
      ≡ done 7 m sent)
    × (recv_efficient (succeed whole) 5 (sent ++ 9 ∷ []) ≡ done got n (9 ∷ []))
    × (command_of_byte got.command ≡ Command.subscribe_req)
    × (text_of got.payload ≡ "upb")
unfolding plain
recv-tcp_message_of_sample =
    recv-tcp_message_of Command.subscribe_req "upb" single whole 0 5 (9 ∷ []) tt
      (plain→IsText "upb" refl) (omega arith)

sample_bytes : bytes_of "upb" ≡ msg.payload
unfolding bytes_of
sample_bytes = refl

read_datagram-recv_example :
    (sent : List ℕ) × (got : TcpMessage) × (m n : ℕ) × (send_efficient
        (tcp_message_of Command.msg_from_udp "127.0.0.1:4000 - upb - INT - -17")
        (succeed single)
        0
        []
      ≡ done 36 m sent)
    × (recv_efficient (succeed whole) 0 (sent ++ 9 ∷ []) ≡ done got n (9 ∷ []))
    × (command_of_byte got.command ≡ Command.msg_from_udp)
    × (text_of got.payload ≡ "127.0.0.1:4000 - upb - INT - -17")
unfolding plain
read_datagram-recv_example =
    read_datagram-recv "127.0.0.1" 4000 datagram "upb" "127.0.0.1:4000 - upb - INT - -17" single
      whole (9 ∷ []) (plain→IsText "127.0.0.1" refl) (omega arith) (omega arith) (ground arith)
      (omega arith) datagram_read
