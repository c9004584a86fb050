-- ===== src/Subscriber/Delivered.antt =====
-- A datagram, from its bytes to what a subscriber prints.
use mathlib.Core.List.{◌++◌ as append}
use server_client_app.Base.{ℕ, String, ◌≡◌, ap, ◌∙◌, Bool, true, some, List, ◌∷◌}
use server_client_app.Server.Clients.{Command, Client, State as ServerState, get_client_from_fd}
use server_client_app.Server.Clients.Counts.{bit}
use server_client_app.Server.Handlers.{wants}
use server_client_app.Server.Run.{Datagram, manage_udp_message}
use server_client_app.Server.Payload.{read_datagram}
use server_client_app.Server.Valid.{Valid}
use server_client_app.Server.Valid.Steady.{Sends}
use server_client_app.Server.Delivery.Texts.{texts_to, copies, send_msg_if_subscribed-texts_to}
use server_client_app.Subscriber.{Incoming, closed, Effect, value, run}
use server_client_app.Subscriber.Reading.{forwarded, rounds_for, lines_of, run-forwarded}

valid-texts_to :
    (d : Datagram) (topic line : String) (s : ServerState) (fd : ℕ) {id : String} {c : Client}
    → d ≡ Datagram.valid topic line
    → Valid s
    → Sends s
    → get_client_from_fd fd s.clients ≡ (id, some c)
    → texts_to fd (manage_udp_message (some d) s).1.trace
      ≡ append (copies (bit (wants topic c)) line) (texts_to fd s.trace)
unfolding manage_udp_message
valid-texts_to d topic line s fd e v w found =
    ap (λ (x : Datagram). texts_to fd (manage_udp_message (some x) s).1.trace) e
    ∙ send_msg_if_subscribed-texts_to topic line s fd v w found

-- A datagram that is read as a supported one is delivered once: when the state of the server is
-- valid, every send succeeds and the descriptor is that of a client, its handler sends the line
-- that is made of the datagram to this client once if the client wants the topic, not at all
-- otherwise, and sends it no other text. A subscriber that receives just the texts that were
-- sent here, and then the end of the connection, prints each on a line and ends.
pub datagram-printed :
    (ip : String) (port : ℕ) (buff : List ℕ) (topic line : String) (s : ServerState) (fd : ℕ)
    (id : String) (c : Client) (last : Command) (inbox : List Incoming) (trace : List Effect)
    (sends : List Effect → Bool)
    → read_datagram ip port buff ≡ Datagram.valid topic line
    → Valid s
    → Sends s
    → get_client_from_fd fd s.clients ≡ (id, some c)
    → let texts = copies (bit (wants topic c)) line in
      (texts_to fd (manage_udp_message (some (read_datagram ip port buff)) s).1.trace
        ≡ append texts (texts_to fd s.trace))
      × (run
            (rounds_for texts)
            (record { inbox = forwarded texts (closed last ∷ inbox); trace = trace; sends = sends })
          ≡ (value true, record { inbox = inbox; trace = lines_of texts trace; sends = sends }))
datagram-printed ip port buff topic line s fd id c last inbox trace sends e v w found = (
  valid-texts_to (read_datagram ip port buff) topic line s fd e v w found,
  run-forwarded (copies (bit (wants topic c)) line) last inbox trace sends,
)
