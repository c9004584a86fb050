-- ===== src/Server/Run.antt =====
-- Server::run, as rounds of its loop.
use text.Mathlib.Text.{◌==◌ as str_eq}
use server_client_app.Base.{
  ℕ, String, Bool, true, false, Option, none, some, List, [], ◌∷◌, if◌then◌else◌, ⊤,
}
use server_client_app.Server.Clients.{print_effect, Handler, pure, die, ◌>>=◌, ◌>>◌, emit}
use server_client_app.Server.Handlers.{
  Received, manage_connection_request, manage_client, send_msg_if_subscribed,
}

-- What manage_udp_message read: recvfrom failed, a type that is not supported, or a topic with the
-- line that the payload was written to.
pub data Datagram : Type 0 where
  failed unsupported : Datagram
  valid : String → String → Datagram

-- What poll() reported in a round, and what the calls behind it give.
pub record Round : Type 0 where
  pub stdin : Option String
  pub udp : Option Datagram
  -- the descriptor that accept gives, the peer's address, and the message
  pub connection : Option (ℕ × String × Received)
  pub ready : ℕ → Option Received

unfoldable pub check_stdin_data : String → Handler Bool
check_stdin_data stdin_data =
    if str_eq stdin_data "exit"
    then pure true
    else emit (print_effect "Only exit command is supported\n") >> pure false

unfoldable pub serve_stdin : Option String → Handler Bool
unfolding check_stdin_data
serve_stdin none = pure false
serve_stdin (some stdin_data) = check_stdin_data stdin_data

unfoldable pub manage_udp_message : Option Datagram → Handler ⊤
manage_udp_message none = pure tt
manage_udp_message (some Datagram.failed) = die
manage_udp_message (some Datagram.unsupported) = pure tt
manage_udp_message (some (Datagram.valid topic formatted_msg)) =
    send_msg_if_subscribed topic formatted_msg

unfoldable pub serve_connection : Option (ℕ × String × Received) → Handler ⊤
serve_connection none = pure tt
serve_connection (some (client_sockfd, address, received)) =
    manage_connection_request client_sockfd address received

unfoldable pub serve_client : ℕ → Option Received → Handler ⊤
serve_client fd none = pure tt
serve_client fd (some received) = manage_client fd received

-- The loop over the client sockets, which erases at most the entry that it stands at.
unfoldable pub serve_clients : (ℕ → Option Received) → List ℕ → Handler ⊤
unfolding serve_client
serve_clients ready [] = pure tt
serve_clients ready (fd ∷ fds) = serve_client fd (ready fd) >> serve_clients ready fds

-- The round behind the standard input. The descriptor that this round adds has no events yet, so
-- the loop is over the descriptors that were polled.
unfoldable pub serve_sockets : Round → Handler ⊤
unfolding manage_udp_message serve_connection serve_clients
serve_sockets round s =
    (manage_udp_message round.udp
        >> serve_connection round.connection
        >> serve_clients round.ready s.poll_fds)
      s

-- One round; true where the loop ends.
unfoldable pub run_round : Round → Handler Bool
unfolding serve_stdin serve_sockets
run_round round = do
  leaves ← serve_stdin round.stdin
  if leaves then pure true else serve_sockets round >> pure false

-- The loop, over the rounds that are watched.
unfoldable pub run : List Round → Handler Bool
unfolding run_round
run [] = pure false
run (round ∷ rounds) = do leaves ← run_round round; if leaves then pure true else run rounds
