-- ===== src/Server/Main.antt =====
-- Server::prepare, the destructor and server_main.cpp.
pub mod Exit
use Prim.Native.String.{◌++◌}
use server_client_app.Base.{
  ℕ, String, Bool, true, false, Option, none, some, List, [], ◌∷◌, if◌then◌else◌, ⊤,
}
use server_client_app.Base.Int.{ℤ, pos, negsuc}
use server_client_app.Base.Text.Scan.{scan_hu}
use server_client_app.Server.Clients.{
  print_effect, close_effect, State, Handler, pure, die, ◌>>=◌, ◌>>◌, emit,
}
use server_client_app.Server.Run.{Round, run}

pub data SocketOption : Type 0 where
  so_reuseaddr tcp_nodelay : SocketOption

-- What the system says to the two calls of socket, and to the calls on a socket.
pub record System : Type 0 where
  pub udp_socket : Option ℕ
  pub tcp_socket : Option ℕ
  pub setsockopt : ℕ → SocketOption → Bool
  -- of a socket and a port
  pub bind : ℕ → ℕ → Bool
  pub listen : ℕ → Bool

-- DIE, with the call that must succeed
unfoldable pub demand : Bool → Handler ⊤
demand true = pure tt
demand false = die

unfoldable pub demand_socket : Option ℕ → Handler ℕ
demand_socket (some fd) = pure fd
demand_socket none = die

unfoldable pub prepare_udp_socket : System → ℕ → Handler ℕ
unfolding demand demand_socket ◌>>=◌
prepare_udp_socket system port = do
  udp_sockfd ← demand_socket system.udp_socket
  demand (system.setsockopt udp_sockfd so_reuseaddr)
  demand (system.bind udp_sockfd port)
  pure udp_sockfd

unfoldable pub prepare_tcp_socket : System → ℕ → Handler ℕ
unfolding demand demand_socket ◌>>=◌
prepare_tcp_socket system port = do
  tcp_sockfd ← demand_socket system.tcp_socket
  demand (system.setsockopt tcp_sockfd so_reuseaddr)
  demand (system.bind tcp_sockfd port)
  demand (system.setsockopt tcp_sockfd tcp_nodelay)
  demand (system.listen tcp_sockfd)
  pure tcp_sockfd

-- The two sockets, which stand in poll_fds behind the standard input.
unfoldable pub prepare : System → ℕ → Handler (ℕ × ℕ)
unfolding prepare_udp_socket prepare_tcp_socket ◌>>=◌
prepare system port = do
  udp_sockfd ← prepare_udp_socket system port
  tcp_sockfd ← prepare_tcp_socket system port
  pure (udp_sockfd, tcp_sockfd)

unfoldable pub close_all : List ℕ → Handler ⊤
unfolding emit ◌>>=◌
close_all [] = pure tt
close_all (fd ∷ fds) = emit (close_effect fd) >> close_all fds

-- The destructor closes all but the standard input.
unfoldable pub destroy : ℕ → ℕ → Handler ⊤
unfolding close_all
destroy udp_sockfd tcp_sockfd s = close_all (udp_sockfd ∷ tcp_sockfd ∷ s.poll_fds) s

-- The status of the process, or `none` while the rounds that are watched did not end it.
unfoldable pub start_server : System → Option ℕ → List Round → Handler (Option ℤ)
unfolding prepare run destroy ◌>>=◌
start_server system none rounds = die
start_server system (some port) rounds = do
  sockets ← prepare system port
  ended ← run rounds
  if ended then destroy sockets.0 sockets.1 >> pure (some (pos 0)) else pure none

-- The process is given its own name, and the arguments behind it.
unfoldable pub server_main : System → String → List String → List Round → Handler (Option ℤ)
unfolding start_server emit ◌>>=◌
server_main system name (port ∷ []) rounds = start_server system (scan_hu port) rounds
server_main system name arguments rounds =
    emit (print_effect ("Server usage: " ++ name ++ " <PORT>\n")) >> pure (some (negsuc 0))
