-- ===== src/Server/Main/Exit.antt =====
-- How the process of the server ends.
use server_client_app.Base.{
  ℕ, ◌+◌, ◌%◌, ◌<◌, String, ◌≡◌, refl, Bool, true, some, List, [], ◌∷◌, ◌==◌, arith,
}
use server_client_app.Base.Int.{pos}
use server_client_app.Base.Text.{str}
use server_client_app.Base.Text.Scan.{scan_hu-str}
use server_client_app.Server.Clients.{
  Effect, send_effect, close_effect, print_effect, State, pure, ◌>>=◌, ◌>>◌, emit,
}
use server_client_app.Server.Clients.Counts.{bit, count_fd, count_held}
use server_client_app.Server.Run.{Round, run}
use server_client_app.Server.Valid.{Valid}
use server_client_app.Server.Valid.Run.{FreshRounds, start, run-Valid}
use server_client_app.Server.Main.{
  System, so_reuseaddr, tcp_nodelay, demand, demand_socket, prepare_udp_socket, prepare_tcp_socket,
  prepare, close_all, destroy, start_server, server_main,
}

-- Each call on the way to the loop succeeds.
pub record IsReady (system : System) (udp_sockfd tcp_sockfd port : ℕ) : Type 0 where
  pub udp : system.udp_socket ≡ some udp_sockfd
  pub tcp : system.tcp_socket ≡ some tcp_sockfd
  pub udp_option : system.setsockopt udp_sockfd so_reuseaddr ≡ true
  pub tcp_option : system.setsockopt tcp_sockfd so_reuseaddr ≡ true
  pub nodelay : system.setsockopt tcp_sockfd tcp_nodelay ≡ true
  pub udp_bind : system.bind udp_sockfd port ≡ true
  pub tcp_bind : system.bind tcp_sockfd port ≡ true
  pub listens : system.listen tcp_sockfd ≡ true

-- How often the descriptor was closed.
unfoldable pub closed_of : ℕ → List Effect → ℕ
closed_of n [] = 0
closed_of n (close_effect fd ∷ es) = bit (fd == n) + closed_of n es
closed_of n (send_effect fd command m ∷ es) = closed_of n es
closed_of n (print_effect m ∷ es) = closed_of n es

prepare-IsReady :
    (system : System) (udp_sockfd tcp_sockfd port : ℕ) (s : State)
    → IsReady system udp_sockfd tcp_sockfd port
    → prepare system port s ≡ (some (udp_sockfd, tcp_sockfd), s)
unfolding prepare prepare_udp_socket prepare_tcp_socket demand_socket demand pure ◌>>=◌
prepare-IsReady system udp_sockfd tcp_sockfd port s r =
    rw (r.udp, r.udp_option, r.udp_bind)
      (rw (r.tcp, r.tcp_option, r.tcp_bind, r.nodelay, r.listens) refl)

close_all-closed_of :
    (n : ℕ) (fds : List ℕ) (s : State)
    → ((close_all fds s).0 ≡ some tt)
      × (closed_of n (close_all fds s).1.trace ≡ count_fd n fds + closed_of n s.trace)
unfolding close_all closed_of count_fd emit pure ◌>>=◌
close_all-closed_of n [] s = (refl, omega arith)
close_all-closed_of n (fd ∷ fds) s =
    let (ends, closes) =
      close_all-closed_of n fds (record s { trace = close_effect fd ∷ s.trace }) in
    (ends, omega (arith, closes))

destroy-closed_of :
    (udp_sockfd tcp_sockfd n : ℕ) (s : State)
    → Valid s
    → let after = (destroy udp_sockfd tcp_sockfd >> pure (some (pos 0))) s in
      (after.0 ≡ some (some (pos 0)))
      × (closed_of n after.1.trace
          ≡ bit (udp_sockfd == n)
            + (bit (tcp_sockfd == n) + count_held n s.clients)
            + closed_of n s.trace)
unfolding destroy count_fd pure ◌>>=◌
destroy-closed_of udp_sockfd tcp_sockfd n s v =
    let (ends, closes) = close_all-closed_of n (udp_sockfd ∷ tcp_sockfd ∷ s.poll_fds) s in
    rw ends (refl, omega (arith, closes, v.polled n))

-- The server that is started on the decimal text of a number below 2 ^ 64, where the calls on
-- its sockets succeed for this number modulo 2 ^ 16 as the port, and whose loop ends with no
-- error after rounds in which accept gave descriptors that are not polled, ends with the status
-- 0, and its destructor closes each of its two sockets and the descriptor of each client that
-- is still connected, once, and no other descriptor.
pub server_main-closed_of :
    (system : System) (name : String) (udp_sockfd tcp_sockfd port n : ℕ) (rounds : List Round)
    (sends : List Effect → Bool)
    → port < 18446744073709551616
    → IsReady system udp_sockfd tcp_sockfd (port % 65536)
    → FreshRounds rounds (start sends)
    → (run rounds (start sends)).0 ≡ some true
    → let loop = (run rounds (start sends)).1 in
      let after = server_main system name (str port ∷ []) rounds (start sends) in
      (after.0 ≡ some (some (pos 0)))
      × (closed_of n after.1.trace
          ≡ bit (udp_sockfd == n)
            + (bit (tcp_sockfd == n) + count_held n loop.clients)
            + closed_of n loop.trace)
unfolding server_main start_server ◌>>=◌
server_main-closed_of system name udp_sockfd tcp_sockfd port n rounds sends small ready fresh ends =
    let loop = (run rounds (start sends)).1 in
    rw (scan_hu-str port small) (
      rw (prepare-IsReady system udp_sockfd tcp_sockfd (port % 65536) (start sends) ready)
        (rw ends (destroy-closed_of udp_sockfd tcp_sockfd n loop (run-Valid sends rounds fresh))))
