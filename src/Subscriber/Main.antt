-- ===== src/Subscriber/Main.antt =====
-- Subscriber::prepare and subscriber_main.cpp.
pub mod Sent
use Prim.Native.String.{◌++◌}
use server_client_app.Base.{
  ℕ, String, Bool, true, false, Option, none, some, List, [], ◌∷◌, leb, if◌then◌else◌, ⊤,
}
use server_client_app.Base.Int.{ℤ, pos, negsuc}
use server_client_app.Base.Text.Scan.{scan_hu}
use server_client_app.Subscriber.{
  printed, Handler, pure, die, ◌>>=◌, ◌>>◌, emit, check_connection_validity, Round, run,
}
use server_client_app.Subscriber.Input.{strlen}

-- What the system says to socket, setsockopt and connect, and how inet_addr reads a text. The
-- arguments of connect are the address and the port.
pub record System : Type 0 where
  pub socket : Bool
  pub setsockopt : Bool
  pub connect : ℕ → ℕ → Bool
  pub inet_addr : String → ℕ

-- DIE, with the call that must succeed
unfoldable pub demand : Bool → Handler ⊤
demand true = pure tt
demand false = die

unfoldable pub prepare : System → ℕ → ℕ → Handler ⊤
unfolding demand ◌>>=◌
prepare system server_ip server_port = do
  demand system.socket
  demand system.setsockopt
  demand (system.connect server_ip server_port)

-- The loop where the server accepted the client. The status of the process, or `none` while the
-- rounds that are watched did not end it.
unfoldable pub run_if_valid : Bool → List Round → Handler (Option ℤ)
unfolding run ◌>>=◌
run_if_valid false rounds = pure (some (pos 0))
run_if_valid true rounds = do ended ← run rounds; if ended then pure (some (pos 0)) else pure none

unfoldable pub start_subscriber :
    System → String → String → Option ℕ → List Round → Handler (Option ℤ)
unfolding prepare run_if_valid check_connection_validity ◌>>=◌
start_subscriber system id ip none rounds = die
start_subscriber system id ip (some server_port) rounds = do
  prepare system (system.inet_addr ip) server_port
  valid ← check_connection_validity id
  run_if_valid valid rounds

-- The process is given its own name, and the arguments behind it.
unfoldable pub subscriber_main : System → String → List String → List Round → Handler (Option ℤ)
unfolding start_subscriber emit ◌>>=◌
subscriber_main system name (id ∷ ip ∷ port ∷ []) rounds =
    if leb (strlen id) 10
    then start_subscriber system id ip (scan_hu port) rounds
    else emit (printed "ID must have at most 10 characters\n") >> pure (some (negsuc 0))
subscriber_main system name arguments rounds =
    emit (printed ("Subscriber Usage: " ++ name ++ " <CLIENT_ID> <SERVER_IP> <SERVER_PORT> \n"))
    >> pure (some (negsuc 0))
