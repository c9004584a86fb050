-- ===== src/Server/Valid/Run.antt =====
-- Connections, and whole rounds of Server::run, keep the invariant.
use server_client_app.Base.{
  arith, refl, ℕ, String, ◌≡◌, ap, ◌∙◌, Bool, true, false, Option, none, some, List, [], ◌∷◌,
  if◌then◌else◌,
}
use server_client_app.Server.Clients.{Effect, State, Handler, pure, onward, ◌>>=◌, ◌>>◌}
use server_client_app.Server.Clients.Counts.{count_held, count_fd}
use server_client_app.Server.Handlers.{Received}
use server_client_app.Server.Run.{
  run, Datagram, Round, check_stdin_data, serve_stdin, manage_udp_message, serve_connection,
  serve_client, serve_clients, serve_sockets, run_round,
}
use server_client_app.Server.Valid.{
  Valid, Keeps, Keeps-pure, Keeps-die, Keeps-bind, Keeps-manage_client,
  Keeps-send_msg_if_subscribed, keep_rules,
}
use server_client_app.Server.Valid.Connect.{Fresh, Valid-connection}
use server_client_app.Server.Valid.Calm.{Calm-udp, Calm-stdin}

pub Keeps-serve_client : (fd : ℕ) (r : Option Received) → Keeps (serve_client fd r)
unfolding serve_client
Keeps-serve_client fd none = Keeps-pure tt
Keeps-serve_client fd (some r) = Keeps-manage_client fd r

pub Keeps-serve_clients :
    (ready : ℕ → Option Received) (fds : List ℕ) → Keeps (serve_clients ready fds)
unfolding serve_clients
Keeps-serve_clients ready [] = Keeps-pure tt
Keeps-serve_clients ready (fd ∷ fds) =
    Keeps-bind _ _ (Keeps-serve_client fd (ready fd)) λ _. Keeps-serve_clients ready fds

pub Keeps-udp : (o : Option Datagram) → Keeps (manage_udp_message o)
unfolding manage_udp_message
Keeps-udp none = Keeps-pure tt
Keeps-udp (some Datagram.failed) = Keeps-die
Keeps-udp (some Datagram.unsupported) = Keeps-pure tt
Keeps-udp (some (Datagram.valid topic m)) = Keeps-send_msg_if_subscribed topic m

pub Keeps-stdin : (o : Option String) → Keeps (serve_stdin o)
unfolding serve_stdin check_stdin_data
Keeps-stdin none = Keeps-pure false
Keeps-stdin (some line) = search keep_rules

pub Fresh-same :
    (o : Option (ℕ × String × Received)) (s t : State)
    → t.poll_fds ≡ s.poll_fds
    → Fresh o s
    → Fresh o t
Fresh-same none s t e h = tt
Fresh-same (some (fd, address, received)) s t e h = ap (count_fd fd) e ∙ h

Valid-onward :
    {A B : Type 0} (r : Option A) (f : A → Handler B) (t : State)
    → Valid t
    → ((a : A) → Valid (f a t).1)
    → Valid (onward r f t).1
Valid-onward (some a) f t v q = q a
Valid-onward none f t v q = v

Valid-sockets :
    (round : Round) (s : State)
    → Fresh round.connection s
    → Valid s
    → Valid (serve_sockets round s).1
unfolding serve_sockets ◌>>=◌
Valid-sockets round s fresh v =
    let t = (manage_udp_message round.udp s).1 in
    let joined =
      Valid-onward (manage_udp_message round.udp s).0 (λ _. serve_connection round.connection) t
        ((Keeps-udp round.udp).at s v)
        (λ _.
          Valid-connection round.connection t
            (Fresh-same round.connection s t ((Calm-udp round.udp).fds s) fresh)
            ((Keeps-udp round.udp).at s v)) in
    Valid-onward _ (λ _. serve_clients round.ready s.poll_fds) _ joined
      (λ _. (Keeps-serve_clients round.ready s.poll_fds).at _ joined)

Valid-after_stdin :
    (round : Round) (leaves : Bool) (t : State)
    → Fresh round.connection t
    → Valid t
    → Valid ((if leaves then pure true else serve_sockets round >> pure false) t).1
unfolding ◌>>=◌ pure
Valid-after_stdin round true t fresh v = v
Valid-after_stdin round false t fresh v =
    let w = Valid-sockets round t fresh v in
    Valid-onward (serve_sockets round t).0 (λ _. pure false) (serve_sockets round t).1 w λ _. w

-- A round of the server keeps the invariant, when accept gives a descriptor that is not polled:
-- whether it returns or ends the process, the polled descriptors are those of the connected
-- clients, each of one client.
pub run_round-Valid :
    (round : Round) (s : State) → Fresh round.connection s → Valid s → Valid (run_round round s).1
unfolding run_round ◌>>=◌
run_round-Valid round s fresh v =
    let t = (serve_stdin round.stdin s).1 in
    let w = (Keeps-stdin round.stdin).at s v in
    Valid-onward (serve_stdin round.stdin s).0
      (λ leaves. if leaves then pure true else serve_sockets round >> pure false) t w
      λ leaves.
        Valid-after_stdin round leaves t
          (Fresh-same round.connection s t ((Calm-stdin round.stdin).fds s) fresh) w

-- Each round's descriptor is fresh in the state that the round starts from.
unfoldable pub FreshRounds : List Round → State → Type 0
FreshRounds [] s = Unit
FreshRounds (round ∷ rounds) s = Fresh round.connection s × FreshRounds rounds (run_round round s).1

-- The state that the loop starts from, before any client has connected.
abbrev pub start : (List Effect → Bool) → State
start sends = record { clients = []; poll_fds = []; trace = []; sends = sends }

start-Valid : (sends : List Effect → Bool) → Valid (start sends)
unfolding count_fd count_held
start-Valid sends = record { polled = λ n. refl; once = λ n. omega arith; marks = tt }

rounds-Valid :
    (rounds : List Round) (s : State) → FreshRounds rounds s → Valid s → Valid (run rounds s).1
unfolding run FreshRounds ◌>>=◌ pure
rounds-Valid [] s fresh v = v
rounds-Valid (round ∷ rounds) s fresh v =
    let w = run_round-Valid round s fresh.0 v in
    Valid-onward (run_round round s).0 (λ leaves. if leaves then pure true else run rounds)
      (run_round round s).1 w
      λ leaves. go leaves (rounds-Valid rounds (run_round round s).1 fresh.1 w) w
  where
    go :
        (leaves : Bool)
        → Valid (run rounds (run_round round s).1).1
        → Valid (run_round round s).1
        → Valid ((if leaves then pure true else run rounds) (run_round round s).1).1
    go true a b = b
    go false a b = a

-- From the state with no clients, and after any rounds in which accept gives descriptors that
-- are not polled, the invariant holds: the polled descriptors are those of the connected
-- clients, each of one client.
pub run-Valid :
    (sends : List Effect → Bool) (rounds : List Round)
    → FreshRounds rounds (start sends)
    → Valid (run rounds (start sends)).1
run-Valid sends rounds fresh = rounds-Valid rounds (start sends) fresh (start-Valid sends)
