-- ===== src/Server/Valid/Alive.antt =====
-- No round of a server whose calls succeed ends the process: no handler reads a null pointer.
use mathlib.Core.Path.{subst}
use server_client_app.Base.{
  ℕ, ◌≤◌, String, Bool, true, false, Option, none, some, List, if◌then◌else◌, arith,
}
use server_client_app.Server.Clients.{
  Command, Client, Effect, State, Handler, pure, onward, ◌>>=◌, ◌>>◌, emit, send_efficient,
  find_client,
}
use server_client_app.Server.Clients.Counts.{count_fd, count-push}
use server_client_app.Server.Handlers.{
  Received, payload_text, send_connection_response, add_connection, accept_client, admit,
  manage_connection_request, send_msg_if_subscribed,
}
use server_client_app.Server.Run.{
  Datagram, Round, check_stdin_data, serve_stdin, manage_udp_message, serve_connection,
  serve_clients, serve_sockets, run_round,
}
use server_client_app.Server.Valid.{Valid}
use server_client_app.Server.Valid.Run.{Fresh-same, Keeps-udp, Keeps-stdin}
use server_client_app.Server.Valid.Connect.{Fresh, Valid-connection}
use server_client_app.Server.Valid.Calm.{Calm-udp, Calm-stdin}
use server_client_app.Server.Valid.Steady.{
  Returns, Sends, Steady, Steady-pure, steady_rules, Steady-send_each, Steady-admit,
}
use server_client_app.Server.Valid.Clients.{Readable, clients-Alive}

-- A connection removes no descriptor.
record Grows {A : Type 0} (m : Handler A) : Type 0 where
  at : (s : State) (n : ℕ) → count_fd n s.poll_fds ≤ count_fd n (m s).1.poll_fds

same_le : (n : ℕ) → n ≤ n
same_le n = omega arith

Grows-onward :
    {A B : Type 0} (r : Option A) (f : A → Handler B) → ((a : A) → Grows (f a)) → Grows (onward r f)
Grows-onward (some a) f q = q a
Grows-onward none f q = record { at = λ s n. same_le _ }

Grows-bind :
    {A B : Type 0} (m : Handler A) (f : A → Handler B)
    → Grows m
    → ((a : A) → Grows (f a))
    → Grows (m >>= f)
unfolding ◌>>=◌
Grows-bind m f p q = record {
  at = λ s n. let le = p.at s n in let le' = (Grows-onward (m s).0 f q).at (m s).1 n in omega arith;
}

Grows-emit : (e : Effect) → Grows (emit e)
unfolding emit
Grows-emit e = record { at = λ s n. same_le _ }

Grows-send :
    (fd : ℕ) (command : Command) (payload : String) → Grows (send_efficient fd command payload)
unfolding send_efficient
Grows-send fd command payload = record { at = λ s n. same_le _ }

Grows-add :
    (f : List (String × Client) → List (String × Client)) (fd : ℕ) → Grows (add_connection f fd)
unfolding add_connection
Grows-add f fd = record { at = λ s n. omega (arith, count-push n fd s.poll_fds) }

Grows-if :
    {A : Type 0} (b : Bool) (m n : Handler A) → Grows m → Grows n → Grows (if b then m else n)
Grows-if true m n p q = p
Grows-if false m n p q = q

admit-Grows : (id address : String) (fd : ℕ) (o : Option Client) → Grows (admit id address fd o)
unfolding admit accept_client send_connection_response
admit-Grows id address fd none = search (Grows-bind, Grows-emit, Grows-send, Grows-add)
admit-Grows id address fd (some c) =
    search (Grows-if, Grows-bind, Grows-emit, Grows-send, Grows-add)

-- recvfrom has not failed.
abbrev pub Arrives : Option Datagram → Type 0
Arrives (some Datagram.failed) = ⊥
Arrives _ = Unit

udp-Alive :
    (o : Option Datagram) (s : State)
    → Arrives o
    → Valid s
    → Sends s
    → Returns (manage_udp_message o s).0 × Sends (manage_udp_message o s).1
unfolding manage_udp_message send_msg_if_subscribed pure
udp-Alive none s ok v w = (tt, w)
udp-Alive (some Datagram.failed) s ok v w = absurd ok
udp-Alive (some Datagram.unsupported) s ok v w = (tt, w)
udp-Alive (some (Datagram.valid topic m)) s ok v w =
    (Steady-send_each topic m s.clients v.marks).at s w

-- The new client has sent its id.
abbrev pub Introduced : Option (ℕ × String × Received) → Type 0
Introduced (some (fd, address, Received.failed)) = ⊥
Introduced (some (fd, address, Received.closed payload)) = ⊥
Introduced (some (fd, address, Received.message msg)) = Returns msg.payload
Introduced none = Unit

id-Alive :
    (address : String) (fd : ℕ) (s : State) (o : Option String)
    → Returns o
    → Sends s
    → let m = payload_text o >>= λ id t. admit id address fd (find_client id t.clients) t in
      Returns (m s).0
      × Sends (m s).1
      × ((n : ℕ) → count_fd n s.poll_fds ≤ count_fd n (m s).1.poll_fds)
unfolding payload_text ◌>>=◌ pure
id-Alive address fd s none ok w = absurd ok
id-Alive address fd s (some id) ok w =
    let (r, w') = (Steady-admit id address fd (find_client id s.clients)).at s w in
    (r, w', (admit-Grows id address fd (find_client id s.clients)).at s)

connection-Alive :
    (o : Option (ℕ × String × Received)) (s : State)
    → Introduced o
    → Sends s
    → Returns (serve_connection o s).0
      × Sends (serve_connection o s).1
      × ((n : ℕ) → count_fd n s.poll_fds ≤ count_fd n (serve_connection o s).1.poll_fds)
unfolding serve_connection manage_connection_request pure
connection-Alive none s ok w = (tt, w, λ n. same_le _)
connection-Alive (some (fd, address, Received.failed)) s ok w = absurd ok
connection-Alive (some (fd, address, Received.closed payload)) s ok w = absurd ok
connection-Alive (some (fd, address, Received.message msg)) s ok w =
    id-Alive address fd s msg.payload ok w

-- No recvfrom or recv fails, every message has a payload, and a new client sends its id.
pub record Healthy (round : Round) : Type 0 where
  pub arrives : Arrives round.udp
  pub introduced : Introduced round.connection
  pub readable : (fd : ℕ) → Readable (round.ready fd)

returned :
    {A B : Type 0} (r : Option A) (f : A → Handler B) (t : State)
    → Returns r
    → ((a : A) → Returns (f a t).0)
    → Returns (onward r f t).0
returned (some a) f t h q = q a
returned none f t h q = absurd h

returns_both :
    {A B C : Type 0} (r : Option A) (m : Handler B) (t : State) (f : B → Handler C)
    → Returns r
    → Returns (m t).0
    → ((b : B) → Returns (f b (m t).1).0)
    → Returns (onward (onward r (λ _. m) t).0 f (onward r (λ _. m) t).1).0
returns_both (some a) m t f h k q = returned (m t).0 f (m t).1 k q
returns_both none m t f h k q = absurd h

sockets-Alive :
    (round : Round) (s : State)
    → Healthy round
    → Fresh round.connection s
    → Valid s
    → Sends s
    → Returns (serve_sockets round s).0
unfolding serve_sockets ◌>>=◌
sockets-Alive round s h fresh v w =
    let t = (manage_udp_message round.udp s).1 in
    let (r, w') = udp-Alive round.udp s h.arrives v w in
    let same = (Calm-udp round.udp).fds s in
    let v' = (Keeps-udp round.udp).at s v in
    let u = (serve_connection round.connection t).1 in
    let (r', w'', grows) = connection-Alive round.connection t h.introduced w' in
    let v'' = Valid-connection round.connection t (Fresh-same round.connection s t same fresh) v' in
    returns_both (manage_udp_message round.udp s).0 (serve_connection round.connection) t
      (λ _. serve_clients round.ready s.poll_fds) r r'
      λ _.
        (clients-Alive round.ready s.poll_fds u h.readable v'' w''
          λ n. subst (λ (l : List ℕ). count_fd n l ≤ count_fd n u.poll_fds) same (grows n)).0

after_stdin-Alive :
    (round : Round) (leaves : Bool) (t : State)
    → Healthy round
    → Fresh round.connection t
    → Valid t
    → Sends t
    → Returns ((if leaves then pure true else serve_sockets round >> pure false) t).0
unfolding ◌>>=◌ pure
after_stdin-Alive round true t h fresh v w = tt
after_stdin-Alive round false t h fresh v w =
    returned (serve_sockets round t).0 (λ _. pure false) (serve_sockets round t).1
      (sockets-Alive round t h fresh v w) λ _. tt

Steady-stdin : (o : Option String) → Steady (serve_stdin o)
unfolding serve_stdin check_stdin_data
Steady-stdin none = Steady-pure false
Steady-stdin (some line) = search steady_rules

-- A round returns, when the invariant holds, every send succeeds, no recvfrom or recv fails,
-- every message has a payload, a new client sends its id, and accept gives a descriptor that is
-- not polled.
pub run_round-Returns :
    (round : Round) (s : State)
    → Healthy round
    → Fresh round.connection s
    → Valid s
    → Sends s
    → Returns (run_round round s).0
unfolding run_round ◌>>=◌
run_round-Returns round s h fresh v w =
    let (r, w') = (Steady-stdin round.stdin).at s w in
    let t = (serve_stdin round.stdin s).1 in
    returned (serve_stdin round.stdin s).0
      (λ leaves. if leaves then pure true else serve_sockets round >> pure false) t r
      λ leaves.
        after_stdin-Alive round leaves t h
          (Fresh-same round.connection s t ((Calm-stdin round.stdin).fds s) fresh)
          ((Keeps-stdin round.stdin).at s v) w'
