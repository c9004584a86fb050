-- ===== src/Server/Valid/Clients.antt =====
-- The loop over the clients reads no null pointer.
use server_client_app.Base.{
  ℕ, ◌+◌, ◌≤◌, String, sym, Option, none, some, List, [], ◌∷◌, ◌==◌, arith,
}
use server_client_app.Server.Clients.{
  Command, Client, State, pure, ◌>>=◌, emit, send_efficient, get_client_from_fd, set_clients,
}
use server_client_app.Server.Clients.Counts.{bit, count_fd, count-erase, get_client-held}
use server_client_app.Server.Handlers.{
  Received, payload_text, serve_request, manage_subscribe_unsubscribe, remove_connection,
  manage_closed, manage_client,
}
use server_client_app.Server.Run.{serve_client, serve_clients}
use server_client_app.Server.Valid.{Valid}
use server_client_app.Server.Valid.Run.{Keeps-serve_client}
use server_client_app.Server.Valid.Steady.{Returns, Sends, Returns-onward}

-- The answer of recv_efficient: not -1, and a message with a payload.
abbrev pub Readable : Option Received → Type 0
Readable none = Unit
Readable (some Received.failed) = ⊥
Readable (some (Received.closed payload)) = Unit
Readable (some (Received.message msg)) = Returns msg.payload

-- What serving the client of `fd` leaves to poll: all the others.
pub Leaves : ℕ → List ℕ → List ℕ → Type 0
Leaves fd before after = (n : ℕ) → count_fd n before ≤ bit (fd == n) + count_fd n after

pub same_fds : (fd : ℕ) (fds : List ℕ) → Leaves fd fds fds
unfolding Leaves
same_fds fd fds n = omega arith

pub closed-Alive :
    (fd : ℕ) (s : State) (id : String) (c : Client)
    → Sends s
    → 1 ≤ count_fd fd s.poll_fds
    → Returns (manage_closed fd (id, some c) s).0
      × Sends (manage_closed fd (id, some c) s).1
      × Leaves fd s.poll_fds (manage_closed fd (id, some c) s).1.poll_fds
unfolding manage_closed ◌>>=◌ remove_connection emit Leaves
closed-Alive fd s id c w h = (tt, w, λ n. omega (arith, count-erase n fd s.poll_fds h))

pub request-Alive :
    (fd : ℕ) (command : Command) (topic : String) (s : State) (c : Client)
    → Sends s
    → Returns (serve_request fd command topic (some c) s).0
      × Sends (serve_request fd command topic (some c) s).1
      × Leaves fd s.poll_fds (serve_request fd command topic (some c) s).1.poll_fds
unfolding serve_request set_clients send_efficient ◌>>=◌
request-Alive fd command topic s c w = rw (w _) (tt, w, same_fds fd s.poll_fds)

pub text-Alive :
    (fd : ℕ) (command : Command) (payload : Option String) (s : State)
    → Returns payload
    → Valid s
    → Sends s
    → 1 ≤ count_fd fd s.poll_fds
    → let m = payload_text payload >>= λ topic t.
        serve_request fd command topic (get_client_from_fd fd t.clients).1 t in
      Returns (m s).0 × Sends (m s).1 × Leaves fd s.poll_fds (m s).1.poll_fds
unfolding payload_text ◌>>=◌ pure
text-Alive fd command none s ok v w h = absurd ok
text-Alive fd command (some topic) s ok v w h =
    let (id, c, found, _) = get_client-held fd s.clients (rw (sym (v.polled fd)) h) in
    rw found (request-Alive fd command topic s c w)

pub client-Alive :
    (fd : ℕ) (r : Option Received) (s : State)
    → Readable r
    → Valid s
    → Sends s
    → 1 ≤ count_fd fd s.poll_fds
    → Returns (serve_client fd r s).0
      × Sends (serve_client fd r s).1
      × Leaves fd s.poll_fds (serve_client fd r s).1.poll_fds
unfolding serve_client manage_client manage_subscribe_unsubscribe pure
client-Alive fd none s ok v w h = (tt, w, same_fds fd s.poll_fds)
client-Alive fd (some Received.failed) s ok v w h = absurd ok
client-Alive fd (some (Received.closed payload)) s ok v w h =
    let (id, c, found, _) = get_client-held fd s.clients (rw (sym (v.polled fd)) h) in
    rw found (closed-Alive fd s id c w h)
client-Alive fd (some (Received.message msg)) s ok v w h =
    text-Alive fd msg.command msg.payload s ok v w h

pub head_polled :
    (fd : ℕ) (fds polled : List ℕ)
    → ((n : ℕ) → count_fd n (fd ∷ fds) ≤ count_fd n polled)
    → 1 ≤ count_fd fd polled
unfolding count_fd
head_polled fd fds polled h = let le = h fd in ground arith

pub rest_polled :
    (fd : ℕ) (fds before after : List ℕ)
    → ((n : ℕ) → count_fd n (fd ∷ fds) ≤ count_fd n before)
    → Leaves fd before after
    → (n : ℕ) → count_fd n fds ≤ count_fd n after
unfolding count_fd Leaves
rest_polled fd fds before after h l n = omega (arith, h n, l n)

pub clients-Alive :
    (ready : ℕ → Option Received) (fds : List ℕ) (s : State)
    → ((fd : ℕ) → Readable (ready fd))
    → Valid s
    → Sends s
    → ((n : ℕ) → count_fd n fds ≤ count_fd n s.poll_fds)
    → Returns (serve_clients ready fds s).0 × Sends (serve_clients ready fds s).1
unfolding serve_clients ◌>>=◌ pure
clients-Alive ready [] s ok v w h = (tt, w)
clients-Alive ready (fd ∷ fds) s ok v w h =
    let (r, w', left) =
      client-Alive fd (ready fd) s (ok fd) v w (head_polled fd fds s.poll_fds h) in
    let t = (serve_client fd (ready fd) s).1 in
    Returns-onward (serve_client fd (ready fd) s).0 (λ _. serve_clients ready fds) t r
      λ _.
        clients-Alive ready fds t ok ((Keeps-serve_client fd (ready fd)).at s v) w'
          (rest_polled fd fds s.poll_fds t.poll_fds h left)
