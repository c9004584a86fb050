-- ===== src/Server/Abstract.antt =====
-- What the server of Server.cpp promises its clients, with no lists and no order: for each id
-- that has ever connected, the descriptor that it has now and the set of its topics.
pub mod Clients
pub mod Silent
pub mod Refines
pub mod Samples
use mathlib.Core.List.{◌++◌ as append}
use mathlib.Core.Option.{map as over}
use text.Mathlib.Text.{◌==◌ as str_eq}
use server_client_app.Base.{
  ℕ, String, ◌≡◌, ◌≢◌, Bool, true, false, Option, none, some, List, [], ◌∷◌, if◌then◌else◌, ⊤,
}
use server_client_app.Base.Int.{ℤ, pos, negsuc}
use server_client_app.Server.Clients.{
  Command, Client, Effect, send_effect, close_effect, print_effect, Handler, pure, ◌>>◌,
  find_client,
}
use server_client_app.Server.Handlers.{Received, Request, has_topic, is_subscribe}
use server_client_app.Server.Run.{Datagram, manage_udp_message, serve_connection, serve_client}
use server_client_app.Server.Subscriptions.{reply}

pub record Entry : Type 0 where
  pub fd : Option ℕ
  pub topics : String → Bool

abbrev pub View : Type 0
View = String → Option Entry

abbrev pub fd_of : ℤ → Option ℕ
fd_of (pos n) = some n
fd_of (negsuc n) = none

abbrev pub entry : Client → Entry
entry c = record { fd = fd_of c.curr_fd; topics = λ t. has_topic t c.subscribed_topics }

-- What the map of the clients says.
unfoldable pub view : List (String × Client) → View
view clients id = over entry (find_client id clients)

-- What happens to the server.
pub data Op : Type 0 where
  -- a client connects from an address, on a descriptor, with its id
  connect : String → String → ℕ → Op
  -- the client of a descriptor sends a command and a topic
  request : ℕ → Command → String → Op
  -- the connection of a descriptor closes
  close : ℕ → Op
  -- a datagram arrives, with a topic and the text for the subscribers
  datagram : String → String → Op

-- The calls of Server::run for it.
unfoldable pub call : Op → Handler ⊤
call (connect id address fd) =
    let msg : Request = record { command = Command.connect_req; payload = some id } in
    serve_connection (some (fd, address, Received.message msg))
call (request fd command topic) =
    serve_client fd (some (Received.message (record { command = command; payload = some topic })))
call (close fd) = serve_client fd (some (Received.closed none))
call (datagram topic text) = manage_udp_message (some (Datagram.valid topic text))

unfoldable pub calls : List Op → Handler ⊤
calls [] = pure tt
calls (op ∷ ops) = call op >> calls ops

-- The answers that were sent, the newest first, without the forwarded datagrams.
unfoldable pub replies : List Effect → List (ℕ × Command)
replies [] = []
replies (send_effect fd Command.msg_from_udp text ∷ es) = replies es
replies (send_effect fd command text ∷ es) = (fd, command) ∷ replies es
replies (close_effect fd ∷ es) = replies es
replies (print_effect text ∷ es) = replies es

unfoldable pub update : String → Entry → View → View
update id e v other = if str_eq id other then some e else v other

unfoldable pub set_topic : String → Bool → (String → Bool) → String → Bool
set_topic topic b topics other = if str_eq topic other then b else topics other

-- No client has the descriptor.
unfoldable pub IsFree : ℕ → View → Type 0
IsFree fd v = (id : String) (e : Entry) → v id ≡ some e → e.fd ≢ some fd

-- What the server does, and the answers that it sends.
pub data Step : View → Op → View → List (ℕ × Command) → Type 0 where
  first_time :
      (v : View) (id address : String) (fd : ℕ)
      → IsFree fd v
      → v id ≡ none
      → Step v
          (connect id address fd)
          (update id (record { fd = some fd; topics = λ t. false }) v)
          ((fd, Command.connect_accepted) ∷ [])
  comes_back :
      (v : View) (id address : String) (fd : ℕ) (e : Entry)
      → IsFree fd v
      → v id ≡ some e
      → e.fd ≡ none
      → Step v
          (connect id address fd)
          (update id (record e { fd = some fd }) v)
          ((fd, Command.connect_accepted) ∷ [])
  already_connected :
      (v : View) (id address : String) (fd old : ℕ) (e : Entry)
      → IsFree fd v
      → v id ≡ some e
      → e.fd ≡ some old
      → Step v (connect id address fd) v ((fd, Command.connect_denied) ∷ [])
  served :
      (v : View) (id : String) (fd : ℕ) (command : Command) (topic : String) (e : Entry)
      → v id ≡ some e
      → e.fd ≡ some fd
      → Step v
          (request fd command topic)
          (update id (record e { topics = set_topic topic (is_subscribe command) e.topics }) v)
          ((fd, reply (is_subscribe command) (e.topics topic)) ∷ [])
  left :
      (v : View) (id : String) (fd : ℕ) (e : Entry)
      → v id ≡ some e
      → e.fd ≡ some fd
      → Step v (close fd) (update id (record e { fd = none }) v) []
  forwarded : (v : View) (topic text : String) → Step v (datagram topic text) v []

pub data Steps : View → List Op → View → List (ℕ × Command) → Type 0 where
  rest : (v : View) → Steps v [] v []
  step :
      (v u w : View) (op : Op) (ops : List Op) (out outs : List (ℕ × Command))
      → Step v op u out
      → Steps u ops w outs
      → Steps v (op ∷ ops) w (append outs out)
