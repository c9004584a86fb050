-- ===== src/Server/Abstract/Refines/Connections.antt =====
-- Connections, as the abstract server makes them.
use mathlib.Core.Path.{subst}
use Prim.Native.String.{◌++◌}
use server_client_app.Base.{
  ℕ, String, ◌≡◌, refl, sym, ap, ◌∙◌, true, false, Option, none, some, List, [], ◌∷◌, ⊤,
}
use server_client_app.Base.Int.{ℤ, pos, negsuc}
use server_client_app.Server.Clients.{
  Command, Client, send_effect, close_effect, print_effect, State, pure, ◌>>=◌, emit,
  send_efficient, find_client, modify_client, push_fd, insert_client,
}
use server_client_app.Server.Clients.Counts.{Every, Every-modify_client, Every-insert, Every-find}
use server_client_app.Server.Handlers.{
  payload_text, send_connection_response, add_connection, new_client, reconnect, accept_client,
  admit, connect_line, manage_connection_request, has_topic,
}
use server_client_app.Server.Run.{serve_connection}
use server_client_app.Server.Valid.{Valid, Marked, has_fd}
use server_client_app.Server.Valid.Connect.{Valid-connection}
use server_client_app.Server.Valid.Steady.{Sends}
use server_client_app.Server.Subscriptions.{Distinct}
use server_client_app.Server.Abstract.{
  Entry, View, fd_of, entry, view, connect, call, replies, update, IsFree,
}
use server_client_app.Server.Abstract.Clients.{
  HasUniqueIds, Unique-modify, Unique-insert, view-insert, view-modify, seen, unseen,
}
use server_client_app.Server.Abstract.Refines.{OwnTopics, IsGood, Reaches, fresh}

accept-after :
    (f : List (String × Client) → List (String × Client)) (fd : ℕ) (line : String) (s : State)
    → Sends s
    → accept_client f fd line s ≡ (
      some tt,
      record s {
        clients = f s.clients;
        poll_fds = push_fd fd s.poll_fds;
        trace = print_effect line ∷ send_effect fd Command.connect_accepted "" ∷ s.trace;
      },
    )
unfolding accept_client add_connection send_connection_response send_efficient emit ◌>>=◌
accept-after f fd line s w = rw (w _) refl

accept-Reaches :
    (f : List (String × Client) → List (String × Client)) (fd : ℕ) (line : String) (s : State)
    (v : View) (r : Option ⊤ × State)
    → Sends s
    → r ≡ accept_client f fd line s
    → Valid r.1
    → HasUniqueIds (f s.clients)
    → Every OwnTopics (f s.clients)
    → view (f s.clients) ≡ v
    → Reaches s r v ((fd, Command.connect_accepted) ∷ [])
unfolding replies
accept-Reaches f fd line s v r w p valid ids topics e =
    let path = p ∙ accept-after f fd line s w in
    subst
      (λ (x : Option ⊤ × State). Valid x.1 → Reaches s x v ((fd, Command.connect_accepted) ∷ []))
      (sym path)
      (λ valid. record {
        returns = tt;
        sends = w;
        good = record { valid = valid; ids = ids; topics = topics };
        looks = e;
        answers = refl;
      })
      valid

deny-after :
    (id address : String) (fd : ℕ) (c : Client) (s : State)
    → Sends s
    → c.is_connected ≡ true
    → admit id address fd (some c) s ≡ (
      some tt,
      record s {
        trace =
            print_effect ("Client " ++ id ++ " already connected.\n")
            ∷ close_effect fd
            ∷ send_effect fd Command.connect_denied ""
            ∷ s.trace;
      },
    )
unfolding admit send_connection_response send_efficient emit ◌>>=◌
deny-after id address fd c s w on = rw on (rw (w _) refl)

connect-call :
    (id address : String) (fd : ℕ) (s : State)
    → call (connect id address fd) s ≡ admit id address fd (find_client id s.clients) s
unfolding call serve_connection manage_connection_request payload_text pure ◌>>=◌
connect-call id address fd s = refl

connect-Valid :
    (id address : String) (fd : ℕ) (s : State)
    → IsGood s
    → IsFree fd (view s.clients)
    → Valid (call (connect id address fd) s).1
unfolding call
connect-Valid id address fd s g free =
    Valid-connection (some (fd, address, _)) s (fresh fd s g free) g.valid

topics_none : Distinct []
unfolding Distinct
topics_none = tt

Marked-on : (c : Client) (n : ℕ) → Marked c → fd_of c.curr_fd ≡ some n → c.is_connected ≡ true
unfolding has_fd
Marked-on c n m e = m ∙ go c.curr_fd e
  where
    go : (z : ℤ) → fd_of z ≡ some n → has_fd z ≡ true
    go (pos k) e = refl
    go (negsuc k) e = cc e

Marked-off : (c : Client) → Marked c → fd_of c.curr_fd ≡ none → c.is_connected ≡ false
unfolding has_fd
Marked-off c m e = m ∙ go c.curr_fd e
  where
    go : (z : ℤ) → fd_of z ≡ none → has_fd z ≡ false
    go (pos k) e = cc e
    go (negsuc k) e = refl

pub first-Reaches :
    (id address : String) (fd : ℕ) (s : State)
    → IsGood s
    → Sends s
    → IsFree fd (view s.clients)
    → view s.clients id ≡ none
    → Reaches s
        (call (connect id address fd) s)
        (update id (record { fd = some fd; topics = λ t. false }) (view s.clients))
        ((fd, Command.connect_accepted) ∷ [])
unfolding admit has_topic
first-Reaches id address fd s g w free e =
    let lacks = unseen id s.clients e in
    accept-Reaches (insert_client id (new_client fd)) fd _ s _ _ w
      (connect-call id address fd s ∙ ap (λ (o : Option Client). admit id address fd o s) lacks)
      (connect-Valid id address fd s g free)
      (Unique-insert id (new_client fd) s.clients lacks g.ids)
      (Every-insert OwnTopics id (new_client fd) s.clients topics_none g.topics)
      (view-insert id (new_client fd) s.clients lacks)

-- A client that was there before.
back_at :
    (id address : String) (fd : ℕ) (s : State) (c : Client)
    → IsGood s
    → Sends s
    → IsFree fd (view s.clients)
    → find_client id s.clients ≡ some c
    → fd_of c.curr_fd ≡ none
    → Reaches s
        (call (connect id address fd) s)
        (update id (record (entry c) { fd = some fd }) (view s.clients))
        ((fd, Command.connect_accepted) ∷ [])
unfolding admit connect_line
back_at id address fd s c g w free found off =
    let unmarked = Marked-off c (Every-find Marked id c s.clients found g.valid.marks) off in
    accept-Reaches (modify_client id (reconnect fd)) fd (connect_line id address "\n") s _ _ w
      (connect-call id address fd s
        ∙ ap (λ (o : Option Client). admit id address fd o s) found
        ∙ rw unmarked refl)
      (connect-Valid id address fd s g free) (Unique-modify id (reconnect fd) s.clients g.ids)
      (Every-modify_client OwnTopics id (reconnect fd) s.clients (λ d h. h) g.topics)
      (view-modify id c (reconnect fd) s.clients found)

denied_at :
    (id address : String) (fd old : ℕ) (s : State) (c : Client)
    → IsGood s
    → Sends s
    → IsFree fd (view s.clients)
    → find_client id s.clients ≡ some c
    → fd_of c.curr_fd ≡ some old
    → Reaches s
        (call (connect id address fd) s)
        (view s.clients)
        ((fd, Command.connect_denied) ∷ [])
unfolding replies
denied_at id address fd old s c g w free found on =
    let marked = Marked-on c old (Every-find Marked id c s.clients found g.valid.marks) on in
    let path =
      connect-call id address fd s
      ∙ ap (λ (o : Option Client). admit id address fd o s) found
      ∙ deny-after id address fd c s w marked in
    subst
      (λ (x : Option ⊤ × State).
        Valid x.1 → Reaches s x (view s.clients) ((fd, Command.connect_denied) ∷ []))
      (sym path)
      (λ valid. record {
        returns = tt;
        sends = w;
        good = record { valid = valid; ids = g.ids; topics = g.topics };
        looks = refl;
        answers = refl;
      })
      (connect-Valid id address fd s g free)

pub back-Reaches :
    (id address : String) (fd : ℕ) (s : State) (e : Entry)
    → IsGood s
    → Sends s
    → IsFree fd (view s.clients)
    → view s.clients id ≡ some e
    → e.fd ≡ none
    → Reaches s
        (call (connect id address fd) s)
        (update id (record e { fd = some fd }) (view s.clients))
        ((fd, Command.connect_accepted) ∷ [])
back-Reaches id address fd s e g w free there off =
    let (c, found, same) = seen id e s.clients there in
    subst
      (λ (x : Entry).
        Reaches s (call (connect id address fd) s)
          (update id (record x { fd = some fd }) (view s.clients))
          ((fd, Command.connect_accepted) ∷ []))
      same (back_at id address fd s c g w free found (ap (λ (x : Entry). x.fd) same ∙ off))

pub denied-Reaches :
    (id address : String) (fd old : ℕ) (s : State) (e : Entry)
    → IsGood s
    → Sends s
    → IsFree fd (view s.clients)
    → view s.clients id ≡ some e
    → e.fd ≡ some old
    → Reaches s
        (call (connect id address fd) s)
        (view s.clients)
        ((fd, Command.connect_denied) ∷ [])
denied-Reaches id address fd old s e g w free there on =
    let (c, found, same) = seen id e s.clients there in
    denied_at id address fd old s c g w free found (ap (λ (x : Entry). x.fd) same ∙ on)
