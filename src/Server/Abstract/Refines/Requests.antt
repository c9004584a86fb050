-- ===== src/Server/Abstract/Refines/Requests.antt =====
-- Requests, disconnections and datagrams, as the abstract server serves them.
use mathlib.Core.Path.{subst}
use Prim.Native.String.{◌++◌}
use server_client_app.Base.{
  ℕ, String, ◌≡◌, ◌≢◌, refl, sym, ap, ◌∙◌, Bool, true, false, Option, none, some, List, [], ◌∷◌, ⊤,
  inl, inr, Bool-cases,
}
use server_client_app.Base.Int.{negsuc}
use server_client_app.Server.Topic.{Topics}
use server_client_app.Server.Clients.{
  Command, Client, Effect, send_effect, close_effect, print_effect, State, pure, ◌>>=◌, emit,
  send_efficient, find_client, get_client_from_fd, modify_fd, erase_fd, set_clients,
}
use server_client_app.Server.Clients.Counts.{Every, Every-modify_fd, Every-find}
use server_client_app.Server.Handlers.{
  Received, payload_text, has_topic, answer, is_subscribe, serve_request,
  manage_subscribe_unsubscribe, remove_connection, manage_closed, manage_client,
  send_msg_if_subscribed,
}
use server_client_app.Server.Run.{Datagram, manage_udp_message, serve_client}
use server_client_app.Server.Valid.{Valid}
use server_client_app.Server.Valid.Run.{Keeps-serve_client, Keeps-udp}
use server_client_app.Server.Valid.Steady.{Sends, Steady-send_each}
use server_client_app.Server.Subscriptions.{reply, answer-has_topic}
use server_client_app.Server.Abstract.{
  Entry, fd_of, entry, view, request, close, datagram, call, replies, update, set_topic,
}
use server_client_app.Server.Abstract.Clients.{
  HasUniqueIds, get_client-found, Unique-modify_fd, view-modify_fd, seen,
}
use server_client_app.Server.Abstract.Silent.{Silent-send_each}
use server_client_app.Server.Abstract.Refines.{OwnTopics, IsGood, Reaches, has_it}
use mathlib.Core.Path.{fun_ext}
use text.Mathlib.Text.{◌==◌ as str_eq}
use text.Mathlib.TextEquality.{eq_iff}

held :
    (fd : ℕ) (id : String) (s : State) (c : Client)
    → IsGood s
    → find_client id s.clients ≡ some c
    → fd_of c.curr_fd ≡ some fd
    → get_client_from_fd fd s.clients ≡ (id, some c)
held fd id s c g found on =
    get_client-found fd id c s.clients found (has_it c.curr_fd fd on) (g.valid.once fd)

request-after :
    (fd : ℕ) (command : Command) (topic : String) (s : State) (id : String) (c : Client)
    → Sends s
    → get_client_from_fd fd s.clients ≡ (id, some c)
    → let (sent, topics) = answer command topic c.subscribed_topics in
      call (request fd command topic) s ≡ (
        some tt,
        record s {
          clients = modify_fd fd (λ d. record d { subscribed_topics = topics }) s.clients;
          trace = send_effect fd sent "" ∷ s.trace;
        },
      )
unfolding call serve_client manage_client manage_subscribe_unsubscribe serve_request payload_text
    set_clients send_efficient pure ◌>>=◌
request-after fd command topic s id c w found = rw found (rw (w _) refl)

replies-reply :
    (fd : ℕ) (a b : Bool) (es : List Effect)
    → replies (send_effect fd (reply a b) "" ∷ es) ≡ (fd, reply a b) ∷ replies es
unfolding replies
replies-reply fd true true es = refl
replies-reply fd true false es = refl
replies-reply fd false true es = refl
replies-reply fd false false es = refl

topics_path :
    (topic : String) (b : Bool) (before after : Topics)
    → has_topic topic after ≡ b
    → ((other : String) → other ≢ topic → has_topic other after ≡ has_topic other before)
    → (λ (t : String). has_topic t after) ≡ set_topic topic b (λ t. has_topic t before)
unfolding set_topic
topics_path topic b before after self others = fun_ext λ other.
    elim (Bool-cases (str_eq topic other)) [
      | inl e ↦
          rw e (ap (λ (x : String). has_topic x after) (sym ((eq_iff topic other).0 e)) ∙ self)
      | inr n ↦ rw n (others other λ p. cc (n, (eq_iff topic other).1 (sym p)))
    ]

call-Valid : (fd : ℕ) (r : Option Received) (s : State) → IsGood s → Valid (serve_client fd r s).1
call-Valid fd r s g = (Keeps-serve_client fd r).at s g.valid

served_at :
    (fd : ℕ) (command : Command) (topic : String) (s : State) (id : String) (c : Client)
    → IsGood s
    → Sends s
    → find_client id s.clients ≡ some c
    → fd_of c.curr_fd ≡ some fd
    → Reaches s
        (call (request fd command topic) s)
        (update id
          (record (entry c) { topics = set_topic topic (is_subscribe command) (entry c).topics })
          (view s.clients))
        ((fd, reply (is_subscribe command) ((entry c).topics topic)) ∷ [])
unfolding call
served_at fd command topic s id c g w found on =
    let facts =
      answer-has_topic command topic c.subscribed_topics
        (Every-find OwnTopics id c s.clients found g.topics) in
    let after : Topics = (answer command topic c.subscribed_topics).1 in
    let f : Client → Client = λ d. record d { subscribed_topics = after } in
    let asked = is_subscribe command in
    subst
      (λ (x : Option ⊤ × State).
        Valid x.1
        → Reaches s x
            (update id (record (entry c) { topics = set_topic topic asked (entry c).topics })
              (view s.clients))
            ((fd, reply asked ((entry c).topics topic)) ∷ []))
      (sym (request-after fd command topic s id c w (held fd id s c g found on)))
      (λ valid. record {
        returns = tt;
        sends = w;
        good = record {
          valid = valid;
          ids = Unique-modify_fd fd f s.clients g.ids;
          topics = Every-modify_fd OwnTopics fd f s.clients (λ d h. facts.3) g.topics;
        };
        looks =
            view-modify_fd fd id c f s.clients found (has_it c.curr_fd fd on) (g.valid.once fd)
            ∙ ap
                (λ (ts : String → Bool).
                  update id (record { fd = fd_of c.curr_fd; topics = ts }) (view s.clients))
                (topics_path topic asked c.subscribed_topics after facts.1 facts.2);
        answers =
            ap (λ (sent : Command). replies (send_effect fd sent "" ∷ s.trace)) facts.0
            ∙ replies-reply fd asked (has_topic topic c.subscribed_topics) s.trace;
      })
      (call-Valid fd (some (Received.message (record { command = command; payload = some topic })))
        s g)

abbrev gone : Client → Client
gone c = record c { is_connected = false; curr_fd = negsuc 0 }

close-after :
    (fd : ℕ) (s : State) (id : String) (c : Client)
    → get_client_from_fd fd s.clients ≡ (id, some c)
    → call (close fd) s ≡ (
      some tt,
      record s {
        clients = modify_fd fd gone s.clients;
        trace = print_effect ("Client " ++ id ++ " disconnected.\n") ∷ close_effect fd ∷ s.trace;
        poll_fds = erase_fd fd s.poll_fds;
      },
    )
unfolding call serve_client manage_client manage_closed remove_connection emit ◌>>=◌
close-after fd s id c found = rw found refl

left_at :
    (fd : ℕ) (s : State) (id : String) (c : Client)
    → IsGood s
    → Sends s
    → find_client id s.clients ≡ some c
    → fd_of c.curr_fd ≡ some fd
    → Reaches s (call (close fd) s) (update id (record (entry c) { fd = none }) (view s.clients)) []
unfolding call replies
left_at fd s id c g w found on =
    subst
      (λ (x : Option ⊤ × State).
        Valid x.1 → Reaches s x (update id (record (entry c) { fd = none }) (view s.clients)) [])
      (sym (close-after fd s id c (held fd id s c g found on)))
      (λ valid. record {
        returns = tt;
        sends = w;
        good = record {
          valid = valid;
          ids = Unique-modify_fd fd gone s.clients g.ids;
          topics = Every-modify_fd OwnTopics fd gone s.clients (λ d h. h) g.topics;
        };
        looks =
            view-modify_fd fd id c gone s.clients found (has_it c.curr_fd fd on) (g.valid.once fd);
        answers = refl;
      })
      (call-Valid fd (some (Received.closed none)) s g)

pub served-Reaches :
    (fd : ℕ) (command : Command) (topic : String) (s : State) (id : String) (e : Entry)
    → IsGood s
    → Sends s
    → view s.clients id ≡ some e
    → e.fd ≡ some fd
    → Reaches s
        (call (request fd command topic) s)
        (update id
          (record e { topics = set_topic topic (is_subscribe command) e.topics })
          (view s.clients))
        ((fd, reply (is_subscribe command) (e.topics topic)) ∷ [])
served-Reaches fd command topic s id e g w there on =
    let (c, found, same) = seen id e s.clients there in
    subst
      (λ (x : Entry).
        Reaches s (call (request fd command topic) s)
          (update id (record x { topics = set_topic topic (is_subscribe command) x.topics })
            (view s.clients))
          ((fd, reply (is_subscribe command) (x.topics topic)) ∷ []))
      same (served_at fd command topic s id c g w found (ap (λ (x : Entry). x.fd) same ∙ on))

pub left-Reaches :
    (fd : ℕ) (s : State) (id : String) (e : Entry)
    → IsGood s
    → Sends s
    → view s.clients id ≡ some e
    → e.fd ≡ some fd
    → Reaches s (call (close fd) s) (update id (record e { fd = none }) (view s.clients)) []
left-Reaches fd s id e g w there on =
    let (c, found, same) = seen id e s.clients there in
    subst
      (λ (x : Entry).
        Reaches s (call (close fd) s) (update id (record x { fd = none }) (view s.clients)) [])
      same (left_at fd s id c g w found (ap (λ (x : Entry). x.fd) same ∙ on))

pub forwarded-Reaches :
    (topic text : String) (s : State)
    → IsGood s
    → Sends s
    → Reaches s (call (datagram topic text) s) (view s.clients) []
unfolding call manage_udp_message send_msg_if_subscribed
forwarded-Reaches topic text s g w =
    let quiet = Silent-send_each topic text s.clients in
    let (r, w') = (Steady-send_each topic text s.clients g.valid.marks).at s w in
    let same = sym (quiet.clients s) in
    record {
      returns = r;
      sends = w';
      good = record {
        valid = (Keeps-udp (some (Datagram.valid topic text))).at s g.valid;
        ids = subst HasUniqueIds same g.ids;
        topics = subst (λ (cs : List (String × Client)). Every OwnTopics cs) same g.topics;
      };
      looks = ap view (quiet.clients s);
      answers = quiet.answers s;
    }
