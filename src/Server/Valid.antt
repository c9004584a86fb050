-- ===== src/Server/Valid.antt =====
-- The invariant of the server's state, and the handlers that keep it.
pub mod Connect
pub mod Calm
pub mod Run
pub mod Steady
pub mod Clients
pub mod Alive
use text.Mathlib.Text.{◌==◌ as str_eq}
use server_client_app.Base.{
  ℕ, zero, suc, ◌+◌, ◌≤◌, String, ◌≡◌, refl, sym, ap, ◌∙◌, Bool, true, false, not, ◌||◌, Option,
  none, some, List, [], ◌∷◌, ◌==◌, if◌then◌else◌, arith, inl, inr, Bool-cases, All, ⊤, ==_iff,
}
use server_client_app.Base.Int.{ℤ, pos, negsuc}
use server_client_app.Server.Topic.{Topics}
use server_client_app.Server.Clients.{
  Command, Client, Effect, State, Handler, pure, die, onward, ◌>>=◌, ◌>>◌, emit, send_efficient,
  is_fd, find_client, modify_client, get_client_from_fd, modify_fd, push_fd, erase_fd, set_clients,
  insert_client,
}
use server_client_app.Server.Clients.Counts.{
  bit, count_fd, count_held, count-push, count-erase, held-insert, held-modify, held-remove,
  held-keep, get_client-held, Every, Every-modify_fd, Every-modify_client, Every-insert, Every-find,
}
use server_client_app.Server.Handlers.{
  Request, Received, failed, closed, message, payload_text, send_connection_response,
  add_connection, new_client, accept_client, admit, manage_connection_request, serve_request,
  manage_subscribe_unsubscribe, remove_connection, manage_closed, manage_client, send_message,
  send_each, send_msg_if_subscribed, wants,
}

unfoldable pub has_fd : ℤ → Bool
has_fd (pos n) = true
has_fd (negsuc n) = false

abbrev pub Marked : Client → Type 0
Marked c = c.is_connected ≡ has_fd c.curr_fd

-- The descriptors that are polled are those of the clients, each of one client; a client has one
-- exactly when it is marked as connected.
pub record Valid (s : State) : Type 0 where
  pub polled : (n : ℕ) → count_fd n s.poll_fds ≡ count_held n s.clients
  pub once : (n : ℕ) → count_held n s.clients ≤ 1
  pub marks : Every Marked s.clients

pub record Keeps {A : Type 0} (m : Handler A) : Type 0 where
  pub at : (s : State) → Valid s → Valid (m s).1

module _ {A : Type 0} where
  pub Keeps-pure : (a : A) → Keeps (pure a)
  unfolding pure
  Keeps-pure a = record { at = λ s v. v }

  pub Keeps-die : Keeps (die {A = A})
  unfolding die
  Keeps-die = record { at = λ s v. v }

  pub Keeps-if : (b : Bool) (m n : Handler A) → Keeps m → Keeps n → Keeps (if b then m else n)
  Keeps-if true m n p q = p
  Keeps-if false m n p q = q

pub Keeps-onward :
    {A B : Type 0} (r : Option A) (f : A → Handler B) → ((a : A) → Keeps (f a)) → Keeps (onward r f)
Keeps-onward (some a) f q = q a
Keeps-onward none f q = record { at = λ s v. v }

pub Keeps-bind :
    {A B : Type 0} (m : Handler A) (f : A → Handler B)
    → Keeps m
    → ((a : A) → Keeps (f a))
    → Keeps (m >>= f)
unfolding ◌>>=◌
Keeps-bind m f p q = record { at = λ s v. (Keeps-onward (m s).0 f q).at (m s).1 (p.at s v) }

again : {s t : State} → s.clients ≡ t.clients → s.poll_fds ≡ t.poll_fds → Valid s → Valid t
again {s} {t} c p v = record {
  polled = λ n. ap (count_fd n) (sym p) ∙ v.polled n ∙ ap (count_held n) c;
  once = λ n. rw (sym c) (v.once n);
  marks = rw (sym c) v.marks;
}

pub Keeps-emit : (e : Effect) → Keeps (emit e)
unfolding emit
Keeps-emit e = record { at = λ s v. again refl refl v }

pub Keeps-send_efficient :
    (fd : ℕ) (command : Command) (payload : String) → Keeps (send_efficient fd command payload)
unfolding send_efficient
Keeps-send_efficient fd command payload = record { at = λ s v. again refl refl v }

Keeps-payload_text : (p : Option String) → Keeps (payload_text p)
unfolding payload_text
Keeps-payload_text none = Keeps-die
Keeps-payload_text (some t) = Keeps-pure t

pub ruleset keep_rules =
    (Keeps-pure, Keeps-die, Keeps-if, Keeps-bind, Keeps-emit, Keeps-send_efficient)

-- A client gets the descriptor `fd`, which no client has.
pub Valid-add :
    (s : State) (fd : ℕ) (f : List (String × Client) → List (String × Client))
    → count_fd fd s.poll_fds ≡ 0
    → ((n : ℕ) → count_held n (f s.clients) ≡ bit (fd == n) + count_held n s.clients)
    → Every Marked (f s.clients)
    → Valid s
    → Valid (add_connection f fd s).1
unfolding add_connection
Valid-add s fd f fresh held marks v = record {
  polled = λ n.
      count-push n fd s.poll_fds ∙ ap (λ (k : ℕ). bit (fd == n) + k) (v.polled n) ∙ sym (held n);
  once = λ n. rw (held n) (elim (Bool-cases (fd == n)) [
    | inl e ↦
        let none_yet : count_held n s.clients ≡ 0 =
          ap (λ (k : ℕ). count_held k s.clients) (sym ((==_iff fd n).0 e))
          ∙ sym (v.polled fd)
          ∙ fresh in
        rw (e, none_yet) (omega arith)
    | inr e ↦ rw e (omega (arith, v.once n))
  ]);
  marks = marks;
}

Keeps-set_topics :
    (fd : ℕ) (topics : Topics)
    → Keeps (set_clients (modify_fd fd λ c. record c { subscribed_topics = topics }))
unfolding set_clients
Keeps-set_topics fd topics = record {
  at = λ s v. record {
    polled = λ n. v.polled n ∙ sym (held-keep n fd _ s.clients (λ d. refl));
    once = λ n.
        rw (held-keep n fd (λ c. record c { subscribed_topics = topics }) s.clients (λ d. refl))
          (v.once n);
    marks = Every-modify_fd Marked fd _ s.clients (λ d h. h) v.marks;
  };
}

Keeps-serve_request :
    (fd : ℕ) (command : Command) (topic : String) (o : Option Client)
    → Keeps (serve_request fd command topic o)
unfolding serve_request
Keeps-serve_request fd command topic none = Keeps-die
Keeps-serve_request fd command topic (some c) = search (keep_rules, Keeps-set_topics)

Keeps-here : {A : Type 0} (m : State → Handler A) → ((t : State) → Keeps (m t)) → Keeps (λ s. m s s)
Keeps-here m k = record { at = λ s v. (k s).at s v }

pub Keeps-manage_subscribe_unsubscribe :
    (fd : ℕ) (req : Request) → Keeps (manage_subscribe_unsubscribe fd req)
unfolding manage_subscribe_unsubscribe
Keeps-manage_subscribe_unsubscribe fd req = Keeps-bind _ _ (Keeps-payload_text req.payload) λ topic.
    Keeps-here (λ s. serve_request fd req.command topic (get_client_from_fd fd s.clients).1)
      λ t. Keeps-serve_request fd req.command topic (get_client_from_fd fd t.clients).1

found_held :
    (fd : ℕ) (clients : List (String × Client)) {id : String} {c : Client}
    → get_client_from_fd fd clients ≡ (id, some c)
    → 1 ≤ count_held fd clients
unfolding get_client_from_fd count_held
found_held fd [] e = cc e
found_held fd ((j, d) ∷ rest) e = elim (Bool-cases (is_fd d.curr_fd fd)) [
  | inl here ↦ rw here (omega arith)
  | inr later ↦ let le = found_held fd rest (rw later at e) in omega arith
]

at_most : (a k n : ℕ) → a + k ≡ n → n ≤ 1 → k ≤ 1
at_most a k n e le = omega arith

pub Valid-remove :
    (s : State) (fd : ℕ) → 1 ≤ count_held fd s.clients → Valid s → Valid (remove_connection fd s).1
unfolding remove_connection is_fd has_fd
Valid-remove s fd h v =
    let gone = λ (n : ℕ).
      held-remove n fd (λ c. record c { is_connected = false; curr_fd = negsuc 0 }) s.clients h
        (λ d. no_fd n) in
    record {
      polled =
          λ n. omega (arith, gone n, count-erase n fd s.poll_fds (rw (v.polled fd) h), v.polled n);
      once = λ n. at_most _ _ _ (gone n) (v.once n);
      marks = Every-modify_fd Marked fd _ s.clients (λ d m. has_none) v.marks;
    }
  where
    no_fd : (n : ℕ) → is_fd (negsuc 0) n ≡ false
    no_fd n = refl

    has_none : false ≡ has_fd (negsuc 0)
    has_none = refl

Keeps-closed :
    (fd : ℕ) (s : State) (entry : String × Option Client)
    → get_client_from_fd fd s.clients ≡ entry
    → Valid s
    → Valid (manage_closed fd entry s).1
unfolding manage_closed ◌>>=◌ emit remove_connection
Keeps-closed fd s (id, none) e v = (Keeps-die {A = ⊤}).at s v
Keeps-closed fd s (id, some c) e v =
    again refl refl (Valid-remove s fd (found_held fd s.clients e) v)

pub Keeps-manage_client : (fd : ℕ) (r : Received) → Keeps (manage_client fd r)
unfolding manage_client
Keeps-manage_client fd Received.failed = Keeps-die
Keeps-manage_client fd (Received.closed payload) = record {
  at = λ s v. Keeps-closed fd s (get_client_from_fd fd s.clients) refl v;
}
Keeps-manage_client fd (Received.message msg) = Keeps-manage_subscribe_unsubscribe fd msg

Keeps-send_message : (z : ℤ) (m : String) → Keeps (send_message z m)
unfolding send_message
Keeps-send_message (pos fd) m = Keeps-send_efficient fd _ m
Keeps-send_message (negsuc n) m = Keeps-die

Keeps-send_each :
    (topic m : String) (clients : List (String × Client)) → Keeps (send_each topic m clients)
unfolding send_each
Keeps-send_each topic m [] = Keeps-pure tt
Keeps-send_each topic m ((id, c) ∷ rest) =
    let ih = Keeps-send_each topic m rest in
    Keeps-if _ _ _ ih
      (Keeps-if (wants topic c) _ _ (Keeps-bind _ _ (Keeps-send_message c.curr_fd m) (λ _. ih)) ih)

pub Keeps-send_msg_if_subscribed : (topic m : String) → Keeps (send_msg_if_subscribed topic m)
unfolding send_msg_if_subscribed
Keeps-send_msg_if_subscribed topic m =
    Keeps-here (λ s. send_each topic m s.clients) λ t. Keeps-send_each topic m t.clients
