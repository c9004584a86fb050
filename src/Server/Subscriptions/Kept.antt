-- ===== src/Server/Subscriptions/Kept.antt =====
-- Connections and disconnections keep the topics of the clients.
use Prim.Native.String.{◌++◌}
use text.Mathlib.Text.{◌==◌ as str_eq}
use server_client_app.Base.{
  ℕ, String, ◌≡◌, refl, ap, ◌∙◌, Bool, true, false, Option, none, some, List, [], ◌∷◌,
  if◌then◌else◌, inl, inr, Bool-cases,
}
use server_client_app.Server.Topic.{Topics}
use server_client_app.Server.Clients.{
  Command, Client, Effect, close_effect, print_effect, State, Handler, pure, die, onward, ◌>>=◌,
  ◌>>◌, emit, send_efficient, is_fd, find_client, modify_client, modify_fd, insert_client,
}
use server_client_app.Server.Handlers.{
  Received, new_client, reconnect, send_connection_response, add_connection, accept_client, admit,
  payload_text, manage_connection_request, remove_connection, manage_closed,
}

-- The topics of the client with an id; a client that has not connected yet has none.
topics_of_found : Option Client → Topics
topics_of_found none = []
topics_of_found (some c) = c.subscribed_topics

pub topics_of : String → List (String × Client) → Topics
unfolding topics_of_found
topics_of id clients = topics_of_found (find_client id clients)

topics-insert :
    (id other : String) (fd : ℕ) (clients : List (String × Client))
    → find_client id clients ≡ none
    → topics_of other (insert_client id (new_client fd) clients) ≡ topics_of other clients
unfolding topics_of find_client insert_client
topics-insert id other fd [] e = elim (Bool-cases (str_eq id other)) [
  | inl h ↦ rw h refl
  | inr h ↦ rw h refl
]
topics-insert id other fd ((j, d) ∷ rest) e = elim (Bool-cases (str_eq j other)) [
  | inl here ↦ rw here refl
  | inr later ↦
      rw later (topics-insert id other fd rest (absent (str_eq j id) d (find_client id rest) e))
]
  where
    absent :
        (b : Bool) (c : Client) (o : Option Client) → (if b then some c else o) ≡ none → o ≡ none
    absent true c o h = cc h
    absent false c o h = h

topics-modify :
    (id other : String) (f : Client → Client) (clients : List (String × Client))
    → ((d : Client) → (f d).subscribed_topics ≡ d.subscribed_topics)
    → topics_of other (modify_client id f clients) ≡ topics_of other clients
unfolding topics_of find_client modify_client
topics-modify id other f [] g = refl
topics-modify id other f ((j, d) ∷ rest) g = elim (Bool-cases (str_eq j id)) [
  | inl this ↦ elim (Bool-cases (str_eq j other)) [
    | inl here ↦ rw this (rw here (g d))
    | inr later ↦ rw this (rw later refl)
  ]
  | inr that ↦ elim (Bool-cases (str_eq j other)) [
    | inl here ↦ rw that (rw here refl)
    | inr later ↦ rw that (rw later (topics-modify id other f rest g))
  ]
]

topics-modify_fd :
    (fd : ℕ) (other : String) (f : Client → Client) (clients : List (String × Client))
    → ((d : Client) → (f d).subscribed_topics ≡ d.subscribed_topics)
    → topics_of other (modify_fd fd f clients) ≡ topics_of other clients
unfolding topics_of find_client modify_fd
topics-modify_fd fd other f [] g = refl
topics-modify_fd fd other f ((j, d) ∷ rest) g = elim (Bool-cases (is_fd d.curr_fd fd)) [
  | inl this ↦ elim (Bool-cases (str_eq j other)) [
    | inl here ↦ rw this (rw here (g d))
    | inr later ↦ rw this (rw later refl)
  ]
  | inr that ↦ elim (Bool-cases (str_eq j other)) [
    | inl here ↦ rw that (rw here refl)
    | inr later ↦ rw that (rw later (topics-modify_fd fd other f rest g))
  ]
]

-- Runs that leave the clients.
record Leaves {A : Type 0} (m : Handler A) : Type 0 where
  at : (s : State) → (m s).1.clients ≡ s.clients

Leaves-onward :
    {A B : Type 0} (r : Option A) (f : A → Handler B)
    → ((a : A) → Leaves (f a))
    → Leaves (onward r f)
Leaves-onward (some a) f q = q a
Leaves-onward none f q = record { at = λ s. refl }

Leaves-bind :
    {A B : Type 0} (m : Handler A) (f : A → Handler B)
    → Leaves m
    → ((a : A) → Leaves (f a))
    → Leaves (m >>= f)
unfolding ◌>>=◌
Leaves-bind m f p q = record { at = λ s. (Leaves-onward (m s).0 f q).at (m s).1 ∙ p.at s }

Leaves-emit : (e : Effect) → Leaves (emit e)
unfolding emit
Leaves-emit e = record { at = λ s. refl }

Leaves-send :
    (fd : ℕ) (command : Command) (payload : String) → Leaves (send_efficient fd command payload)
unfolding send_efficient
Leaves-send fd command payload = record { at = λ s. refl }

ruleset leave_rules = (Leaves-bind, Leaves-emit, Leaves-send)

greet-Leaves :
    (fd : ℕ) (line : String) → Leaves (send_connection_response true fd >> emit (print_effect line))
unfolding send_connection_response
greet-Leaves fd line = search leave_rules

deny-Leaves :
    (fd : ℕ) (line : String)
    → Leaves
        (send_connection_response false fd >> (emit (close_effect fd) >> emit (print_effect line)))
unfolding send_connection_response
deny-Leaves fd line = search leave_rules

accept-topics_of :
    (f : List (String × Client) → List (String × Client)) (fd : ℕ) (line other : String) (s : State)
    → topics_of other (f s.clients) ≡ topics_of other s.clients
    → topics_of other (accept_client f fd line s).1.clients ≡ topics_of other s.clients
unfolding accept_client add_connection ◌>>=◌
accept-topics_of f fd line other s e =
    ap (topics_of other) ((greet-Leaves fd line).at (add_connection f fd s).1) ∙ e

admit-topics_of :
    (id address : String) (fd : ℕ) (other : String) (s : State) (o : Option Client)
    → find_client id s.clients ≡ o
    → topics_of other (admit id address fd o s).1.clients ≡ topics_of other s.clients
unfolding admit
admit-topics_of id address fd other s none e =
    accept-topics_of (insert_client id (new_client fd)) fd _ other s
      (topics-insert id other fd s.clients e)
admit-topics_of id address fd other s (some c) e = elim (Bool-cases c.is_connected) [
  | inl on ↦
      rw on
        (ap (topics_of other) ((deny-Leaves fd ("Client " ++ id ++ " already connected.\n")).at s))
  | inr off ↦ rw off (
      accept-topics_of (modify_client id (reconnect fd)) fd _ other s
        (topics-modify id other (reconnect fd) s.clients (λ d. refl)))
]

payload-topics_of :
    (address : String) (fd : ℕ) (other : String) (s : State) (o : Option String)
    → topics_of other
        ((payload_text o >>= λ id t. admit id address fd (find_client id t.clients) t) s).1.clients
      ≡ topics_of other s.clients
unfolding payload_text ◌>>=◌ pure die
payload-topics_of address fd other s none = refl
payload-topics_of address fd other s (some id) = admit-topics_of id address fd other s _ refl

-- Whether a connection is accepted, refused or ends the process, every client has the topics
-- that it had; so a client that comes back has those that it left with.
pub manage_connection_request-topics_of :
    (fd : ℕ) (address : String) (received : Received) (other : String) (s : State)
    → topics_of other (manage_connection_request fd address received s).1.clients
      ≡ topics_of other s.clients
unfolding manage_connection_request die
manage_connection_request-topics_of fd address Received.failed other s = refl
manage_connection_request-topics_of fd address (Received.closed payload) other s =
    payload-topics_of address fd other s payload
manage_connection_request-topics_of fd address (Received.message msg) other s =
    payload-topics_of address fd other s msg.payload

-- The client that disconnects keeps its topics, and so does every other one.
pub manage_closed-topics_of :
    (fd : ℕ) (entry : String × Option Client) (other : String) (s : State)
    → topics_of other (manage_closed fd entry s).1.clients ≡ topics_of other s.clients
unfolding manage_closed remove_connection emit ◌>>=◌ die
manage_closed-topics_of fd (id, none) other s = refl
manage_closed-topics_of fd (id, some c) other s = topics-modify_fd fd other _ s.clients (λ d. refl)
