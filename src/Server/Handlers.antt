-- ===== src/Server/Handlers.antt =====
-- Server.cpp: the handlers of connections, subscriptions, disconnections and messages.
use Prim.Native.String.{◌++◌}
use text.Mathlib.Text.{◌==◌ as str_eq}
use server_client_app.Base.{
  ℕ, String, Bool, true, false, not, ◌||◌, Option, none, some, List, [], ◌∷◌, if◌then◌else◌, ⊤,
}
use server_client_app.Base.Int.{ℤ, pos, negsuc}
use server_client_app.Server.Topic.{Topics, tokenize_topic, check_wildcard_topic}
use server_client_app.Server.Clients.{
  Command, Client, close_effect, print_effect, Handler, pure, die, ◌>>=◌, ◌>>◌, emit,
  send_efficient, find_client, modify_client, get_client_from_fd, modify_fd, push_fd, erase_fd,
  set_clients, insert_client,
}

-- A tcp_message as recv_efficient left it; a payload of length 0 is the null pointer.
pub record Request : Type 0 where
  pub command : Command
  pub payload : Option String

-- What recv_efficient returned: -1, 0, or more.
pub data Received : Type 0 where
  failed : Received
  -- the payload that was set when the connection closed: its bytes need not have come
  closed : Option String → Received
  message : Request → Received

-- string(payload), which ends the process on a null pointer
unfoldable pub payload_text : Option String → Handler String
payload_text none = die
payload_text (some t) = pure t

unfoldable pub send_connection_response : Bool → ℕ → Handler ⊤
send_connection_response response client_sockfd =
    send_efficient client_sockfd
      (if response then Command.connect_accepted else Command.connect_denied) ""

-- The client's part of a new connection: its entry, then its descriptor.
unfoldable pub add_connection : (List (String × Client) → List (String × Client)) → ℕ → Handler ⊤
add_connection f client_sockfd s =
    (some tt, record s { clients = f s.clients; poll_fds = push_fd client_sockfd s.poll_fds })

abbrev pub new_client : ℕ → Client
new_client client_sockfd = record {
  curr_fd = pos client_sockfd;
  is_connected = true;
  subscribed_topics = [];
}

abbrev pub reconnect : ℕ → Client → Client
reconnect client_sockfd c = record c { is_connected = true; curr_fd = pos client_sockfd }

unfoldable pub accept_client :
    (List (String × Client) → List (String × Client)) → ℕ → String → Handler ⊤
unfolding add_connection send_connection_response
accept_client f client_sockfd line = do
  add_connection f client_sockfd
  send_connection_response true client_sockfd
  emit (print_effect line)

unfoldable pub connect_line : String → String → String → String
connect_line client_id address end =
    "New client " ++ client_id ++ " connected from " ++ address ++ end

-- The entry that the id was found at, if there is one.
unfoldable pub admit : String → String → ℕ → Option Client → Handler ⊤
unfolding accept_client connect_line
admit client_id address client_sockfd none =
    accept_client (insert_client client_id (new_client client_sockfd)) client_sockfd
      (connect_line client_id address ".\n")
admit client_id address client_sockfd (some c) =
    if c.is_connected
    then (do
      send_connection_response false client_sockfd
      emit (close_effect client_sockfd)
      emit (print_effect ("Client " ++ client_id ++ " already connected.\n")))
    else accept_client (modify_client client_id (reconnect client_sockfd)) client_sockfd
        (connect_line client_id address "\n")

-- The id is what the payload is, whatever recv_efficient returned but -1.
abbrev pub identify : ℕ → String → Option String → Handler ⊤
identify client_sockfd address payload = payload_text payload >>= λ client_id s.
    admit client_id address client_sockfd (find_client client_id s.clients) s

-- The rest of manage_connection_request, after accept gave the descriptor and the peer's address, as
-- "ip:port", and recv_efficient filled the message.
unfoldable pub manage_connection_request : ℕ → String → Received → Handler ⊤
unfolding admit payload_text
manage_connection_request client_sockfd address Received.failed = die
manage_connection_request client_sockfd address (Received.closed payload) =
    identify client_sockfd address payload
manage_connection_request client_sockfd address (Received.message msg) =
    identify client_sockfd address msg.payload

-- subscribed_topics.find(topic) != end()
unfoldable pub has_topic : String → Topics → Bool
has_topic topic [] = false
has_topic topic ((t, tokens) ∷ rest) = if str_eq t topic then true else has_topic topic rest

-- subscribed_topics.erase(it)
unfoldable pub erase_topic : String → Topics → Topics
erase_topic topic [] = []
erase_topic topic ((t, tokens) ∷ rest) =
    if str_eq t topic then rest else (t, tokens) ∷ erase_topic topic rest

abbrev pub is_subscribe : Command → Bool
is_subscribe Command.subscribe_req = true
is_subscribe _ = false

-- The request of a client, on its topics: the answer, and the topics behind it. A command that is
-- not SUBSCRIBE_REQ is served as UNSUBSCRIBE_REQ.
unfoldable pub answer : Command → String → Topics → Command × Topics
unfolding has_topic erase_topic
answer command topic topics =
    if is_subscribe command
    then (if has_topic topic topics
        then (Command.subscribe_fail, topics)
        else (Command.subscribe_succ, (topic, tokenize_topic topic) ∷ topics))
    else (if has_topic topic topics
        then (Command.unsubscribe_succ, erase_topic topic topics)
        else (Command.unsubscribe_fail, topics))

unfoldable pub serve_request : ℕ → Command → String → Option Client → Handler ⊤
unfolding answer
serve_request client_fd command topic none = die
serve_request client_fd command topic (some c) =
    let (reply, topics) = answer command topic c.subscribed_topics in
    set_clients (modify_fd client_fd λ c. record c { subscribed_topics = topics })
    >> send_efficient client_fd reply ""

unfoldable pub manage_subscribe_unsubscribe : ℕ → Request → Handler ⊤
unfolding serve_request payload_text
manage_subscribe_unsubscribe client_fd req_msg = payload_text req_msg.payload >>= λ topic s.
    serve_request client_fd req_msg.command topic (get_client_from_fd client_fd s.clients).1 s

unfoldable pub remove_connection : ℕ → Handler ⊤
remove_connection fd s = (
  some tt,
  record s {
    clients = modify_fd fd (λ c. record c { is_connected = false; curr_fd = negsuc 0 }) s.clients;
    trace = close_effect fd ∷ s.trace;
    poll_fds = erase_fd fd s.poll_fds;
  },
)

-- The block of `run` for a connection that was closed.
unfoldable pub manage_closed : ℕ → String × Option Client → Handler ⊤
unfolding remove_connection
manage_closed fd (id, none) = die
manage_closed fd (id, some c) = do
  remove_connection fd
  emit (print_effect ("Client " ++ id ++ " disconnected.\n"))

unfoldable pub manage_client : ℕ → Received → Handler ⊤
unfolding manage_closed manage_subscribe_unsubscribe
manage_client fd Received.failed = die
manage_client fd (Received.closed payload) =
    λ s. manage_closed fd (get_client_from_fd fd s.clients) s
manage_client fd (Received.message msg) = manage_subscribe_unsubscribe fd msg

unfoldable pub wants : String → Client → Bool
unfolding has_topic
wants topic c =
    has_topic topic c.subscribed_topics || check_wildcard_topic topic c.subscribed_topics

-- send_efficient refuses a descriptor that is negative.
unfoldable pub send_message : ℤ → String → Handler ⊤
send_message (pos fd) formatted_msg = send_efficient fd Command.msg_from_udp formatted_msg
send_message (negsuc n) formatted_msg = die

unfoldable pub send_each : String → String → List (String × Client) → Handler ⊤
unfolding wants send_message
send_each topic formatted_msg [] = pure tt
send_each topic formatted_msg ((id, c) ∷ rest) =
    let after = send_each topic formatted_msg rest in
    if not c.is_connected
    then after
    else if wants topic c
    then send_message c.curr_fd formatted_msg >> after
    else after

unfoldable pub send_msg_if_subscribed : String → String → Handler ⊤
unfolding send_each
send_msg_if_subscribed topic formatted_msg s = send_each topic formatted_msg s.clients s
