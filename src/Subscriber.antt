-- ===== src/Subscriber.antt =====
-- Subscriber.cpp and subscriber_main.cpp: the TCP client.
--
-- What recv_efficient gives, call by call, is a list, and whether a send succeeds is an argument.
-- A run that reads beyond the list waits for the server. DIE and a null pointer that is printed
-- are the result `died`.
pub mod Input
pub mod Requests
pub mod Sent
pub mod Reading
pub mod Delivered
pub mod Main
pub mod Samples
use Prim.Native.String.{◌++◌}
use text.Mathlib.Text.{◌==◌ as str_eq}
use server_client_app.Base.{
  ℕ, String, Bool, true, false, Option, none, some, List, [], ◌∷◌, leb, if◌then◌else◌, ⊤,
}
use server_client_app.Server.Clients.{Command}
use Input.{c_str, strtok, strlen}

-- What recv_efficient returned: -1, 0 with the command that the message has, or more.
pub data Incoming : Type 0 where
  failed : Incoming
  closed : Command → Incoming
  message : Command → Option String → Incoming

pub data Effect : Type 0 where
  -- send_efficient(tcp_sockfd, message)
  request : Command → String → Effect
  printed : String → Effect
  -- to the standard error
  complained : String → Effect

pub record State : Type 0 where
  pub inbox : List Incoming
  -- the newest first
  pub trace : List Effect
  pub sends : List Effect → Bool

-- A value, the end of the process by an error, or a wait for the server that does not end.
pub data Answer (A : Type 0) : Type 0 where
  value : A → Answer A
  died waiting : Answer A

abbrev pub Handler : Type 0 → Type 0
Handler A = State → Answer A × State

abbrev pub onward : {A B : Type 0} → Answer A → (A → Handler B) → Handler B
onward (value a) f s = f a s
onward died f s = (died, s)
onward waiting f s = (waiting, s)

module _ {A : Type 0} where
  unfoldable pub pure : A → Handler A
  pure a s = (value a, s)

  unfoldable pub die : Handler A
  die s = (died, s)

infixl 5 ◌>>=◌ ◌>>◌
unfoldable pub ◌>>=◌ : {A B : Type 0} → Handler A → (A → Handler B) → Handler B
unfolding pure die
◌>>=◌ m f s = let (r, s') = m s in onward r f s'

abbrev pub ◌>>◌ : {A B : Type 0} → Handler A → Handler B → Handler B
m >> n = m >>= λ _. n

unfoldable pub emit : Effect → Handler ⊤
emit e s = (value tt, record s { trace = e ∷ s.trace })

-- send_efficient, under its DIE
unfoldable pub send_efficient : Command → String → Handler ⊤
send_efficient command payload s =
    let trace = request command payload ∷ s.trace in
    (if s.sends trace then value tt else died, record s { trace = trace })

unfoldable pub next : List Incoming → State → Answer Incoming × State
next [] s = (waiting, s)
next (m ∷ inbox) s = (value m, record s { inbox = inbox })

unfoldable pub recv_efficient : Handler Incoming
unfolding next
recv_efficient s = next s.inbox s

-- The command of a message that came, also when the connection closed; DIE on an error.
unfoldable pub command_of : Incoming → Handler Command
command_of Incoming.failed = die
command_of (Incoming.closed command) = pure command
command_of (Incoming.message command payload) = pure command

abbrev pub is_accepted : Command → Bool
is_accepted Command.connect_accepted = true
is_accepted _ = false

unfoldable pub check_connection_validity : String → Handler Bool
unfolding send_efficient recv_efficient command_of emit ◌>>=◌
check_connection_validity id = do
  send_efficient Command.connect_req id
  msg ← recv_efficient
  command ← command_of msg
  if is_accepted command then pure true else emit (printed "Connection denied\n") >> pure false

abbrev pub is_subscribe_succ : Command → Bool
is_subscribe_succ Command.subscribe_succ = true
is_subscribe_succ _ = false

abbrev pub is_unsubscribe_succ : Command → Bool
is_unsubscribe_succ Command.unsubscribe_succ = true
is_unsubscribe_succ _ = false

-- What is printed for the answer to SUBSCRIBE_REQ (true) or UNSUBSCRIBE_REQ.
unfoldable pub answer_line : Bool → Command → String → String
answer_line true command topic =
    if is_subscribe_succ command
    then "Subscribed to topic " ++ topic ++ "\n"
    else "Already subscribed to topic " ++ topic ++ "\n"
answer_line false command topic =
    if is_unsubscribe_succ command
    then "Unsubscribed from topic " ++ topic ++ "\n"
    else "Not subscribed to topic " ++ topic ++ ", cannot unsubscribe\n"

abbrev pub command_for : Bool → Command
command_for true = Command.subscribe_req
command_for false = Command.unsubscribe_req

unfoldable pub subscribe_unsubscribe_topic : Bool → String → Handler ⊤
unfolding send_efficient recv_efficient command_of emit answer_line ◌>>=◌
subscribe_unsubscribe_topic subscribes topic = do
  send_efficient (command_for subscribes) topic
  msg ← recv_efficient
  command ← command_of msg
  emit (printed (answer_line subscribes command topic))

abbrev accepted_commands : String
accepted_commands = "Accepted commands: <exit> <subscribe> <unsubscribe>\n"

abbrev invalid_topic : String
invalid_topic = "Invalid topic. Topic must have at most 50 characters.\n"

-- The topic is the next token of the line, if it has one of at most 50 bytes.
unfoldable pub manage_topic : Bool → Option (String × String) → Handler Bool
unfolding subscribe_unsubscribe_topic emit ◌>>=◌
manage_topic subscribes none = emit (printed invalid_topic) >> pure false
manage_topic subscribes (some (topic, rest)) =
    if leb (strlen topic) 50
    then subscribe_unsubscribe_topic subscribes topic >> pure false
    else emit (printed invalid_topic) >> pure false

unfoldable pub manage_command : Option (String × String) → Handler Bool
unfolding manage_topic
manage_command none = emit (printed accepted_commands) >> pure false
manage_command (some (command, rest)) =
    if str_eq command "subscribe"
    then manage_topic true (strtok "\n " rest)
    else if str_eq command "unsubscribe"
    then manage_topic false (strtok "\n " rest)
    else emit (printed accepted_commands) >> pure false

-- One line of the standard input.
unfoldable pub manage_stdin_data : String → Handler Bool
unfolding manage_command
manage_stdin_data stdin_data =
    if str_eq stdin_data "exit" then pure true else manage_command (strtok " " (c_str stdin_data))

abbrev pub is_msg_from_udp : Command → Bool
is_msg_from_udp Command.msg_from_udp = true
is_msg_from_udp _ = false

-- cout << payload << "\n"
unfoldable pub print_payload : Option String → Handler Bool
unfolding emit ◌>>=◌
print_payload none = die
print_payload (some text) = emit (printed (text ++ "\n")) >> pure false

unfoldable pub serve_incoming : Incoming → Handler Bool
unfolding print_payload
serve_incoming Incoming.failed = die
serve_incoming (Incoming.closed command) = pure true
serve_incoming (Incoming.message command payload) =
    if is_msg_from_udp command
    then print_payload payload
    else emit (complained "Big error: message is not coming from UDP\n") >> pure false

unfoldable pub manage_tcp_data : Handler Bool
unfolding recv_efficient serve_incoming ◌>>=◌
manage_tcp_data = recv_efficient >>= serve_incoming

-- What poll() reports: a line of the standard input, and whether the socket can be read.
pub record Round : Type 0 where
  pub stdin : Option String
  pub readable : Bool

unfoldable pub serve_stdin : Option String → Handler Bool
unfolding manage_stdin_data
serve_stdin none = pure false
serve_stdin (some line) = manage_stdin_data line

-- A round of the loop; true where it ends.
unfoldable pub run_round : Round → Handler Bool
unfolding serve_stdin manage_tcp_data ◌>>=◌
run_round round = do
  leaves ← serve_stdin round.stdin
  if leaves then pure true else if round.readable then manage_tcp_data else pure false

-- The loop, over the rounds that are watched.
unfoldable pub run : List Round → Handler Bool
unfolding run_round ◌>>=◌
run [] = pure false
run (round ∷ rounds) = do leaves ← run_round round; if leaves then pure true else run rounds
