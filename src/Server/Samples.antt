-- ===== src/Server/Samples.antt =====
-- Topics of the server on small inputs.
use server_client_app.Base.Int.{pos, negsuc}
use server_client_app.Server.Delivery.{sent_to, send_msg_if_subscribed-sent}
use server_client_app.Server.Subscriptions.{Distinct, reply, answer-has_topic}
use server_client_app.Server.Subscriptions.Kept.{
  topics_of, manage_connection_request-topics_of, manage_closed-topics_of,
}
use server_client_app.Server.Clients.{
  ◌>>=◌, find_client, send_efficient, emit, Client, get_client_from_fd, Command, State, is_fd,
}
use server_client_app.Server.Clients.Counts.{bit, count_fd, count_held}
use server_client_app.Server.Handlers.{
  Received, wants, answer, has_topic, manage_connection_request, manage_closed,
  send_msg_if_subscribed,
}
use server_client_app.Server.Run.{Datagram, Round, run_round, run}
use server_client_app.Server.Valid.{Valid, has_fd}
use server_client_app.Server.Valid.Run.{run_round-Valid, FreshRounds, start, run-Valid}
use server_client_app.Server.Valid.Steady.{Returns}
use server_client_app.Server.Valid.Clients.{Readable}
use server_client_app.Server.Valid.Alive.{run_round-Returns}
use server_client_app.Base.Text.{str}
use server_client_app.Server.Main.{System, server_main}
use server_client_app.Server.Main.Exit.{IsReady, closed_of, server_main-closed_of}
use server_client_app.Base.{
  ◌%◌, arith, ◌+◌, ◌≢◌, ℕ, none, some, ◌==◌, if◌then◌else◌, Bool-cases, inl, inr, String, ◌≡◌, ◌↔◌,
  ◌≤◌, refl, true, false, List, [], ◌∷◌,
}
use server_client_app.Server.Topic.{tokenize_topic, compare_token_vectors}
use server_client_app.Server.Topic.Tokens.{IsLevel, Levels, join_levels, tokenize-join}
use server_client_app.Server.Topic.Loop.{greedy, compare-greedy}
use server_client_app.Server.Topic.Meaning.{Matches, level, take, leave, done, compare-Matches}
use server_client_app.Server.Topic.Exact.{StarLast, compare_exact}

abbrev sample_levels : List String
sample_levels = "upb" ∷ "" ∷ "100" ∷ []

sample-Levels : Levels sample_levels
unfolding IsLevel Levels
sample-Levels = ((refl, (refl, (refl, tt))), (tt, ((refl, (refl, (refl, tt))), λ p. cc p)))

tokenize-join_example : tokenize_topic "upb//100" ≡ sample_levels
unfolding join_levels
tokenize-join_example = tokenize-join sample_levels sample-Levels

abbrev pattern : List String
pattern = "*" ∷ "100" ∷ "+" ∷ []

abbrev topic : List String
topic = "upb" ∷ "ec" ∷ "100" ∷ "humidity" ∷ []

accepted : compare_token_vectors pattern topic ≡ true
unfolding compare_token_vectors
accepted = refl

compare-Matches_example : Matches pattern topic
compare-Matches_example = compare-Matches pattern topic accepted

compare-greedy_sample : compare_token_vectors pattern topic ≡ greedy pattern topic
compare-greedy_sample = compare-greedy pattern topic

compare_exact_example :
    (compare_token_vectors ("upb" ∷ "*" ∷ []) topic ≡ true)
    ↔ (Matches ("upb" ∷ "*" ∷ []) topic × (2 ≤ 4))
unfolding StarLast
compare_exact_example = compare_exact ("upb" ∷ "*" ∷ []) topic (refl, tt)

-- The levels behind a "*" are sought once: the first "100" is taken, and what follows it does not
-- fit, while the second one would.
no_second_try :
    Matches ("*" ∷ "100" ∷ []) ("100" ∷ "ec" ∷ "100" ∷ [])
    × (compare_token_vectors ("*" ∷ "100" ∷ []) ("100" ∷ "ec" ∷ "100" ∷ []) ≡ false)
unfolding compare_token_vectors
no_second_try = (take refl (take refl (leave refl (level done))), refl)

abbrev subscriber : Client
subscriber = record {
  curr_fd = pos 5;
  is_connected = true;
  subscribed_topics = ("upb/*", "upb" ∷ "*" ∷ []) ∷ [];
}

-- Two clients, the first subscribed to a pattern and the second away.
abbrev state : State
state = record {
  clients =
      ("C1", subscriber)
      ∷ ("C2", record { curr_fd = negsuc 0; is_connected = false; subscribed_topics = [] })
      ∷ [];
  poll_fds = 5 ∷ [];
  trace = [];
  sends = λ es. true;
}

state-Valid : Valid state
unfolding count_fd count_held is_fd has_fd
state-Valid = record { polled = λ n. refl; once = λ n. ground arith; marks = (refl, (refl, tt)) }

-- A message for the topic, the return of the second client, and the exit of the first one.
abbrev round : Round
round = record {
  stdin = none;
  udp = some (Datagram.valid "upb/ec" "10.0.0.1:4000 - upb/ec - INT - 5");
  connection = some (
    6,
    "127.0.0.1:4001",
    Received.message (record { command = Command.connect_req; payload = some "C2" }),
  );
  ready = λ fd. if fd == 5 then some (Received.closed none) else none;
}

run_round-Valid_example : Valid (run_round round state).1
unfolding count_fd
run_round-Valid_example = run_round-Valid round state refl state-Valid

readable : (fd : ℕ) → Readable (round.ready fd)
readable fd = elim (Bool-cases (fd == 5)) [ inl e ↦ rw e tt | inr e ↦ rw e tt ]

run_round-Returns_example : Returns (run_round round state).0
unfolding count_fd
run_round-Returns_example =
    run_round-Returns round state (record { arrives = tt; introduced = tt; readable = readable })
      refl state-Valid λ es. refl

send_msg_if_subscribed-sent_example :
    sent_to 5 (send_msg_if_subscribed "upb/ec" "line" state).1.trace
    ≡ bit (wants "upb/ec" subscriber) + 0
unfolding get_client_from_fd is_fd sent_to
send_msg_if_subscribed-sent_example =
    send_msg_if_subscribed-sent "upb/ec" "line" state 5 state-Valid (λ es. refl) refl

answer-has_topic_example :
    let (sent, after) = answer Command.unsubscribe_req "upb/*" subscriber.subscribed_topics in
    (sent ≡ reply false (has_topic "upb/*" subscriber.subscribed_topics))
    × (has_topic "upb/*" after ≡ false)
    × ((other : String)
        → other ≢ "upb/*"
        → has_topic other after ≡ has_topic other subscriber.subscribed_topics)
    × Distinct after
unfolding Distinct has_topic
answer-has_topic_example =
    answer-has_topic Command.unsubscribe_req "upb/*" subscriber.subscribed_topics (refl, tt)

manage_connection_request-topics_of_example :
    topics_of "C1"
      (manage_connection_request 6 "127.0.0.1:4001"
        (Received.message (record { command = Command.connect_req; payload = some "C2" }))
        state).1.clients
    ≡ topics_of "C1" state.clients
manage_connection_request-topics_of_example =
    manage_connection_request-topics_of 6 "127.0.0.1:4001"
      (Received.message (record { command = Command.connect_req; payload = some "C2" })) "C1" state

manage_closed-topics_of_example :
    topics_of "C1" (manage_closed 5 ("C1", some subscriber) state).1.clients
    ≡ topics_of "C1" state.clients
manage_closed-topics_of_example = manage_closed-topics_of 5 ("C1", some subscriber) "C1" state

-- The second client connects to a server that has none.
abbrev first_round : Round
first_round = record round { udp = none; ready = λ fd. none }

run-Valid_example : Valid (run (first_round ∷ []) (start (λ es. true))).1
unfolding FreshRounds count_fd
run-Valid_example = run-Valid (λ es. true) (first_round ∷ []) (refl, tt)

-- Then "exit" is typed.
abbrev rounds_to_exit : List Round
rounds_to_exit = first_round ∷ record first_round { stdin = some "exit"; connection = none } ∷ []

abbrev system : System
system = record {
  udp_socket = some 3;
  tcp_socket = some 4;
  setsockopt = λ fd option. true;
  bind = λ fd port. port == 8080;
  listen = λ fd. true;
}

system-IsReady : IsReady system 3 4 (8080 % 65536)
system-IsReady = record {
  udp = refl;
  tcp = refl;
  udp_option = refl;
  tcp_option = refl;
  nodelay = refl;
  udp_bind = refl;
  tcp_bind = refl;
  listens = refl;
}

exits : (run rounds_to_exit (start (λ es. true))).0 ≡ some true
unfolding run ◌>>=◌ manage_connection_request find_client send_efficient emit
exits = refl

server_main-closed_of_example :
    let loop = (run rounds_to_exit (start (λ es. true))).1 in
    let after = server_main system "./server" (str 8080 ∷ []) rounds_to_exit (start (λ es. true)) in
    (after.0 ≡ some (some (pos 0)))
    × (closed_of 6 after.1.trace
        ≡ bit (3 == 6) + (bit (4 == 6) + count_held 6 loop.clients) + closed_of 6 loop.trace)
unfolding FreshRounds count_fd
server_main-closed_of_example =
    server_main-closed_of system "./server" 3 4 8080 6 rounds_to_exit (λ es. true) (ground arith)
      system-IsReady (refl, (tt, tt)) exits

usage_sample : (server_main system "./server" [] [] (start (λ es. true))).0 ≡ some (some (negsuc 0))
unfolding server_main
usage_sample = refl
