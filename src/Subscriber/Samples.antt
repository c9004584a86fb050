-- ===== src/Subscriber/Samples.antt =====
-- The subscriber on small inputs.
use mathlib.Core.List.{◌++◌ as append}
use server_client_app.Base.{
  String, ◌==◌, ◌≡◌, refl, Bool, true, false, none, some, List, [], ◌∷◌, All, arith,
}
use server_client_app.Base.Int.{pos}
use server_client_app.Server.Clients.{Command, Client, is_fd, find_client, State as ServerState}
use server_client_app.Server.Clients.Counts.{count_fd, count_held}
use server_client_app.Server.Valid.{has_fd}
use server_client_app.Server.Handlers.{has_topic}
use server_client_app.Server.Subscriptions.{reply, Distinct}
use server_client_app.Server.Abstract.{Entry, view, update, set_topic, call, request as asked}
use server_client_app.Server.Abstract.Clients.{HasUniqueIds}
use server_client_app.Server.Abstract.Refines.{IsGood, Reaches}
use server_client_app.Server.Clients.{get_client_from_fd}
use server_client_app.Server.Handlers.{wants}
use server_client_app.Server.Clients.Counts.{bit}
use server_client_app.Server.Payload.Samples.{datagram, datagram_read}
use server_client_app.Server.Payload.{read_datagram}
use server_client_app.Server.Run.{manage_udp_message}
use server_client_app.Server.Valid.{Valid}
use server_client_app.Server.Delivery.Texts.{texts_to, copies}
use server_client_app.Subscriber.Delivered.{datagram-printed}
use server_client_app.Subscriber.{
  closed, message, Effect, request, printed, complained, State, value, run, manage_stdin_data,
  check_connection_validity,
}
use server_client_app.Base.Text.Scan.{scan_hu, to_hu}
use server_client_app.Subscriber.Main.{System, subscriber_main}
use server_client_app.Subscriber.Main.Sent.{IsAllowed, subscriber_main-IsAllowed}
use server_client_app.Subscriber.Input.{c_str, strtok}
use server_client_app.Subscriber.Input.Laws.{clean}
use server_client_app.Subscriber.Requests.{IsTopic, line_for, outcome, typed_request-Reaches}
use server_client_app.Subscriber.Sent.{IsSound, run-IsSound}
use server_client_app.Subscriber.Reading.{
  arrival, typing, forwarded, rounds_for, lines_of, run-forwarded, run-overtaken,
}

-- A server with one client, which has no topics.
abbrev server : ServerState
server = record {
  clients = ("C1", record { curr_fd = pos 5; is_connected = true; subscribed_topics = [] }) ∷ [];
  poll_fds = 5 ∷ [];
  trace = [];
  sends = λ es. true;
}

abbrev c1 : Entry
c1 = record { fd = some 5; topics = λ t. has_topic t [] }

server-IsGood : IsGood server
unfolding HasUniqueIds count_fd count_held is_fd has_fd find_client Distinct
server-IsGood = record {
  valid = record { polled = λ n. refl; once = λ n. ground arith; marks = (refl, tt) };
  ids = (refl, tt);
  topics = (tt, tt);
}

seen_c1 : view server.clients "C1" ≡ some c1
unfolding view find_client
seen_c1 = refl

abbrev sends : List Effect → Bool
sends es = true

upb-IsTopic : IsTopic "upb/ec"
unfolding clean
upb-IsTopic = record { nonempty = tt; plain = refl; short = omega arith }

denied_sample :
    check_connection_validity "C1"
      (record { inbox = message Command.connect_denied none ∷ []; trace = []; sends = sends })
    ≡ (
      value false,
      record {
        inbox = [];
        trace = printed "Connection denied\n" ∷ request Command.connect_req "C1" ∷ [];
        sends = sends;
      },
    )
unfolding check_connection_validity
denied_sample = refl

long_sample :
    manage_stdin_data "  subscribe   012345678901234567890123456789012345678901234567890 x"
      (record { inbox = []; trace = []; sends = sends })
    ≡ (
      value false,
      record {
        inbox = [];
        trace = printed "Invalid topic. Topic must have at most 50 characters.\n" ∷ [];
        sends = sends;
      },
    )
unfolding manage_stdin_data c_str strtok
long_sample = refl

typed_request-Reaches_example :
    Reaches server
      (call (asked 5 Command.subscribe_req "upb/ec") server)
      (update "C1" (record c1 { topics = set_topic "upb/ec" true c1.topics }) (view server.clients))
      ((5, reply true (c1.topics "upb/ec")) ∷ [])
    × (manage_stdin_data (line_for true "upb/ec") (record {
      inbox = message (reply true (c1.topics "upb/ec")) (some "") ∷ [];
      trace = [];
      sends = sends;
    })
        ≡ (
          value false,
          record {
            inbox = [];
            trace =
                printed (outcome true (c1.topics "upb/ec") "upb/ec")
                ∷ request Command.subscribe_req "upb/ec"
                ∷ [];
            sends = sends;
          },
        ))
typed_request-Reaches_example =
    typed_request-Reaches true "upb/ec" server 5 "C1" c1 (some "") [] [] sends upb-IsTopic
      (λ es. refl) server-IsGood (λ es. refl) seen_c1 refl

abbrev typed : State
typed = record { inbox = message Command.subscribe_succ none ∷ []; trace = []; sends = sends }

run-IsSound_sample : All IsSound (run (typing "subscribe  upb/ec now" ∷ arrival ∷ []) typed).1.trace
run-IsSound_sample = run-IsSound (typing "subscribe  upb/ec now" ∷ arrival ∷ []) typed tt

run-forwarded_sample :
    run (rounds_for ("a" ∷ "b" ∷ [])) (record {
      inbox = forwarded ("a" ∷ "b" ∷ []) (closed Command.connect_req ∷ []);
      trace = [];
      sends = sends;
    })
    ≡ (value true, record { inbox = []; trace = lines_of ("a" ∷ "b" ∷ []) []; sends = sends })
run-forwarded_sample = run-forwarded ("a" ∷ "b" ∷ []) Command.connect_req [] [] sends

run-overtaken_example :
    run (typing (line_for true "upb/ec") ∷ arrival ∷ []) (record {
      inbox = message Command.msg_from_udp (some "news") ∷ message Command.subscribe_succ none ∷ [];
      trace = [];
      sends = sends;
    })
    ≡ (
      value false,
      record {
        inbox = [];
        trace =
            complained "Big error: message is not coming from UDP\n"
            ∷ printed "Already subscribed to topic upb/ec\n"
            ∷ request Command.subscribe_req "upb/ec"
            ∷ [];
        sends = sends;
      },
    )
run-overtaken_example =
    run-overtaken true false "upb/ec" "news" none [] [] sends upb-IsTopic λ es. refl

-- A server whose client has the topic "upb".
abbrev c1_with_upb : Client
c1_with_upb = record {
  curr_fd = pos 5;
  is_connected = true;
  subscribed_topics = ("upb", "upb" ∷ []) ∷ [];
}

abbrev server_with_upb : ServerState
server_with_upb = record server { clients = ("C1", c1_with_upb) ∷ [] }

server_with_upb-Valid : Valid server_with_upb
unfolding count_fd count_held is_fd has_fd
server_with_upb-Valid = record { polled = λ n. refl; once = λ n. ground arith; marks = (refl, tt) }

found_c1 : get_client_from_fd 5 server_with_upb.clients ≡ ("C1", some c1_with_upb)
unfolding get_client_from_fd is_fd
found_c1 = refl

wanted : copies (bit (wants "upb" c1_with_upb)) "a" ≡ "a" ∷ []
unfolding wants has_topic copies
wanted = refl

datagram-printed_example :
    let texts = copies (bit (wants "upb" c1_with_upb)) "127.0.0.1:4000 - upb - INT - -17" in
    (texts_to 5
        (manage_udp_message
          (some (read_datagram "127.0.0.1" 4000 datagram))
          server_with_upb).1.trace
      ≡ append texts [])
    × (run (rounds_for texts) (record {
      inbox = forwarded texts (closed Command.connect_req ∷ []);
      trace = [];
      sends = sends;
    })
        ≡ (value true, record { inbox = []; trace = lines_of texts []; sends = sends }))
unfolding texts_to
datagram-printed_example =
    datagram-printed "127.0.0.1" 4000 datagram "upb" "127.0.0.1:4000 - upb - INT - -17"
      server_with_upb 5 "C1" c1_with_upb Command.connect_req [] [] sends datagram_read
      server_with_upb-Valid (λ es. refl) found_c1

abbrev system : System
system = record {
  socket = true;
  setsockopt = true;
  connect = λ ip port. port == 8080;
  inet_addr = λ text. 16777343;
}

-- The server accepts the client, which subscribes to a topic and leaves.
abbrev accepted : State
accepted = record {
  inbox = message Command.connect_accepted none ∷ message Command.subscribe_succ none ∷ [];
  trace = [];
  sends = sends;
}

abbrev arguments : List String
arguments = "C1" ∷ "127.0.0.1" ∷ "8080" ∷ []

main_sample :
    subscriber_main system "./subscriber" arguments
      (typing "subscribe upb/ec" ∷ typing "exit" ∷ [])
      accepted
    ≡ (
      value (some (pos 0)),
      record {
        inbox = [];
        trace =
            printed "Subscribed to topic upb/ec\n"
            ∷ request Command.subscribe_req "upb/ec"
            ∷ request Command.connect_req "C1"
            ∷ [];
        sends = sends;
      },
    )
unfolding subscriber_main run scan_hu to_hu strtok c_str
main_sample = refl

subscriber_main-IsAllowed_example :
    All IsAllowed
      (subscriber_main system "./subscriber" arguments
        (typing "subscribe upb/ec" ∷ typing "exit" ∷ [])
        accepted).1.trace
subscriber_main-IsAllowed_example =
    subscriber_main-IsAllowed system "./subscriber" arguments
      (typing "subscribe upb/ec" ∷ typing "exit" ∷ []) accepted tt
