-- ===== src/Subscriber/Reading.antt =====
-- What the subscriber prints of what the server sends.
use Prim.Native.String.{◌++◌}
use server_client_app.Base.{String, ◌≡◌, refl, Bool, true, false, Option, none, some, List, [], ◌∷◌}
use server_client_app.Server.Clients.{Command}
use server_client_app.Server.Subscriptions.{reply}
use server_client_app.Subscriber.{
  Incoming, closed, message, Effect, request, printed, value, pure, ◌>>=◌, emit, next,
  recv_efficient, answer_line, command_for,
}
use server_client_app.Subscriber.Requests.{IsTopic, line_for, stdin-topic, asks, outcome}
use server_client_app.Subscriber.{
  complained, serve_incoming, print_payload, manage_tcp_data, Round, serve_stdin, run_round, run,
}

abbrev pub arrival : Round
arrival = record { stdin = none; readable = true }

abbrev pub typing : String → Round
typing line = record { stdin = some line; readable = false }

-- Forwarded messages, and then what comes behind them.
unfoldable pub forwarded : List String → List Incoming → List Incoming
forwarded [] rest = rest
forwarded (t ∷ texts) rest = message Command.msg_from_udp (some t) ∷ forwarded texts rest

-- A round for each of them, and one more.
unfoldable pub rounds_for : List String → List Round
rounds_for [] = arrival ∷ []
rounds_for (t ∷ texts) = arrival ∷ rounds_for texts

-- Each text on a line, the newest first.
unfoldable pub lines_of : List String → List Effect → List Effect
lines_of [] trace = trace
lines_of (t ∷ texts) trace = lines_of texts (printed (t ++ "\n") ∷ trace)

-- When only the socket can be read, and forwarded messages arrive and then the end of the
-- connection, the loop of the subscriber prints each text on a line, in their order, and ends.
pub run-forwarded :
    (texts : List String) (last : Command) (inbox : List Incoming) (trace : List Effect)
    (sends : List Effect → Bool)
    → run
        (rounds_for texts)
        (record { inbox = forwarded texts (closed last ∷ inbox); trace = trace; sends = sends })
      ≡ (value true, record { inbox = inbox; trace = lines_of texts trace; sends = sends })
unfolding run run_round serve_stdin manage_tcp_data recv_efficient next serve_incoming print_payload
    emit forwarded rounds_for lines_of pure ◌>>=◌
run-forwarded [] last inbox trace sends = refl
run-forwarded (t ∷ texts) last inbox trace sends =
    run-forwarded texts last inbox (printed (t ++ "\n") ∷ trace) sends

late :
    (b has : Bool) (topic : String) (payload : Option String) (inbox : List Incoming)
    (trace : List Effect) (sends : List Effect → Bool)
    → run (arrival ∷ []) (record {
      inbox = message (reply b has) payload ∷ inbox;
      trace = printed (answer_line b Command.msg_from_udp topic) ∷ trace;
      sends = sends;
    })
      ≡ (
        value false,
        record {
          inbox = inbox;
          trace =
              complained "Big error: message is not coming from UDP\n"
              ∷ printed (outcome b b topic)
              ∷ trace;
          sends = sends;
        },
      )
unfolding run run_round serve_stdin manage_tcp_data recv_efficient next serve_incoming emit
    answer_line pure ◌>>=◌
late true true topic payload inbox trace sends = refl
late true false topic payload inbox trace sends = refl
late false true topic payload inbox trace sends = refl
late false false topic payload inbox trace sends = refl

-- When a forwarded message comes before the answer to a request, whatever the answer is, the
-- subscriber reports the request as failed, does not print the text, and then complains about
-- the answer. Every send succeeds and the topic is one that can be typed.
pub run-overtaken :
    (b has : Bool) (topic text : String) (payload : Option String) (inbox : List Incoming)
    (trace : List Effect) (sends : List Effect → Bool)
    → IsTopic topic
    → ((es : List Effect) → sends es ≡ true)
    → run (typing (line_for b topic) ∷ arrival ∷ []) (record {
      inbox = message Command.msg_from_udp (some text) ∷ message (reply b has) payload ∷ inbox;
      trace = trace;
      sends = sends;
    })
      ≡ (
        value false,
        record {
          inbox = inbox;
          trace =
              complained "Big error: message is not coming from UDP\n"
              ∷ printed (outcome b b topic)
              ∷ request (command_for b) topic
              ∷ trace;
          sends = sends;
        },
      )
unfolding run run_round serve_stdin manage_tcp_data recv_efficient next serve_incoming emit
    answer_line pure ◌>>=◌
run-overtaken b has topic text payload inbox trace sends t w = rw (stdin-topic b topic t) (
    rw
      (asks b topic Command.msg_from_udp (some text) (message (reply b has) payload ∷ inbox) trace
        sends w)
      (late b has topic payload inbox (request (command_for b) topic ∷ trace) sends))
