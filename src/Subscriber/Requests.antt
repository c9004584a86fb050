-- ===== src/Subscriber/Requests.antt =====
-- A request that is typed, from the line to the answer of the server.
use Prim.Native.String.{◌++◌}
use text.Mathlib.Text.{◌==◌ as str_eq}
use text.Mathlib.TextLemmas.{cons-append}
use server_client_app.Base.{
  ℕ, ◌≤◌, String, ◌≡◌, refl, ap, ◌∙◌, Bool, true, false, Option, some, List, [], ◌∷◌, le→leb,
}
use server_client_app.Base.Text.Heads.{is-ne, ne-head}
use server_client_app.Server.Clients.{Command, State as ServerState}
use mathlib.Core.Path.{subst}
use server_client_app.Server.Handlers.{is_subscribe}
use server_client_app.Server.Subscriptions.{reply}
use server_client_app.Server.Valid.Steady.{Sends}
use server_client_app.Server.Abstract.{Entry, view, update, set_topic, call}
use server_client_app.Server.Abstract.{request as asked}
use server_client_app.Server.Abstract.Refines.{IsGood, Reaches}
use server_client_app.Server.Abstract.Refines.Requests.{served-Reaches}
use server_client_app.Subscriber.{
  Incoming, message, Effect, request, printed, value, Handler, pure, ◌>>=◌, ◌>>◌, emit,
  send_efficient, next, recv_efficient, command_of, answer_line, command_for,
  subscribe_unsubscribe_topic, manage_topic, manage_command, manage_stdin_data,
}
use server_client_app.Subscriber.Input.{strlen}
use server_client_app.Subscriber.Input.Laws.{clean, IsNonempty, strtok-word, strtok-last}

-- A topic that can be typed: 1 to 50 bytes, with no null character, space or line break.
pub record IsTopic (topic : String) : Type 0 where
  pub nonempty : IsNonempty topic
  pub plain : clean topic ≡ true
  pub short : strlen topic ≤ 50

abbrev word_for : Bool → String
word_for true = "subscribe"
word_for false = "unsubscribe"

abbrev pub line_for : Bool → String → String
line_for subscribes topic = word_for subscribes ++ (" " ++ topic)

word-IsNonempty : (b : Bool) → IsNonempty (word_for b)
word-IsNonempty true = tt
word-IsNonempty false = tt

word_plain : (b : Bool) → clean (word_for b) ≡ true
unfolding clean
word_plain true = refl
word_plain false = refl

command-topic :
    (b : Bool) (topic : String)
    → IsTopic topic
    → manage_command (some (word_for b, topic)) ≡ manage_topic b (some (topic, ""))
unfolding manage_command
command-topic true topic h = ap (manage_topic true) (strtok-last topic h.nonempty h.plain)
command-topic false topic h = ap (manage_topic false) (strtok-last topic h.nonempty h.plain)

not_exit : (b : Bool) (topic : String) → str_eq (line_for b topic) "exit" ≡ false
not_exit true topic =
    rw (cons-append "s" "ubscribe" (" " ++ topic)) (is-ne _ "exit" (ne-head "s" "e" _ "xit" refl))
not_exit false topic =
    rw (cons-append "u" "nsubscribe" (" " ++ topic)) (is-ne _ "exit" (ne-head "u" "e" _ "xit" refl))

pub stdin-topic :
    (b : Bool) (topic : String)
    → IsTopic topic
    → manage_stdin_data (line_for b topic) ≡ (subscribe_unsubscribe_topic b topic >> pure false)
unfolding manage_stdin_data manage_topic
stdin-topic b topic h = rw (not_exit b topic) (
    ap manage_command (strtok-word (word_for b) topic (word-IsNonempty b) (word_plain b) h.plain)
    ∙ command-topic b topic h
    ∙ rw (le→leb (strlen topic) 50 h.short) refl)

pub asks :
    (b : Bool) (topic : String) (command : Command) (payload : Option String)
    (inbox : List Incoming) (trace : List Effect) (sends : List Effect → Bool)
    → ((es : List Effect) → sends es ≡ true)
    → (subscribe_unsubscribe_topic b topic >> pure false)
        (record { inbox = message command payload ∷ inbox; trace = trace; sends = sends })
      ≡ (
        value false,
        record {
          inbox = inbox;
          trace = printed (answer_line b command topic) ∷ request (command_for b) topic ∷ trace;
          sends = sends;
        },
      )
unfolding subscribe_unsubscribe_topic send_efficient recv_efficient next command_of emit pure ◌>>=◌
asks b topic command payload inbox trace sends w = rw (w _) refl

-- What is printed for a request on a topic that the client has (true) or lacks.
abbrev pub outcome : Bool → Bool → String → String
outcome true true topic = "Already subscribed to topic " ++ topic ++ "\n"
outcome true false topic = "Subscribed to topic " ++ topic ++ "\n"
outcome false true topic = "Unsubscribed from topic " ++ topic ++ "\n"
outcome false false topic = "Not subscribed to topic " ++ topic ++ ", cannot unsubscribe\n"

answer_line-reply :
    (b has : Bool) (topic : String) → answer_line b (reply b has) topic ≡ outcome b has topic
unfolding answer_line
answer_line-reply true true topic = refl
answer_line-reply true false topic = refl
answer_line-reply false true topic = refl
answer_line-reply false false topic = refl

subscribes : (b : Bool) → is_subscribe (command_for b) ≡ b
subscribes true = refl
subscribes false = refl

-- A line that asks to subscribe to a topic or to unsubscribe from it, with a topic of 1 to 50
-- bytes that has no null character, space or line break, is served end to end: the server, in a
-- good state in which the client is connected, adds the topic to the set of this client or
-- removes it, and changes nothing else that the map says; and when its answer is the next
-- message, the subscriber sends the one request and prints what became of it, by whether the
-- client had the topic before. Every send succeeds.
pub typed_request-Reaches :
    (b : Bool) (topic : String) (s : ServerState) (fd : ℕ) (id : String) (e : Entry)
    (payload : Option String) (inbox : List Incoming) (trace : List Effect)
    (sends : List Effect → Bool)
    → IsTopic topic
    → ((es : List Effect) → sends es ≡ true)
    → IsGood s
    → Sends s
    → view s.clients id ≡ some e
    → e.fd ≡ some fd
    → let sent = reply b (e.topics topic) in
      Reaches s
        (call (asked fd (command_for b) topic) s)
        (update id (record e { topics = set_topic topic b e.topics }) (view s.clients))
        ((fd, sent) ∷ [])
      × (manage_stdin_data
            (line_for b topic)
            (record { inbox = message sent payload ∷ inbox; trace = trace; sends = sends })
          ≡ (
            value false,
            record {
              inbox = inbox;
              trace =
                  printed (outcome b (e.topics topic) topic)
                  ∷ request (command_for b) topic
                  ∷ trace;
              sends = sends;
            },
          ))
typed_request-Reaches b topic s fd id e payload inbox trace sends t w g ok there on = (
  subst
      (λ (x : Bool).
        Reaches s (call (asked fd (command_for b) topic) s)
          (update id (record e { topics = set_topic topic x e.topics }) (view s.clients))
          ((fd, reply x (e.topics topic)) ∷ []))
      (subscribes b) (served-Reaches fd (command_for b) topic s id e g ok there on),
  ap
        (λ (m : Handler Bool). m (record {
          inbox = message (reply b (e.topics topic)) payload ∷ inbox;
          trace = trace;
          sends = sends;
        }))
        (stdin-topic b topic t)
      ∙ asks b topic (reply b (e.topics topic)) payload inbox trace sends w
      ∙ ap
          (λ (line : String). (
            value false,
            record {
              inbox = inbox;
              trace = printed line ∷ request (command_for b) topic ∷ trace;
              sends = sends;
            },
          ))
          (answer_line-reply b (e.topics topic) topic),
)
