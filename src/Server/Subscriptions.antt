-- ===== src/Server/Subscriptions.antt =====
-- Requests to subscribe and to unsubscribe, on the topics of a client.
pub mod Kept
use Prim.Native.String.{◌++◌}
use mathlib.Core.Bool.{false≢true}
use text.Mathlib.Text.{◌==◌ as str_eq}
use text.Mathlib.TextEquality.{eq_iff}
use text.Mathlib.TextPositions.{eq_refl}
use server_client_app.Base.{
  ℕ, String, ◌≡◌, ◌≢◌, refl, sym, ap, ◌∙◌, Bool, true, false, Option, none, some, List, [], ◌∷◌,
  if◌then◌else◌, arith, inl, inr, Bool-cases, All, ⊤,
}
use server_client_app.Base.Int.{ℤ, pos, negsuc}
use server_client_app.Server.Topic.{Topics, tokenize_topic}
use server_client_app.Server.Clients.{
  Command, Client, Effect, close_effect, print_effect, State, Handler, pure, die, onward, ◌>>=◌,
  ◌>>◌, emit, send_efficient, is_fd, find_client, modify_client, modify_fd, insert_client,
  get_client_from_fd,
}
use server_client_app.Server.Handlers.{
  Received, Request, has_topic, erase_topic, is_subscribe, answer, new_client, reconnect,
  send_connection_response, add_connection, accept_client, admit, payload_text,
  manage_connection_request, remove_connection, manage_closed, manage_client,
}

-- No topic twice, as in a std::map.
unfoldable pub Distinct : Topics → Type 0
Distinct [] = Unit
Distinct ((t, tokens) ∷ rest) = (has_topic t rest ≡ false) × Distinct rest

has-erase_self :
    (topic : String) (topics : Topics)
    → Distinct topics
    → has_topic topic (erase_topic topic topics) ≡ false
unfolding has_topic erase_topic Distinct
has-erase_self topic [] h = refl
has-erase_self topic ((t, tokens) ∷ rest) h = elim (Bool-cases (str_eq t topic)) [
  | inl e ↦ rw e (ap (λ (x : String). has_topic x rest) (sym ((eq_iff t topic).0 e)) ∙ h.0)
  | inr e ↦ rw e (rw e (has-erase_self topic rest h.1))
]

has-erase_ne :
    (topic other : String) (topics : Topics)
    → other ≢ topic
    → has_topic other (erase_topic topic topics) ≡ has_topic other topics
unfolding has_topic erase_topic
has-erase_ne topic other [] ne = refl
has-erase_ne topic other ((t, tokens) ∷ rest) ne =
    ground (arith, has-erase_ne topic other rest ne, eq_iff t topic, eq_iff t other)

Distinct-erase :
    (topic : String) (topics : Topics) → Distinct topics → Distinct (erase_topic topic topics)
unfolding erase_topic Distinct
Distinct-erase topic [] h = tt
Distinct-erase topic ((t, tokens) ∷ rest) h = elim (Bool-cases (str_eq t topic)) [
  | inl e ↦ rw e h.1
  | inr e ↦
      let ne : t ≢ topic = λ p. false≢true (sym e ∙ (eq_iff t topic).1 p) in
      rw e (has-erase_ne topic t rest ne ∙ h.0, Distinct-erase topic rest h.1)
]

has-cons_ne :
    (topic other : String) (tokens : List String) (topics : Topics)
    → other ≢ topic
    → has_topic other ((topic, tokens) ∷ topics) ≡ has_topic other topics
unfolding has_topic
has-cons_ne topic other tokens topics ne = ground (arith, eq_iff topic other)

has-cons_self :
    (topic : String) (tokens : List String) (topics : Topics)
    → has_topic topic ((topic, tokens) ∷ topics) ≡ true
unfolding has_topic
has-cons_self topic tokens topics = rw (eq_refl topic) refl

Distinct-cons :
    (topic : String) (tokens : List String) (topics : Topics)
    → has_topic topic topics ≡ false
    → Distinct topics
    → Distinct ((topic, tokens) ∷ topics)
unfolding Distinct
Distinct-cons topic tokens topics lacks h = (lacks, h)

abbrev pub reply : Bool → Bool → Command
reply true true = Command.subscribe_fail
reply true false = Command.subscribe_succ
reply false true = Command.unsubscribe_succ
reply false false = Command.unsubscribe_fail

-- After a request on a topic, the client has the topic exactly when the request was to
-- subscribe; it has the other topics that it had, and no topic twice, when it had none twice
-- before. The answer is a success exactly when the request changed something.
pub answer-has_topic :
    (command : Command) (topic : String) (topics : Topics)
    → Distinct topics
    → let (sent, after) = answer command topic topics in
      (sent ≡ reply (is_subscribe command) (has_topic topic topics))
      × (has_topic topic after ≡ is_subscribe command)
      × ((other : String) → other ≢ topic → has_topic other after ≡ has_topic other topics)
      × Distinct after
unfolding answer
answer-has_topic command topic topics h = elim (Bool-cases (is_subscribe command)) [
  | inl on ↦ elim (Bool-cases (has_topic topic topics)) [
    | inl has ↦ rw (on, has) (refl, has, λ other ne. refl, h)
    | inr lacks ↦
        let both = Distinct-cons topic (tokenize_topic topic) topics lacks h in
        let self = has-cons_self topic (tokenize_topic topic) topics in
        rw (on, lacks)
          (refl, self, λ other ne. has-cons_ne topic other (tokenize_topic topic) topics ne, both)
  ]
  | inr off ↦ elim (Bool-cases (has_topic topic topics)) [
    | inl has ↦
        let gone = has-erase_self topic topics h in
        rw (off, has)
          (
            refl,
            gone,
            λ other ne. has-erase_ne topic other topics ne,
            Distinct-erase topic topics h,
          )
    | inr lacks ↦ rw (off, lacks) (refl, lacks, λ other ne. refl, h)
  ]
]
