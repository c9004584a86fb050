-- ===== src/Subscriber/Sent.antt =====
-- What the loop of the subscriber sends.
use Prim.Native.Char.{Char}
use Prim.Native.String.{◌∷◌ as ◌◁◌, ◌++◌}
use text.Mathlib.Text.{◌==◌ as str_eq}
use server_client_app.Base.{
  ◌≤◌, String, ◌≡◌, refl, Bool, true, false, not, ◌&&◌, Option, none, some, List, [], ◌∷◌, All, leb,
  leb→le, if◌then◌else◌, ◌⊎◌, inl, inr, Bool-cases,
}
use server_client_app.Server.Clients.{Command}
use server_client_app.Subscriber.{
  Incoming, failed, closed, message, Effect, request, printed, complained, State, Answer, value,
  died, waiting, Handler, pure, die, onward, ◌>>=◌, emit, send_efficient, next, recv_efficient,
  command_of, command_for, subscribe_unsubscribe_topic, manage_topic, manage_command,
  manage_stdin_data, print_payload, is_msg_from_udp, serve_incoming, manage_tcp_data, Round,
  serve_stdin, run_round, run,
}
use server_client_app.Subscriber.Input.{c_str, strtok, strlen, skip, cut, token_at, is_one_of}
use server_client_app.Subscriber.Input.Laws.{IsNonempty}

-- None of the delimiters is in the text.
unfoldable pub free_of : String → String → Bool
free_of delims Prim.Native.String.[] = true
free_of delims (c ◁ s) = not (is_one_of delims c) && free_of delims s

cut-free_of : (delims s : String) → free_of delims (cut delims s).0 ≡ true
unfolding cut free_of
cut-free_of delims Prim.Native.String.[] = refl
cut-free_of delims (c ◁ s) = elim (Bool-cases (is_one_of delims c)) [
  | inl stop ↦ rw stop refl
  | inr more ↦ rw more (rw more (cut-free_of delims s))
]

cut-IsNonempty :
    (delims : String) (c : Char) (s : String)
    → is_one_of delims c ≡ false
    → IsNonempty (cut delims (c ◁ s)).0
unfolding cut
cut-IsNonempty delims c s more = rw more tt

IsToken : String → Option (String × String) → Type 0
IsToken delims none = Unit
IsToken delims (some (t, rest)) = IsNonempty t × (free_of delims t ≡ true)

token_at-IsToken : (delims s : String) → IsToken delims (token_at delims (skip delims s))
unfolding token_at skip IsToken
token_at-IsToken delims Prim.Native.String.[] = tt
token_at-IsToken delims (c ◁ s) = elim (Bool-cases (is_one_of delims c)) [
  | inl stop ↦ rw stop (token_at-IsToken delims s)
  | inr more ↦ rw more (cut-IsNonempty delims c s more, cut-free_of delims (c ◁ s))
]

-- A request of the loop: to subscribe or to unsubscribe, with a topic of 1 to 50 bytes without a
-- space or a line break.
unfoldable pub IsSound : Effect → Type 0
IsSound (request command topic) =
    ((command ≡ Command.subscribe_req) ⊎ (command ≡ Command.unsubscribe_req))
    × IsNonempty topic
    × (free_of "\n " topic ≡ true)
    × (strlen topic ≤ 50)
IsSound (printed text) = Unit
IsSound (complained text) = Unit

-- What every sound effect satisfies, of all the effects so far.
module _ (P : Effect → Type 0) (sound : (e : Effect) → IsSound e → P e) where
  pub record Keeps {A : Type 0} (m : Handler A) : Type 0 where
    pub at : (s : State) → All P s.trace → All P (m s).1.trace

  pub Keeps-pure : {A : Type 0} (a : A) → Keeps (pure a)
  unfolding pure
  Keeps-pure a = record { at = λ s h. h }

  pub Keeps-die : {A : Type 0} → Keeps (die {A = A})
  unfolding die
  Keeps-die = record { at = λ s h. h }

  Keeps-onward :
      {A B : Type 0} (r : Answer A) (f : A → Handler B)
      → ((a : A) → Keeps (f a))
      → Keeps (onward r f)
  Keeps-onward (value a) f q = q a
  Keeps-onward died f q = record { at = λ s h. h }
  Keeps-onward waiting f q = record { at = λ s h. h }

  pub Keeps-bind :
      {A B : Type 0} (m : Handler A) (f : A → Handler B)
      → Keeps m
      → ((a : A) → Keeps (f a))
      → Keeps (m >>= f)
  unfolding ◌>>=◌
  Keeps-bind m f p q = record { at = λ s h. (Keeps-onward (m s).0 f q).at (m s).1 (p.at s h) }

  pub Keeps-if :
      {A : Type 0} (b : Bool) (m n : Handler A) → Keeps m → Keeps n → Keeps (if b then m else n)
  Keeps-if true m n p q = p
  Keeps-if false m n p q = q

  pub Keeps-print : (text : String) → Keeps (emit (printed text))
  unfolding emit IsSound
  Keeps-print text = record { at = λ s h. (sound (printed text) tt, h) }

  pub Keeps-complain : (text : String) → Keeps (emit (complained text))
  unfolding emit IsSound
  Keeps-complain text = record { at = λ s h. (sound (complained text) tt, h) }

  pub Keeps-recv : Keeps recv_efficient
  unfolding recv_efficient next
  Keeps-recv = record { at = λ s h. go s.inbox s h }
    where
      go : (inbox : List Incoming) (s : State) → All P s.trace → All P (next inbox s).1.trace
      go [] s h = h
      go (m ∷ inbox) s h = h

  pub Keeps-command_of : (m : Incoming) → Keeps (command_of m)
  unfolding command_of
  Keeps-command_of failed = Keeps-die
  Keeps-command_of (closed command) = Keeps-pure command
  Keeps-command_of (message command payload) = Keeps-pure command

  pub ruleset sound_rules = (
    Keeps-pure, Keeps-die, Keeps-if, Keeps-bind, Keeps-print, Keeps-complain, Keeps-recv,
    Keeps-command_of,
  )

  Keeps-send :
      (b : Bool) (topic : String)
      → IsNonempty topic
      → free_of "\n " topic ≡ true
      → strlen topic ≤ 50
      → Keeps (send_efficient (command_for b) topic)
  unfolding send_efficient IsSound
  Keeps-send true topic n f l = record { at = λ s h. (sound _ (inl refl, n, f, l), h) }
  Keeps-send false topic n f l = record { at = λ s h. (sound _ (inr refl, n, f, l), h) }

  Keeps-topic :
      (b : Bool) (topic : String)
      → IsNonempty topic
      → free_of "\n " topic ≡ true
      → strlen topic ≤ 50
      → Keeps (subscribe_unsubscribe_topic b topic)
  unfolding subscribe_unsubscribe_topic
  Keeps-topic b topic n f l =
      Keeps-bind (send_efficient (command_for b) topic) _ (Keeps-send b topic n f l)
        λ _. search sound_rules

  Keeps-manage_topic :
      (b : Bool) (o : Option (String × String)) → IsToken "\n " o → Keeps (manage_topic b o)
  unfolding manage_topic IsToken
  Keeps-manage_topic b none h = search sound_rules
  Keeps-manage_topic b (some (topic, rest)) h = elim (Bool-cases (leb (strlen topic) 50)) [
    | inl short ↦ rw short (
        Keeps-bind (subscribe_unsubscribe_topic b topic) _
          (Keeps-topic b topic h.0 h.1 (leb→le (strlen topic) 50 short)) λ _. Keeps-pure false)
    | inr long ↦ rw long (search sound_rules)
  ]

  Keeps-next : (b : Bool) (rest : String) → Keeps (manage_topic b (strtok "\n " rest))
  unfolding strtok
  Keeps-next b rest = Keeps-manage_topic b (strtok "\n " rest) (token_at-IsToken "\n " rest)

  Keeps-manage_command : (o : Option (String × String)) → Keeps (manage_command o)
  unfolding manage_command
  Keeps-manage_command none = search sound_rules
  Keeps-manage_command (some (command, rest)) =
      Keeps-if (str_eq command "subscribe") _ _ (Keeps-next true rest)
        (Keeps-if (str_eq command "unsubscribe") _ _ (Keeps-next false rest) (search sound_rules))

  Keeps-stdin : (o : Option String) → Keeps (serve_stdin o)
  unfolding serve_stdin manage_stdin_data
  Keeps-stdin none = Keeps-pure false
  Keeps-stdin (some line) =
      Keeps-if (str_eq line "exit") _ _ (Keeps-pure true)
        (Keeps-manage_command (strtok " " (c_str line)))

  Keeps-print_payload : (o : Option String) → Keeps (print_payload o)
  unfolding print_payload
  Keeps-print_payload none = Keeps-die
  Keeps-print_payload (some text) = search sound_rules

  Keeps-incoming : (m : Incoming) → Keeps (serve_incoming m)
  unfolding serve_incoming
  Keeps-incoming failed = Keeps-die
  Keeps-incoming (closed command) = Keeps-pure true
  Keeps-incoming (message command payload) =
      Keeps-if (is_msg_from_udp command) _ _ (Keeps-print_payload payload) (search sound_rules)

  Keeps-run_round : (round : Round) → Keeps (run_round round)
  unfolding run_round manage_tcp_data
  Keeps-run_round round = Keeps-bind (serve_stdin round.stdin) _ (Keeps-stdin round.stdin) λ leaves.
      Keeps-if leaves _ _ (Keeps-pure true) (
        Keeps-if round.readable _ _
          (Keeps-bind recv_efficient serve_incoming Keeps-recv Keeps-incoming) (Keeps-pure false))

  pub Keeps-run : (rounds : List Round) → Keeps (run rounds)
  unfolding run
  Keeps-run [] = Keeps-pure false
  Keeps-run (round ∷ rounds) =
      Keeps-bind (run_round round) _ (Keeps-run_round round)
        λ leaves. Keeps-if leaves _ _ (Keeps-pure true) (Keeps-run rounds)

-- Whatever is typed and whatever the server sends, the loop of the subscriber sends nothing but
-- requests to subscribe and to unsubscribe, each with a topic of 1 to 50 bytes without a space
-- or a line break.
pub run-IsSound :
    (rounds : List Round) (s : State) → All IsSound s.trace → All IsSound (run rounds s).1.trace
run-IsSound rounds s h = (Keeps-run IsSound (λ e h. h) rounds).at s h
