-- ===== src/UdpClient/Main/Sent.antt =====
-- Where the datagrams go.
use mathlib.Core.List.{◌++◌ as append}
use server_client_app.Base.{
  ℕ, zero, suc, ◌+◌, String, Bool, true, false, ◌≡◌, ◌≢◌, refl, Option, none, some, List, [], ◌∷◌,
  Result, ok, raised, ⊤, All, if◌then◌else◌,
}
use server_client_app.Base.Int.{ℤ, pos, negsuc}
use server_client_app.UdpClient.Client.{
  Message, Mode, Args, Event, sent, printed, slept, asked, Net, Outcome, pure, lift, emit, onward,
  ◌>>=◌, ◌>>◌, sendto, sleep, send_message, send_each, run_all_once, answer_choice, choose, to_int,
  serve_choice, manual_loop, run_manual, random_round, random_loop, run_random, completed, run_mode,
  run_main,
}
use server_client_app.UdpClient.Parser.{Env, Parse, Stop, done, stop, ParsedArgs, parse_args}
use server_client_app.UdpClient.Parser.Types.{IsAddress, IsUnprivileged}
use server_client_app.UdpClient.Parser.Types.Loop.{IsTyped, parse_args-IsTyped}
use server_client_app.UdpClient.Main.{main, main_parsed, exit_of}

-- The event is no datagram, or one for this address.
unfoldable pub Addressed : (String → ℤ → Type 0) → Event → Type 0
Addressed P (sent payload ip port) = P ip port
Addressed P (printed text) = Unit
Addressed P (slept ms) = Unit
Addressed P (asked text) = Unit

All-append :
    {A : Type 0} (P : A → Type 0) (xs ys : List A) → All P xs → All P ys → All P (append xs ys)
All-append P [] ys h k = k
All-append P (x ∷ xs) ys h k = (h.0, All-append P xs ys h.1 k)

module _ (P : String → ℤ → Type 0) where
  unfoldable Emits : {A : Type 0} → Outcome A → Type 0
  Emits m = All (Addressed P) m.events

  Emits-onward :
      {A B : Type 0} (es : List Event) (r : Result A) (f : A → Outcome B)
      → All (Addressed P) es
      → ((a : A) → Emits (f a))
      → Emits (onward es r f)
  unfolding Emits
  Emits-onward es (ok a) f h k = All-append (Addressed P) es (f a).events h (k a)
  Emits-onward es (raised e) f h k = h

  Emits-bind :
      {A B : Type 0} (m : Outcome A) (f : A → Outcome B)
      → Emits m
      → ((a : A) → Emits (f a))
      → Emits (m >>= f)
  unfolding Emits ◌>>=◌
  Emits-bind m f h k = Emits-onward m.events m.result f h k

  Emits-then : {A B : Type 0} (m : Outcome A) (n : Outcome B) → Emits m → Emits n → Emits (m >> n)
  Emits-then m n h k = Emits-bind m (λ _. n) h λ _. k

  Emits-if :
      {A : Type 0} (b : Bool) (m n : Outcome A) → Emits m → Emits n → Emits (if b then m else n)
  Emits-if true m n h k = h
  Emits-if false m n h k = k

  Emits-emit : (text : String) → Emits (emit (printed text))
  unfolding Emits emit Addressed
  Emits-emit text = (tt, tt)

  Emits-ask : (text : String) → Emits (emit (asked text))
  unfolding Emits emit Addressed
  Emits-ask text = (tt, tt)

  Emits-lift : {A : Type 0} (r : Result A) → Emits (lift r)
  unfolding Emits lift
  Emits-lift r = tt

  Emits-pure : {A : Type 0} (a : A) → Emits (pure a)
  unfolding Emits pure
  Emits-pure a = tt

  Emits-sleep : (delay : ℤ) → Emits (sleep delay)
  unfolding Emits sleep Addressed
  Emits-sleep (pos ms) = (tt, tt)
  Emits-sleep (negsuc n) = tt

  module _ (net : Net) (args : Args) (to : P args.server_ip args.server_port) where
    Emits-sendto : (payload : List ℕ) → Emits (sendto net payload args.server_ip args.server_port)
    unfolding Emits sendto Addressed
    Emits-sendto payload = (to, tt)

    Emits-message : (m : Message) → Emits (send_message net args m)
    unfolding send_message
    Emits-message m = Emits-bind _ _ (Emits-lift _) λ payload.
        Emits-bind _ _ (Emits-sendto payload)
          λ count. Emits-bind _ _ (Emits-emit _) λ _. Emits-sleep args.delay

    Emits-each : (messages : List Message) → Emits (send_each net args messages)
    unfolding send_each
    Emits-each [] = Emits-pure tt
    Emits-each (m ∷ messages) =
        Emits-bind (send_message net args m) (λ _. send_each net args messages) (Emits-message m)
          λ _. Emits-each messages

    Emits-answer : (o : Option Message) → Emits (answer_choice net args o)
    unfolding answer_choice
    Emits-answer none = Emits-emit _
    Emits-answer (some m) = Emits-message m

    Emits-to_int : (line : String) → Emits (to_int line)
    unfolding to_int
    Emits-to_int line = Emits-lift _

    Emits-serve : (line : String) → Emits (serve_choice net args line)
    unfolding serve_choice
    Emits-serve line =
        Emits-bind (to_int line) (λ c. answer_choice net args (choose args.input_file c))
          (Emits-to_int line) λ c. Emits-answer (choose args.input_file c)

    Emits-manual : (lines : List String) → Emits (manual_loop net args lines)
    unfolding manual_loop
    Emits-manual [] = Emits-then _ _ (Emits-ask _) (Emits-lift _)
    Emits-manual (line ∷ lines) =
        Emits-then _ _ (Emits-ask _)
          (Emits-if _ _ _ (Emits-pure tt) (Emits-then _ _ (Emits-serve line) (Emits-manual lines)))

    Emits-round : (pick : ℕ) → Emits (random_round net args pick)
    unfolding random_round
    Emits-round pick = Emits-bind _ _ (Emits-lift _) Emits-message

    Emits-random : (picks : ℕ → ℕ) (fuel count : ℕ) → Emits (random_loop net args picks fuel count)
    unfolding random_loop
    Emits-random picks zero count = Emits-pure none
    Emits-random picks (suc fuel) count =
        Emits-if _ _ _
          (Emits-then _ _ (Emits-round (picks count)) (Emits-random picks fuel (count + 1)))
          (Emits-pure (some tt))

    Emits-completed : (m : Outcome ⊤) → Emits m → Emits (completed m)
    unfolding completed
    Emits-completed m h = Emits-bind m _ h λ _. Emits-pure (some tt)

    Emits-mode :
        (lines : List String) (picks : ℕ → ℕ) (fuel : ℕ) (mode : Mode)
        → Emits (run_mode net args lines picks fuel mode)
    unfolding run_mode run_all_once run_manual run_random
    Emits-mode lines picks fuel Mode.all_once =
        Emits-then _ _ (Emits-emit _) (Emits-completed _ (Emits-each args.input_file))
    Emits-mode lines picks fuel Mode.manual =
        Emits-then _ _ (Emits-emit _)
          (Emits-completed _ (Emits-then _ _ (Emits-emit _) (Emits-manual lines)))
    Emits-mode lines picks fuel Mode.random =
        Emits-then _ _ (Emits-emit _) (Emits-random picks fuel 0)

    Emits-main :
        (source_port : ℕ) (lines : List String) (picks : ℕ → ℕ) (fuel : ℕ)
        → Emits (run_main net args source_port lines picks fuel)
    unfolding run_main
    Emits-main source_port lines picks fuel =
        Emits-then _ _ (Emits-emit _) (Emits-mode lines picks fuel args.mode)

-- The address of a server that the command line can name.
unfoldable pub IsServer : Env → String → ℤ → Type 0
IsServer env ip port = IsAddress env ip × IsUnprivileged port

exit_of-Emits : (P : String → ℤ → Type 0) (s : Stop) → Emits P (exit_of s)
unfolding exit_of
exit_of-Emits P Stop.helped = Emits-lift P _
exit_of-Emits P (Stop.usage fault) = Emits-lift P _
exit_of-Emits P (Stop.crashed e) = Emits-lift P _
exit_of-Emits P Stop.emptied = Emits-pure P none

parsed-Addressed :
    (env : Env) (net : Net) (bind : String → ℤ → Result ℕ) (lines : List String) (picks : ℕ → ℕ)
    (fuel : ℕ) (m : Parse ParsedArgs)
    → ((p : ParsedArgs) → m ≡ done p → IsTyped env p)
    → Emits (IsServer env) (main_parsed net bind lines picks fuel m)
unfolding main_parsed IsServer
parsed-Addressed env net bind lines picks fuel (stop s) h = exit_of-Emits (IsServer env) s
parsed-Addressed env net bind lines picks fuel (done p) h =
    let k = h p refl in
    Emits-bind (IsServer env) _ _ (Emits-lift (IsServer env) _) λ port.
      Emits-main (IsServer env) net p.client (k.server_ip, k.server_port) port lines picks fuel

-- Whatever the command line, unless it leaves an argument with the value [], the answers of the
-- machine, the input and the picks, each datagram that the client sends goes to an IPv4 address
-- or to one that was read from an IPv6 text, and to a port from 1024 to 65535.
pub main-Addressed :
    (env : Env) (net : Net) (bind : String → ℤ → Result ℕ) (argv lines : List String)
    (picks : ℕ → ℕ) (fuel : ℕ)
    → parse_args env argv ≢ stop Stop.emptied
    → All (Addressed (IsServer env)) (main env net bind argv lines picks fuel).events
unfolding main Emits
main-Addressed env net bind argv lines picks fuel followed =
    parsed-Addressed env net bind lines picks fuel (parse_args env argv)
      (parse_args-IsTyped env argv)
