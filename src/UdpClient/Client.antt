-- ===== src/UdpClient/Client.antt =====
-- udp_client.py: the three modes of the load generator.
--
-- The socket's answer to sendto, the lines of the standard input and the picks of random.choice
-- are arguments. What the client does is the list of its events, in order, with the result.
pub mod Laws
pub mod Modes
pub mod Manual
pub mod Random
use Prim.Native.String.{◌++◌}
use text.Mathlib.Text.{◌==◌}
use server_client_app.Base.{
  ℕ, zero, suc, ◌+◌, ◌%◌, String, Bool, true, not, Option, none, some, List, [], ◌∷◌, length,
  get_elem?, if◌then◌else◌, ⊤, Exn, Result, ok, raised, or_raise,
}
use mathlib.Core.List.{◌++◌ as append}
use server_client_app.Base.Text.{str, join_lines}
use server_client_app.Base.Int.{ℤ, pos, negsuc, leb_ℤ, parse_int}
use server_client_app.UdpClient.Port.{show_int}
use server_client_app.UdpClient.Base64.{standard_b64decode}

-- An entry of the JSON file.
pub record Message : Type 0 where
  pub description : String
  pub payload_base64 : String

pub data Mode : Type 0 where
  all_once manual random : Mode

-- The parsed arguments that the modes read.
pub record Args : Type 0 where
  pub input_file : List Message
  pub server_ip : String
  pub server_port : ℤ
  pub mode : Mode
  pub count : Option ℤ
  pub delay : ℤ

pub data Event : Type 0 where
  -- sock.sendto(payload, (ip, port))
  sent : List ℕ → String → ℤ → Event
  printed : String → Event
  -- time.sleep of so many milliseconds
  slept : ℕ → Event
  -- input(prompt)
  asked : String → Event

-- What the machine answers: the count of bytes that sendto sent, or its error.
pub record Net : Type 0 where
  pub send : List ℕ → String → ℤ → Result ℕ

pub record Outcome (A : Type 0) : Type 0 where
  pub events : List Event
  pub result : Result A

module _ {A : Type 0} where
  unfoldable pub pure : A → Outcome A
  pure a = record { events = []; result = ok a }

  unfoldable pub lift : Result A → Outcome A
  lift r = record { events = []; result = r }

  -- An event, and then the rest.
  unfoldable pub after : List Event → Outcome A → Outcome A
  after es m = record { events = append es m.events; result = m.result }

unfoldable pub emit : Event → Outcome ⊤
emit e = record { events = e ∷ []; result = ok tt }

abbrev pub onward : {A B : Type 0} → List Event → Result A → (A → Outcome B) → Outcome B
onward es (ok a) f = record { events = append es (f a).events; result = (f a).result }
onward es (raised e) f = record { events = es; result = raised e }

infixl 5 ◌>>=◌ ◌>>◌
unfoldable pub ◌>>=◌ : {A B : Type 0} → Outcome A → (A → Outcome B) → Outcome B
unfolding pure lift emit
m >>= f = onward m.events m.result f

abbrev pub ◌>>◌ : {A B : Type 0} → Outcome A → Outcome B → Outcome B
m >> n = m >>= λ _. n

-- sock.sendto: the event, and the answer
unfoldable pub sendto : Net → List ℕ → String → ℤ → Outcome ℕ
sendto net payload ip port = record {
  events = sent payload ip port ∷ [];
  result = net.send payload ip port;
}

-- time.sleep(delay / 1000), which refuses a negative length. A delay of more than about 9.2e12 ms
-- is too long for it, and is not modelled.
unfoldable pub sleep : ℤ → Outcome ⊤
sleep (pos ms) = record { events = slept ms ∷ []; result = ok tt }
sleep (negsuc n) = record {
  events = [];
  result = raised (Exn.value_error "sleep length must be non-negative");
}

unfoldable pub sent_line : ℕ → List ℕ → String → String
sent_line count to_send description =
    "Sent (" ++ str count ++ "/" ++ str (length to_send) ++ " bytes) << " ++ description ++ " >>"

unfoldable pub send_message : Net → Args → Message → Outcome ⊤
unfolding sendto sleep sent_line ◌>>=◌
send_message net args message = do
  to_send ← lift (standard_b64decode message.payload_base64)
  count ← sendto net to_send args.server_ip args.server_port
  emit (printed (sent_line count to_send message.description))
  sleep args.delay

unfoldable pub send_each : Net → Args → List Message → Outcome ⊤
send_each net args [] = pure tt
send_each net args (message ∷ messages) = do
  send_message net args message
  send_each net args messages

unfoldable pub run_all_once : Net → Args → Outcome ⊤
unfolding send_each
run_all_once net args = send_each net args args.input_file

-- '{}. {}' for each entry
option_lines : ℕ → List Message → List String
option_lines i [] = []
option_lines i (x ∷ xs) = (str i ++ ". " ++ x.description) ∷ option_lines (i + 1) xs

abbrev exit_hint : String
exit_hint = "To end the program, input \"exit\""

unfoldable pub prompter : List Message → String
unfolding option_lines
prompter messages =
    join_lines
      ("Please chose one of the following" ∷ join_lines (option_lines 0 messages) ∷ exit_hint ∷ [])

-- len(messages) - 1
abbrev last_index : ℕ → ℤ
last_index zero = negsuc 0
last_index (suc n) = pos n

unfoldable pub input_ask : List Message → String
input_ask messages =
    "Input a int (" ++ str 0 ++ " - " ++ show_int (last_index (length messages)) ++ "): "

-- parsed_args.input_file[choice] under 0 <= choice < len(parsed_args.input_file), `none` otherwise.
unfoldable pub choose : List Message → ℤ → Option Message
choose messages (pos n) = get_elem? messages n
choose messages (negsuc n) = none

unfoldable pub answer_choice : Net → Args → Option Message → Outcome ⊤
answer_choice net args none = emit (printed "Maybe try a valid option.")
answer_choice net args (some message) = send_message net args message

unfoldable pub invalid_literal : String → Exn
invalid_literal choice =
    Exn.value_error ("invalid literal for int() with base 10: '" ++ choice ++ "'")

-- int(choice)
unfoldable pub to_int : String → Outcome ℤ
to_int choice = lift (or_raise (parse_int choice) (invalid_literal choice))

-- One line of input that is not "exit".
unfoldable pub serve_choice : Net → Args → String → Outcome ⊤
unfolding answer_choice to_int ◌>>=◌
serve_choice net args line = do
  choice ← to_int line
  answer_choice net args (choose args.input_file choice)

-- The loop, over the lines of the standard input. At their end input() raises EOFError.
unfoldable pub manual_loop : Net → Args → List String → Outcome ⊤
manual_loop net args [] = emit (asked (input_ask args.input_file)) >> lift (raised Exn.eof_error)
manual_loop net args (choice ∷ lines) =
    emit (asked (input_ask args.input_file))
    >> (if choice == "exit"
        then pure tt
        else serve_choice net args choice >> manual_loop net args lines)

unfoldable pub run_manual : Net → Args → List String → Outcome ⊤
run_manual net args lines = emit (printed (prompter args.input_file)) >> manual_loop net args lines

-- random.choice of a list that is not empty; `pick` is the index before it is brought into range.
unfoldable pub random_choice : List Message → ℕ → Result Message
random_choice [] pick = raised Exn.index_error
random_choice (x ∷ xs) pick = or_raise (get_elem? (x ∷ xs) (pick % length (x ∷ xs))) Exn.index_error

-- (n is None) or (count < n)
abbrev pub goes_on : Option ℤ → ℕ → Bool
goes_on none count = true
goes_on (some n) count = not (leb_ℤ n (pos count))

-- The body of the loop.
unfoldable pub random_round : Net → Args → ℕ → Outcome ⊤
unfolding random_choice ◌>>=◌
random_round net args pick = do
  message ← lift (random_choice args.input_file pick)
  send_message net args message

-- The loop, for at most `fuel` rounds; `none` if it goes on after them.
unfoldable pub random_loop : Net → Args → (ℕ → ℕ) → ℕ → ℕ → Outcome (Option ⊤)
random_loop net args picks zero count = pure none
random_loop net args picks (suc fuel) count =
    let round =
      random_round net args (picks count) >> random_loop net args picks fuel (count + 1) in
    if goes_on args.count count then round else pure (some tt)

unfoldable pub run_random : Net → Args → (ℕ → ℕ) → ℕ → Outcome (Option ⊤)
run_random net args picks fuel = random_loop net args picks fuel 0

unfoldable pub completed : Outcome ⊤ → Outcome (Option ⊤)
completed m = m >>= λ _. pure (some tt)

-- The branches of main().
unfoldable pub run_mode : Net → Args → List String → (ℕ → ℕ) → ℕ → Mode → Outcome (Option ⊤)
unfolding completed
run_mode net args lines picks fuel all_once =
    emit (printed "Running in all_once mode...\n") >> completed (run_all_once net args)
run_mode net args lines picks fuel manual =
    emit (printed "Running in manual mode...\n") >> completed (run_manual net args lines)
run_mode net args lines picks fuel random =
    emit (printed "Running in random mode..\n") >> run_random net args picks fuel

-- main(), after the arguments are parsed and the socket is bound to `source_port`.
unfoldable pub run_main : Net → Args → ℕ → List String → (ℕ → ℕ) → ℕ → Outcome (Option ⊤)
unfolding run_mode
run_main net args source_port lines picks fuel =
    emit (printed ("Client source PORT: " ++ str source_port))
    >> run_mode net args lines picks fuel args.mode
