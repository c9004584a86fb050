-- ===== src/UdpClient/Samples.antt =====
-- udp_client.py on small inputs.
use server_client_app.Base.{
  ℕ, ◌≡◌, refl, none, some, List, [], ◌∷◌, ok, raised, length, leb, ◌&&◌, if◌then◌else◌, ◌≤◌, arith,
}
use server_client_app.Base.Int.{pos, parse_int}
use server_client_app.Base.Text.{str}
use server_client_app.UdpClient.Port.{unprivileged_port_type, port_type, out_of_range, max_value}
use server_client_app.UdpClient.Port.Laws.{port-in_range, port-str}
use server_client_app.UdpClient.Base64.Laws.{encode}
use server_client_app.UdpClient.Client.{
  Message, Mode, Args, Net, sent, printed, slept, send_message, sent_line, run_all_once, run_manual,
  run_random, invalid_literal,
}
use server_client_app.UdpClient.Client.Laws.{Encodes, Works, send_message_lem, datagrams}
use server_client_app.UdpClient.Client.Modes.{Sends, EachEncodes, run_all_once-Sends}
use server_client_app.UdpClient.Client.Manual.{run_manual-Sends, run_manual_invalid}
use server_client_app.UdpClient.Client.Random.{run_random-Sends, random_endless}

abbrev int_entry : Message
int_entry = record { description = "an INT"; payload_base64 = "AAEAAAAK" }

abbrev text_entry : Message
text_entry = record { description = "a STRING"; payload_base64 = "aGk=" }

abbrev int_bytes : List ℕ
int_bytes = 0 ∷ 1 ∷ 0 ∷ 0 ∷ 0 ∷ 10 ∷ []

abbrev text_bytes : List ℕ
text_bytes = 104 ∷ 105 ∷ []

abbrev payloads : List (List ℕ)
payloads = int_bytes ∷ text_bytes ∷ []

abbrev args : Args
args = record {
  input_file = int_entry ∷ text_entry ∷ [];
  server_ip = "127.0.0.1";
  server_port = pos 12345;
  mode = Mode.all_once;
  count = some (pos 3);
  delay = pos 20;
}

-- A socket that takes each datagram whole.
abbrev net : Net
net = record { send = λ bs ip port. ok (length bs) }

net-Works : Works net
net-Works bs ip port = refl

int-Encodes : Encodes int_entry int_bytes
unfolding encode
int-Encodes = record { text = refl; bytes = ground arith }

text-Encodes : Encodes text_entry text_bytes
unfolding encode
text-Encodes = record { text = refl; bytes = ground arith }

both : EachEncodes args.input_file payloads
both = (int-Encodes, (text-Encodes, tt))

abbrev picks : ℕ → ℕ
picks count = count

no_int : parse_int "one" ≡ none
unfolding parse_int
no_int = refl

run_all_once-Sends_example : Sends (run_all_once net args) payloads tt
run_all_once-Sends_example = run_all_once-Sends net args 20 net-Works refl payloads both

run_manual-Sends_example :
    Sends
      (run_manual net args ("1" ∷ "7" ∷ "0" ∷ "exit" ∷ "0" ∷ []))
      (text_bytes ∷ int_bytes ∷ [])
      tt
unfolding str
run_manual-Sends_example =
    run_manual-Sends net args 20 net-Works refl payloads (1 ∷ 7 ∷ 0 ∷ []) ("0" ∷ []) both

run_manual_invalid_example :
    (datagrams (run_manual net args ("1" ∷ "one" ∷ "0" ∷ [])).events ≡ text_bytes ∷ [])
    × ((run_manual net args ("1" ∷ "one" ∷ "0" ∷ [])).result ≡ raised (invalid_literal "one"))
unfolding str
run_manual_invalid_example =
    run_manual_invalid net args 20 net-Works refl payloads (1 ∷ []) "one" ("0" ∷ []) both refl
      no_int

run_random-Sends_example :
    Sends (run_random net args picks 4) (int_bytes ∷ text_bytes ∷ int_bytes ∷ []) (some tt)
run_random-Sends_example =
    run_random-Sends net args 20 net-Works refl payloads picks 3 both (ground arith) refl

random_endless_example :
    Sends
      (run_random net (record args { count = none }) picks 3)
      (int_bytes ∷ text_bytes ∷ int_bytes ∷ [])
      none
random_endless_example =
    random_endless net (record args { count = none }) 20 net-Works refl payloads picks 3 both
      (ground arith) refl

send_message_lem_sample : send_message net args int_entry ≡ record {
  events =
      sent int_bytes "127.0.0.1" (pos 12345)
      ∷ printed (sent_line 6 int_bytes "an INT")
      ∷ slept 20
      ∷ [];
  result = ok tt;
}
send_message_lem_sample =
    send_message_lem net args 20 int_entry int_bytes net-Works refl int-Encodes

accepted_port : port_type "12345" ≡ ok (pos 12345)
unfolding unprivileged_port_type parse_int
accepted_port = refl

port-in_range_sample :
    (n : ℕ) × (pos 12345 ≡ pos n)
    × (1024 ≤ n)
    × (n ≤ 65535)
    × (parse_int "12345" ≡ some (pos 12345))
port-in_range_sample = port-in_range "12345" (pos 12345) accepted_port

port-str_example : port_type (str 1023) ≡ (
    if leb 1024 1023 && leb 1023 65535
    then ok (pos 1023)
    else raised (out_of_range (pos 1024) max_value))
port-str_example = port-str 1023
