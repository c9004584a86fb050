-- ===== src/UdpClient/Main/Samples.antt =====
-- udp_client.py's command line on small inputs.
use text.Mathlib.Text.{◌==◌ as ◌is◌}
use server_client_app.Base.{
  ℕ, String, Bool, ◌≡◌, refl, none, some, List, [], ◌∷◌, All, ok, raised, Result, Exn, arith, inl,
  inr, length,
}
use server_client_app.Base.Int.{ℤ, negsuc, parse_int}
use server_client_app.UdpClient.Base64.Laws.{encode}
use server_client_app.Base.Text.{str}
use server_client_app.UdpClient.Ip.{dotted, ip_address, ipv4_address}
use server_client_app.UdpClient.Port.{show_int, unprivileged_port_type}
use server_client_app.UdpClient.Client.{Message, Net}
use server_client_app.UdpClient.Client.Laws.{Works}
use server_client_app.UdpClient.Client.Modes.{Sends, EachEncodes}
use server_client_app.UdpClient.Parser.{Env, done, stop, Stop, usage, Fault, parse_args, typed}
use server_client_app.UdpClient.Parser.Tokens.{Opt, Token, word, option, tokens}
use server_client_app.UdpClient.Parser.Types.Loop.{IsTyped, parse_args-IsTyped}
use server_client_app.UdpClient.Parser.CommandLine.{
  Address, show_address, Wanted, command_line, IsIpv4, IsPort,
}
use server_client_app.UdpClient.Parser.CommandLine.Stored.{FileFits}
use server_client_app.UdpClient.Parser.CommandLine.Line.{IsWritten}
use server_client_app.UdpClient.Parser.CommandLine.RoundTrip.{
  Fits, wanted_args, parse_args-command_line,
}
use server_client_app.UdpClient.Main.{main, setup_socket}
use server_client_app.UdpClient.Main.Run.{main-Sends}
use server_client_app.UdpClient.Main.Sent.{Addressed, IsServer, main-Addressed}
use server_client_app.UdpClient.Main.Refused.{IsFaulty, main_refused}

abbrev entry : Message
entry = record { description = "an INT"; payload_base64 = "AAEAAAAK" }

abbrev bytes : List ℕ
bytes = 0 ∷ 1 ∷ 0 ∷ 0 ∷ 0 ∷ 10 ∷ []

abbrev is_there : String → Bool
is_there name = name is "sample_payloads.json"

abbrev env : Env
env = record { exists = is_there; load = λ name. ok (entry ∷ []); ipv6 = λ text. none }

abbrev net : Net
net = record { send = λ bs ip port. ok (length bs) }

abbrev bind : String → ℤ → Result ℕ
bind ip port = ok 40000

abbrev server : Address
server = record { a = 127; b = 0; c = 0; d = 1 }

-- 127.0.0.1 12345, with a source port and a count of packets.
abbrev wanted : Wanted
wanted = record {
  input_file = none;
  source_address = none;
  source_port = some 2048;
  mode = none;
  count = some (negsuc 4);
  delay = none;
  server_ip = server;
  server_port = 12345;
}

abbrev line : List String
line = "--source-port" ∷ "2048" ∷ "--count" ∷ "-5" ∷ "127.0.0.1" ∷ "12345" ∷ []

line_sample : command_line wanted ≡ line
unfolding command_line str show_int show_address dotted
line_sample = refl

tokens_sample :
    tokens ("--mo=x" ∷ "--source" ∷ "--i" ∷ "-5" ∷ "-5x" ∷ "-h" ∷ "-hh" ∷ "-hx" ∷ "--" ∷ "--x" ∷ [])
    ≡ option Opt.mode (some "x")
      ∷ Token.ambiguous "--source"
      ∷ option Opt.input_file none
      ∷ word "-5"
      ∷ Token.unknown "-5x"
      ∷ option Opt.help none
      ∷ option Opt.help none
      ∷ option Opt.help (some "x")
      ∷ Token.end_mark
      ∷ word "--x"
      ∷ []
unfolding tokens
tokens_sample = refl

help_sample : parse_args env ("--he" ∷ []) ≡ stop Stop.helped
unfolding parse_args
help_sample = refl

mode_sample : parse_args env ("--mode=all" ∷ "::1" ∷ []) ≡ stop (usage (Fault.invalid_choice "all"))
unfolding parse_args
mode_sample = refl

address_sample :
    parse_args env ("127.0.0.01" ∷ []) ≡ stop (usage (Fault.invalid_value "127.0.0.01"))
unfolding parse_args typed ip_address ipv4_address unprivileged_port_type parse_int
address_sample = refl

extra_sample :
    parse_args env ("127.0.0.1" ∷ "12345" ∷ "-x" ∷ [])
    ≡ stop (usage (Fault.unrecognized ("-x" ∷ [])))
unfolding parse_args typed ip_address ipv4_address unprivileged_port_type parse_int
extra_sample = refl

emptied_sample : parse_args env ("127.0.0.1" ∷ "--" ∷ "--" ∷ []) ≡ stop Stop.emptied
unfolding parse_args ip_address ipv4_address typed
emptied_sample = refl

emptied_delay_sample :
    parse_args env ("--delay=--" ∷ "127.0.0.1" ∷ "12345" ∷ []) ≡ stop Stop.emptied
unfolding parse_args typed ip_address ipv4_address unprivileged_port_type parse_int
emptied_delay_sample = refl

-- server_port takes the mark with it.
mark_sample :
    parse_args env ("127.0.0.1" ∷ "--delay" ∷ "5" ∷ "--" ∷ "--" ∷ [])
    ≡ stop (usage (Fault.invalid_value "--"))
unfolding parse_args typed ip_address ipv4_address unprivileged_port_type parse_int
mark_sample = refl

-- Nothing takes the mark.
loose_mark_sample :
    parse_args env ("127.0.0.1" ∷ "-x" ∷ "12345" ∷ "f" ∷ "--" ∷ "y" ∷ [])
    ≡ stop (usage (Fault.unrecognized ("-x" ∷ "f" ∷ "--" ∷ "y" ∷ [])))
unfolding parse_args typed ip_address ipv4_address unprivileged_port_type parse_int
loose_mark_sample = refl

missing_sample : parse_args env ("127.0.0.1" ∷ []) ≡ stop (usage Fault.missing_argument)
unfolding parse_args typed ip_address ipv4_address unprivileged_port_type parse_int
missing_sample = refl

written : IsWritten wanted
unfolding IsIpv4 IsPort
written = record {
  source_address = tt;
  source_port = (omega arith, omega arith);
  server_ip = (omega arith, omega arith, omega arith, omega arith);
}

fits : Fits env wanted (entry ∷ [])
unfolding FileFits IsPort
fits = record { file = (refl, refl); written = written; server_port = (omega arith, omega arith) }

net-Works : Works net
net-Works bs ip port = refl

entry-Encodes : EachEncodes (entry ∷ []) (bytes ∷ [])
unfolding encode
entry-Encodes = (record { text = refl; bytes = ground arith }, tt)

bound : setup_socket bind (wanted_args wanted (entry ∷ [])) ≡ ok 40000
unfolding setup_socket
bound = refl

parse_args-command_line_example :
    parse_args env (command_line wanted) ≡ done (wanted_args wanted (entry ∷ []))
parse_args-command_line_example = parse_args-command_line env wanted (entry ∷ []) fits

main-Sends_example :
    Sends (main env net bind (command_line wanted) [] (λ n. n) 0) (bytes ∷ []) (some tt)
main-Sends_example =
    main-Sends env net bind wanted (entry ∷ []) 40000 0 fits net-Works refl refl bound [] (λ n. n) 0
      (bytes ∷ []) entry-Encodes

parse_args-IsTyped_example : IsTyped env (wanted_args wanted (entry ∷ []))
parse_args-IsTyped_example =
    parse_args-IsTyped env (command_line wanted) (wanted_args wanted (entry ∷ []))
      (parse_args-command_line env wanted (entry ∷ []) fits)

main-Addressed_example :
    All (Addressed (IsServer env)) (main env net bind (command_line wanted) [] (λ n. n) 0).events
main-Addressed_example =
    main-Addressed env net bind (command_line wanted) [] (λ n. n) 0
      (λ e. cc (e, parse_args-command_line env wanted (entry ∷ []) fits))

-- The same with a port that is too low.
abbrev low : Wanted
low = record wanted { server_port = 1023 }

low-IsFaulty : IsFaulty env low (entry ∷ [])
unfolding IsFaulty FileFits
low-IsFaulty = inr (inl (refl, refl), refl)

low-IsWritten : IsWritten low
unfolding IsIpv4 IsPort
low-IsWritten = record {
  source_address = tt;
  source_port = (omega arith, omega arith);
  server_ip = (omega arith, omega arith, omega arith, omega arith);
}

main_refused_example :
    main env net bind (command_line low) [] (λ n. n) 0
    ≡ record { events = []; result = raised Exn.system_exit }
main_refused_example =
    main_refused env net bind low (entry ∷ []) [] (λ n. n) 0 low-IsWritten low-IsFaulty
