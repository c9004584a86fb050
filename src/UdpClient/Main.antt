-- ===== src/UdpClient/Main.antt =====
-- udp_client.py: setup_socket and main().
--
-- The answer to bind(), which is the port that the socket gets, is an argument.
pub mod Run
pub mod Sent
pub mod Refused
pub mod Samples
use server_client_app.Base.{ℕ, String, Option, none, List, ⊤, Exn, Result, raised}
use server_client_app.Base.Int.{ℤ}
use server_client_app.UdpClient.Client.{Net, Outcome, pure, lift, ◌>>=◌, run_main}
use server_client_app.UdpClient.Parser.{Env, Stop, Parse, done, stop, ParsedArgs, parse_args}

-- sock.bind((str(source_address), source_port)), and the port that getsockname() tells
unfoldable pub setup_socket : (String → ℤ → Result ℕ) → ParsedArgs → Result ℕ
setup_socket bind p = bind p.source_address p.source_port

-- How the interpreter ends when the parser stops. Where the parser is not followed, nor is the
-- program: `none`.
unfoldable pub exit_of : Stop → Outcome (Option ⊤)
unfolding lift pure
exit_of Stop.helped = lift (raised Exn.system_exit)
exit_of (Stop.usage fault) = lift (raised Exn.system_exit)
exit_of (Stop.crashed e) = lift (raised e)
exit_of Stop.emptied = pure none

unfoldable pub main_parsed :
    Net
    → (String → ℤ → Result ℕ)
    → List String
    → (ℕ → ℕ)
    → ℕ
    → Parse ParsedArgs
    → Outcome (Option ⊤)
unfolding setup_socket exit_of lift ◌>>=◌
main_parsed net bind lines picks fuel (stop s) = exit_of s
main_parsed net bind lines picks fuel (done p) = do
  source_port ← lift (setup_socket bind p)
  run_main net p.client source_port lines picks fuel

-- main(), with these arguments on the command line; `none` if the random mode goes on after
-- `fuel` rounds, or the parser is not followed.
unfoldable pub main :
    Env
    → Net
    → (String → ℤ → Result ℕ)
    → List String
    → List String
    → (ℕ → ℕ)
    → ℕ
    → Outcome (Option ⊤)
unfolding main_parsed parse_args
main env net bind argv lines picks fuel =
    main_parsed net bind lines picks fuel (parse_args env argv)
