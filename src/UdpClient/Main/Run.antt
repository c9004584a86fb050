-- ===== src/UdpClient/Main/Run.antt =====
-- The program, from a command line to the datagrams.
use server_client_app.Base.{ℕ, String, ◌≡◌, refl, some, List, [], Result, ok, ⊤}
use server_client_app.Base.Int.{ℤ, pos}
use mathlib.Core.List.{◌++◌ as append, append-nil}
use mathlib.Core.Option.{get_or}
use server_client_app.UdpClient.Client.{
  Message, Mode, Net, Outcome, Args, lift, emit, pure, printed, run_main, run_mode, run_all_once,
  completed,
}
use server_client_app.UdpClient.Client.Laws.{Works, datagrams}
use server_client_app.UdpClient.Client.Modes.{Sends, Sends-bind, EachEncodes, run_all_once-Sends}
use server_client_app.UdpClient.Parser.{Env}
use server_client_app.UdpClient.Parser.CommandLine.{Wanted, command_line}
use server_client_app.UdpClient.Parser.CommandLine.RoundTrip.{
  Fits, wanted_args, parse_args-command_line,
}
use server_client_app.UdpClient.Main.{main, main_parsed, setup_socket}

Sends-lift : {A : Type 0} (r : Result A) (a : A) → r ≡ ok a → Sends (lift r) [] a
unfolding lift datagrams
Sends-lift r a e = record { payloads = refl; returns = e }

Sends-emit : (text : String) → Sends (emit (printed text)) [] tt
unfolding emit datagrams
Sends-emit text = record { payloads = refl; returns = refl }

Sends-completed :
    (m : Outcome ⊤) (bss : List (List ℕ)) → Sends m bss tt → Sends (completed m) bss (some tt)
unfolding completed pure datagrams
Sends-completed m bss h =
    let s : Sends (completed m) (append bss []) (some tt) =
      Sends-bind m (λ _. pure (some tt)) h (record { payloads = refl; returns = refl }) in
    rw append-nil at s

run_mode-Sends :
    (net : Net) (args : Args) (lines : List String) (picks : ℕ → ℕ) (fuel : ℕ) (mode : Mode)
    (bss : List (List ℕ))
    → mode ≡ Mode.all_once
    → Sends (run_all_once net args) bss tt
    → Sends (run_mode net args lines picks fuel mode) bss (some tt)
unfolding run_mode
run_mode-Sends net args lines picks fuel mode bss e h =
    rw e (Sends-bind _ _ (Sends-emit _) (Sends-completed (run_all_once net args) bss h))

run_main-Sends :
    (net : Net) (args : Args) (source_port : ℕ) (lines : List String) (picks : ℕ → ℕ) (fuel : ℕ)
    (bss : List (List ℕ))
    → Sends (run_mode net args lines picks fuel args.mode) bss (some tt)
    → Sends (run_main net args source_port lines picks fuel) bss (some tt)
unfolding run_main
run_main-Sends net args source_port lines picks fuel bss h =
    Sends-bind _ (λ _. run_mode net args lines picks fuel args.mode) (Sends-emit _) h

module _ (env : Env) (net : Net) (bind : String → ℤ → Result ℕ) (w : Wanted)
    (messages : List Message) (source_port ms : ℕ) (fits : Fits env w messages) (works : Works net)
    (waits : get_or w.delay (pos 0) ≡ pos ms) (once : get_or w.mode Mode.all_once ≡ Mode.all_once)
    (bound : setup_socket bind (wanted_args w messages) ≡ ok source_port) where
  -- A command line that can be written, names a file that is there or leaves the default one
  -- that is there, and asks for the mode all_once or leaves it, runs to its end, if the port
  -- can be bound, the delay is not negative, the socket takes every datagram and the entries
  -- encode bytes: each entry is sent once, as the bytes that it encodes, in the order of the
  -- file.
  pub main-Sends :
      (lines : List String) (picks : ℕ → ℕ) (fuel : ℕ) (bss : List (List ℕ))
      → EachEncodes messages bss
      → Sends (main env net bind (command_line w) lines picks fuel) bss (some tt)
  unfolding main main_parsed wanted_args
  main-Sends lines picks fuel bss h = rw (parse_args-command_line env w messages fits) (
      Sends-bind _ _ (Sends-lift (setup_socket bind (wanted_args w messages)) source_port bound) (
        run_main-Sends net args source_port lines picks fuel bss (
          run_mode-Sends net args lines picks fuel args.mode bss once
            (run_all_once-Sends net args ms works waits bss h))))
    where
      args : Args
      args = (wanted_args w messages).client
