-- ===== src/UdpClient/Main/Refused.antt =====
-- The program, when its command line is refused.
use server_client_app.Base.{
  ℕ, String, Option, none, some, false, ◌&&◌, ◌≡◌, ap, List, [], Result, raised, Exn, ◌⊎◌, inl, inr,
  leb,
}
use server_client_app.Base.Int.{ℤ}
use server_client_app.UdpClient.Client.{Message, Net, lift}
use server_client_app.UdpClient.Parser.{Env, stop, usage, parse_args, Fault}
use server_client_app.UdpClient.Parser.CommandLine.{Wanted, command_line, AllWords}
use server_client_app.UdpClient.Parser.CommandLine.Stored.{FileFits}
use server_client_app.UdpClient.Parser.CommandLine.Line.{IsWritten}
use server_client_app.UdpClient.Parser.CommandLine.Refused.{
  file_name, parse_args-port_refused, parse_args-default_refused, parse_args-no_file,
}
use server_client_app.UdpClient.Main.{main, main_parsed, exit_of}

-- The file is not there; or the port is not in the range, and the file is there with entries or
-- is left to the default.
unfoldable pub IsFaulty : Env → Wanted → List Message → Type 0
IsFaulty env w messages =
    (AllWords w.input_file × (env.exists (file_name w.input_file) ≡ false))
    ⊎ ((FileFits env messages w.input_file ⊎ (w.input_file ≡ none))
        × ((leb 1024 w.server_port && leb w.server_port 65535) ≡ false))

default_words : (v : Option String) → v ≡ none → AllWords v
unfolding AllWords
default_words none e = tt
default_words (some name) e = cc e

stopped :
    (env : Env) (w : Wanted) (messages : List Message)
    → IsWritten w
    → IsFaulty env w messages
    → (fault : Fault) × (parse_args env (command_line w) ≡ stop (usage fault))
unfolding IsFaulty
stopped env w messages h (inl k) = parse_args-no_file env w k.0 h k.1
stopped env w messages h (inr (inl file, bad)) =
    (_, parse_args-port_refused env w messages file h bad)
stopped env w messages h (inr (inr default, bad)) =
    (_, parse_args-default_refused env w default (default_words w.input_file default) h bad)

-- A command line that can be written makes main exit before a socket is bound or anything is
-- sent, when it names a file that is missing, or leaves the default one, which is missing,
-- whatever the port; and when its server port is not in the range, and it leaves the file to
-- the default or names one whose entries can be read.
pub main_refused :
    (env : Env) (net : Net) (bind : String → ℤ → Result ℕ) (w : Wanted) (messages : List Message)
    (lines : List String) (picks : ℕ → ℕ) (fuel : ℕ)
    → IsWritten w
    → IsFaulty env w messages
    → main env net bind (command_line w) lines picks fuel
      ≡ record { events = []; result = raised Exn.system_exit }
unfolding main main_parsed exit_of lift
main_refused env net bind w messages lines picks fuel h k =
    let (fault, path) = stopped env w messages h k in
    ap (main_parsed net bind lines picks fuel) path
