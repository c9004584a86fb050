-- ===== src/UdpClient/Parser/CommandLine/Refused.antt =====
-- Command lines that the parser refuses.
use mathlib.Core.Option.{get_or}
use server_client_app.Base.{
  ℕ, String, false, Option, none, some, List, [], ◌∷◌, ◌≡◌, refl, ap, ◌∙◌, leb,
}
use server_client_app.Base.Text.{str}
use server_client_app.UdpClient.Port.{out_of_range}
use server_client_app.UdpClient.Port.Laws.{port-str}
use server_client_app.UdpClient.Client.{Message}
use server_client_app.UdpClient.Parser.Words.{IsWord-str}
use server_client_app.UdpClient.Parser.{
  Env, Parse, Progress, with_values, store, place, place_at, is_open, read_given, store_option,
  consume, finish, parse_tokens, parse_args, read_port, read_json_file, typed, nothing_yet,
  unless_ambiguous, ◌>>=◌,
}
use server_client_app.UdpClient.Parser.Tokens.{Opt, Token, word, option}
use server_client_app.UdpClient.Parser.CommandLine.{
  IsIpv4, IsPort, Wanted, command_line, write_tokens, AllWords,
}
use server_client_app.UdpClient.Parser.CommandLine.Stored.{FileFits, read_address-show}
use server_client_app.UdpClient.Parser.CommandLine.Line.{
  IsWritten, file_word, line_tokens, after_file, tokens-command_line, line_tokens-unambiguous,
  after_options, end_words, consume-to_words, consume-to_words_default,
}
use server_client_app.UdpClient.Parser.CommandLine.RoundTrip.{after_words, place_words}
use server_client_app.UdpClient.Parser.{Stop, stop, usage, Fault}
use mathlib.Core.Bool.{true, false, ◌&&◌}
use server_client_app.Base.{inl, inr, Bool-cases, arith}

port_refused :
    (n : ℕ)
    → (leb 1024 n && leb n 65535) ≡ false
    → read_port (str n) ≡ stop (usage (Fault.invalid_value (str n)))
unfolding read_port typed out_of_range
port_refused n h = rw (port-str n) (rw h refl)

end_words-refused :
    (env : Env) (w : Wanted) (p : Progress)
    → p.values.server_ip ≡ none
    → p.values.server_port ≡ none
    → IsIpv4 w.server_ip
    → (leb 1024 w.server_port && leb w.server_port 65535) ≡ false
    → consume env false (end_words w) p ≡ stop (usage (Fault.invalid_value (str w.server_port)))
unfolding end_words consume place place_at is_open ◌>>=◌
end_words-refused env w p no_ip no_port h k = rw no_ip (
    rw no_port (
      rw (read_address-show env w.server_ip h)
        (rw (IsWord-str w.server_port).not_mark (rw (port_refused w.server_port k) refl))))

refused_args :
    (env : Env) (w : Wanted) (s : Stop)
    → AllWords w.input_file
    → (consume env false (line_tokens w) nothing_yet >>= finish env) ≡ stop s
    → parse_args env (command_line w) ≡ stop s
unfolding parse_args parse_tokens unless_ambiguous ◌>>=◌
refused_args env w s f e =
    ap (parse_tokens env) (tokens-command_line w f)
    ∙ ap
        (λ (o : Option String).
          unless_ambiguous o (consume env false (line_tokens w) nothing_yet >>= finish env))
        (line_tokens-unambiguous w)
    ∙ e

-- The command line is refused for a server port that is not in the range.
pub parse_args-port_refused :
    (env : Env) (w : Wanted) (messages : List Message)
    → FileFits env messages w.input_file
    → IsWritten w
    → (leb 1024 w.server_port && leb w.server_port 65535) ≡ false
    → parse_args env (command_line w) ≡ stop (usage (Fault.invalid_value (str w.server_port)))
unfolding after_options nothing_yet ◌>>=◌
parse_args-port_refused env w messages f h k =
    refused_args env w _ (file_word env messages w.input_file f) (
      ap (λ (m : Parse Progress). m >>= finish env)
        (consume-to_words env w messages f h
          ∙ end_words-refused env w (with_values nothing_yet (after_options w messages)) refl refl
              h.server_ip k))

abbrev pub file_name : Option String → String
file_name v = get_or v "sample_payloads.json"

named_file :
    (env : Env) (name : String) (rest : List Token)
    → env.exists name ≡ false
    → consume env false (option Opt.input_file none ∷ word name ∷ rest) nothing_yet
      ≡ stop (usage (Fault.no_file name))
unfolding consume store_option store read_json_file ◌>>=◌
named_file env name rest h = rw h refl

default_file :
    (env : Env) (w : Wanted)
    → w.input_file ≡ none
    → env.exists "sample_payloads.json" ≡ false
    → finish env (after_words w []) ≡ stop (usage (Fault.no_file "sample_payloads.json"))
unfolding finish after_words after_options nothing_yet read_json_file read_given ◌>>=◌
default_file env w e h = rw e (rw h refl)

-- A server port that is not in the range, where the file is left to the default.
pub parse_args-default_refused :
    (env : Env) (w : Wanted)
    → w.input_file ≡ none
    → AllWords w.input_file
    → IsWritten w
    → (leb 1024 w.server_port && leb w.server_port 65535) ≡ false
    → parse_args env (command_line w) ≡ stop (usage (Fault.invalid_value (str w.server_port)))
unfolding after_options nothing_yet ◌>>=◌
parse_args-default_refused env w e f h k = refused_args env w _ f (
    ap (λ (m : Parse Progress). m >>= finish env)
      (consume-to_words_default env w e h
        ∙ end_words-refused env w (with_values nothing_yet (after_options w [])) refl refl
            h.server_ip k))

-- The file is named, or the port is in the range.
unfoldable InRangeOrNamed : Option String → ℕ → Type 0
InRangeOrNamed none port = IsPort port
InRangeOrNamed (some name) port = Unit

missing :
    (env : Env) (w : Wanted) (v : Option String)
    → w.input_file ≡ v
    → IsWritten w
    → InRangeOrNamed v w.server_port
    → env.exists (file_name v) ≡ false
    → (consume env false (line_tokens w) nothing_yet >>= finish env)
      ≡ stop (usage (Fault.no_file (file_name v)))
unfolding line_tokens write_tokens end_words InRangeOrNamed ◌>>=◌
missing env w none e h k m =
    ap (λ (q : Parse Progress). q >>= finish env)
      (consume-to_words_default env w e h ∙ place_words env w [] h.server_ip k)
    ∙ default_file env w e m
missing env w (some name) e h k m =
    rw e (ap (λ (q : Parse Progress). q >>= finish env) (named_file env name (after_file w) m))

in_range : (n : ℕ) → (leb 1024 n && leb n 65535) ≡ true → IsPort n
unfolding IsPort
in_range n h = (ground arith, ground arith)

no_file :
    (env : Env) (w : Wanted) (v : Option String)
    → w.input_file ≡ v
    → AllWords w.input_file
    → IsWritten w
    → env.exists (file_name v) ≡ false
    → (fault : Fault) × (parse_args env (command_line w) ≡ stop (usage fault))
unfolding InRangeOrNamed
no_file env w none e f h m = elim (Bool-cases (leb 1024 w.server_port && leb w.server_port 65535)) [
  | inl fits ↦ (_, refused_args env w _ f (missing env w none e h (in_range w.server_port fits) m))
  | inr bad ↦ (_, parse_args-default_refused env w e f h bad)
]
no_file env w (some name) e f h m = (_, refused_args env w _ f (missing env w (some name) e h tt m))

-- The command line is refused when the file is missing, whatever the port.
pub parse_args-no_file :
    (env : Env) (w : Wanted)
    → AllWords w.input_file
    → IsWritten w
    → env.exists (file_name w.input_file) ≡ false
    → (fault : Fault) × (parse_args env (command_line w) ≡ stop (usage fault))
parse_args-no_file env w f h m = no_file env w w.input_file refl f h m
