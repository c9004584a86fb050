-- ===== src/UdpClient/Parser/CommandLine/RoundTrip.antt =====
-- A command line is parsed into the options that it was written for.
use mathlib.Core.Option.{map as over, get_or}
use server_client_app.Base.{String, false, Option, none, some, List, [], ◌∷◌, ◌≡◌, refl, ap, ◌∙◌}
use server_client_app.Base.Int.{pos}
use server_client_app.Base.Text.{str}
use server_client_app.UdpClient.Ip.{dotted, ip_address, ipv4_address}
use server_client_app.UdpClient.Client.{Message, Mode}
use server_client_app.UdpClient.Parser.Words.{IsWord-str}
use server_client_app.UdpClient.Parser.{
  Env, Parse, done, ParsedArgs, Progress, with_values, place, place_at, is_open, given, proper,
  proper_if_any, read_given, returned, consume, finish, parse_tokens, parse_args, read_address,
  read_json_file, typed, nothing_yet, unless_ambiguous, or_default, ◌>>=◌, required, no_extras,
}
use server_client_app.UdpClient.Parser.Tokens.{word}
use server_client_app.UdpClient.Parser.CommandLine.{
  Address, show_address, IsIpv4, IsPort, Wanted, command_line,
}
use server_client_app.UdpClient.Parser.CommandLine.Stored.{
  FileFits, read_address-show, read_port-str,
}
use server_client_app.UdpClient.Parser.CommandLine.Line.{
  IsWritten, file_word, line_tokens, tokens-command_line, line_tokens-unambiguous, after_options,
  end_words, consume-to_words,
}

-- And the server's port is one, and the machine has the file.
pub record Fits (env : Env) (w : Wanted) (messages : List Message) : Type 0 where
  pub file : FileFits env messages w.input_file
  pub written : IsWritten w
  pub server_port : IsPort w.server_port

-- What is asked for, with the defaults.
unfoldable pub wanted_args : Wanted → List Message → ParsedArgs
wanted_args w messages = record {
  client = record {
    input_file = messages;
    server_ip = show_address w.server_ip;
    server_port = pos w.server_port;
    mode = get_or w.mode Mode.all_once;
    count = w.count;
    delay = get_or w.delay (pos 0);
  };
  source_address = get_or (over show_address w.source_address) "0.0.0.0";
  source_port = get_or (over pos w.source_port) (pos 0);
}

unfoldable pub after_words : Wanted → List Message → Progress
unfolding nothing_yet after_options
after_words w messages = record nothing_yet {
  values = record (after_options w messages) {
    server_ip = some (show_address w.server_ip);
    server_port = some (given (pos w.server_port));
  };
}

pub place_words :
    (env : Env) (w : Wanted) (messages : List Message)
    → IsIpv4 w.server_ip
    → IsPort w.server_port
    → consume env false
        (word (show_address w.server_ip) ∷ word (str w.server_port) ∷ [])
        (with_values nothing_yet (after_options w messages))
      ≡ done (after_words w messages)
unfolding consume place place_at is_open nothing_yet after_options after_words ◌>>=◌
place_words env w messages h k =
    rw (read_address-show env w.server_ip h)
      (rw (IsWord-str w.server_port).not_mark (rw (read_port-str w.server_port k) refl))

consume-line_tokens :
    (env : Env) (w : Wanted) (messages : List Message)
    → Fits env w messages
    → consume env false (line_tokens w) nothing_yet ≡ done (after_words w messages)
unfolding end_words
consume-line_tokens env w messages h =
    consume-to_words env w messages h.file h.written
    ∙ place_words env w messages h.written.server_ip h.server_port

file_default :
    (env : Env) (messages : List Message) (v : Option String)
    → FileFits env messages v
    → or_default
        (over (λ _. given messages) v)
        (read_given (read_json_file env "sample_payloads.json"))
      ≡ done (given messages)
unfolding FileFits read_given ◌>>=◌ read_json_file typed
file_default env messages none h = rw (h.0) (rw (h.1) refl)
file_default env messages (some name) h = refl

address_default :
    (env : Env) (v : Option Address)
    → or_default (over (λ x. given (show_address x)) v) (read_given (read_address env "0.0.0.0"))
      ≡ done (given (get_or (over show_address v) "0.0.0.0"))
unfolding read_given ◌>>=◌ read_address typed ip_address ipv4_address dotted str
address_default env none = refl
address_default env (some x) = refl

proper_default :
    {A B : Type 0} (f : A → B) (v : Option A) (d : B)
    → proper (get_or (over (λ a. given (f a)) v) (given d)) ≡ done (get_or (over f v) d)
unfolding proper
proper_default f none d = refl
proper_default f (some a) d = refl

proper_value :
    {A : Type 0} (v : Option A) (d : A)
    → proper (get_or (over given v) (given d)) ≡ done (get_or v d)
unfolding proper
proper_value none d = refl
proper_value (some a) d = refl

proper_if_given : {A : Type 0} (v : Option A) → proper_if_any (over given v) ≡ done v
unfolding proper_if_any
proper_if_given none = refl
proper_if_given (some a) = refl

finish-after_words :
    (env : Env) (w : Wanted) (messages : List Message)
    → FileFits env messages w.input_file
    → finish env (after_words w messages) ≡ done (wanted_args w messages)
unfolding finish after_words after_options nothing_yet required no_extras wanted_args returned
    proper ◌>>=◌
finish-after_words env w messages h = rw (file_default env messages w.input_file h) (
    rw (address_default env w.source_address) (
      rw (proper_default pos w.source_port (pos 0)) (
        rw (proper_value w.mode Mode.all_once)
          (rw (proper_if_given w.count) (rw (proper_value w.delay (pos 0)) refl)))))

-- A command line that is written for given options, with IPv4 addresses, ports in the range,
-- and a file that is there and whose name is no option, is parsed into these options, with the
-- defaults for those that it leaves out.
pub parse_args-command_line :
    (env : Env) (w : Wanted) (messages : List Message)
    → Fits env w messages
    → parse_args env (command_line w) ≡ done (wanted_args w messages)
unfolding parse_args parse_tokens unless_ambiguous ◌>>=◌
parse_args-command_line env w messages h =
    ap (parse_tokens env) (tokens-command_line w (file_word env messages w.input_file h.file))
    ∙ ap
        (λ (o : Option String).
          unless_ambiguous o (consume env false (line_tokens w) nothing_yet >>= finish env))
        (line_tokens-unambiguous w)
    ∙ ap (λ (m : Parse Progress). m >>= finish env) (consume-line_tokens env w messages h)
    ∙ finish-after_words env w messages h.file
