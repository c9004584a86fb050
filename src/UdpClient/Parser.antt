-- ===== src/UdpClient/Parser.antt =====
-- udp_client.py: setup_parser, and what argparse (of Python 3.11) makes of its arguments.
--
-- The files and the reading of IPv6 texts are arguments. An error that argparse reports exits
-- with its fault as the value; the wording of the messages and of the help is argparse's own.
--
-- argparse takes a "--" away from the texts of each argument. An argument whose only text it was
-- gets the value [], which no `type=` function has seen. Where parse_args returns such a value,
-- the model stops with `emptied`, and does not say what the program makes of it.
pub mod Tokens
pub mod Words
pub mod CommandLine
pub mod Types
use text.Mathlib.Text.{◌==◌}
use mathlib.Core.List.{◌++◌ as append}
use mathlib.Core.Option.{get_or}
use server_client_app.Base.{
  String, Bool, true, false, ◌&&◌, Option, none, some, List, [], ◌∷◌, if◌then◌else◌, Exn, Result,
  ok, raised, or_raise,
}
use server_client_app.Base.Int.{ℤ, pos, parse_int}
use server_client_app.UdpClient.Ip.{ip_address}
use server_client_app.UdpClient.Port.{port_type}
use server_client_app.UdpClient.Client.{Message, Mode, Args}
use Tokens.{Opt, Token, word, option, unknown, ambiguous, end_mark, tokens}

-- The machine: os.path.exists, the reading of a JSON file of entries, and IPv6 texts.
pub record Env : Type 0 where
  pub exists : String → Bool
  pub load : String → Result (List Message)
  pub ipv6 : String → Option String

pub data Fault : Type 0 where
  no_file invalid_value invalid_choice ambiguous_option ignored_argument : String → Fault
  expected_argument : Opt → Fault
  unrecognized : List String → Fault
  missing_argument : Fault

-- How the parser stops the program: the help, an error of the command line, or an exception.
pub data Stop : Type 0 where
  helped : Stop
  usage : Fault → Stop
  crashed : Exn → Stop
  -- parse_args returns, with the value [] for an argument.
  emptied : Stop

pub data Parse (A : Type 0) : Type 0 where
  done : A → Parse A
  stop : Stop → Parse A

infixl 5 ◌>>=◌
unfoldable pub ◌>>=◌ : {A B : Type 0} → Parse A → (A → Parse B) → Parse B
done a >>= f = f a
stop s >>= f = stop s

-- The value of an argument: that of its text, or [].
pub data Value (A : Type 0) : Type 0 where
  given : A → Value A
  empty_list : Value A

-- What was parsed so far; `none` where the default still stands.
pub record Namespace : Type 0 where
  pub input_file : Option (Value (List Message))
  pub server_ip : Option String
  pub server_port : Option (Value ℤ)
  pub source_address : Option (Value String)
  pub source_port : Option (Value ℤ)
  pub mode : Option (Value Mode)
  pub count : Option (Value ℤ)
  pub delay : Option (Value ℤ)

-- parse_args's value: what the modes read, and the address to bind.
pub record ParsedArgs : Type 0 where
  pub client : Args
  pub source_address : String
  pub source_port : ℤ

-- A `type=` function is called: its ValueError is an error of the command line.
unfoldable pub typed : {A : Type 0} → String → Result A → Parse A
typed arg (ok a) = done a
typed arg (raised (Exn.value_error message)) = stop (usage (Fault.invalid_value arg))
typed arg (raised e) = stop (crashed e)

abbrev pub refused : Exn
refused = Exn.value_error ""

unfoldable pub read_json_file : Env → String → Parse (List Message)
read_json_file env arg =
    if env.exists arg then typed arg (env.load arg) else stop (usage (Fault.no_file arg))

unfoldable pub read_address : Env → String → Parse String
read_address env arg = typed arg (or_raise (ip_address env.ipv6 arg) refused)

unfoldable pub read_port : String → Parse ℤ
read_port arg = typed arg (port_type arg)

unfoldable pub read_int : String → Parse ℤ
read_int arg = typed arg (or_raise (parse_int arg) refused)

-- choices=('all_once', 'manual', 'random')
unfoldable pub read_mode : String → Parse Mode
read_mode arg =
    if arg == "all_once"
    then done Mode.all_once
    else if arg == "manual"
    then done Mode.manual
    else if arg == "random"
    then done Mode.random
    else stop (usage (Fault.invalid_choice arg))

-- An option takes its argument.
unfoldable pub store : Env → Opt → String → Namespace → Parse Namespace
unfolding read_json_file read_address read_port read_int read_mode ◌>>=◌
store env Opt.help arg ns = stop (usage (Fault.ignored_argument arg))
store env Opt.input_file arg ns =
    read_json_file env arg >>= λ v. done (record ns { input_file = some (given v) })
store env Opt.source_address arg ns =
    read_address env arg >>= λ v. done (record ns { source_address = some (given v) })
store env Opt.source_port arg ns =
    read_port arg >>= λ v. done (record ns { source_port = some (given v) })
store env Opt.mode arg ns = read_mode arg >>= λ v. done (record ns { mode = some (given v) })
store env Opt.count arg ns = read_int arg >>= λ v. done (record ns { count = some (given v) })
store env Opt.delay arg ns = read_int arg >>= λ v. done (record ns { delay = some (given v) })

-- What the loop over the command line keeps: the values, and the arguments that nothing takes.
pub record Progress : Type 0 where
  pub values : Namespace
  pub extras : List String

abbrev extra : Progress → String → Progress
extra p arg = record p { extras = append p.extras (arg ∷ []) }

abbrev pub with_values : Progress → Namespace → Progress
with_values p ns = record p { values = ns }

-- A positional argument: server_ip, then server_port, then nothing takes it. The flag says that
-- it stands behind another one. A "--" that is no end mark stands behind the mark; server_ip
-- takes the mark with it, and so does server_port, unless server_ip has taken it already.
unfoldable pub place_at :
    Option String → Option (Value ℤ) → Env → Bool → String → Progress → Parse Progress
unfolding read_address read_port ◌>>=◌
place_at none port env after arg p =
    read_address env arg >>= λ v. done (with_values p (record p.values { server_ip = some v }))
place_at (some ip) none env after arg p =
    if after && arg == "--"
    then done (with_values p (record p.values { server_port = some empty_list }))
    else (read_port arg >>= λ v.
        done (with_values p (record p.values { server_port = some (given v) })))
place_at (some ip) (some port) env after arg p = done (extra p arg)

unfoldable pub place : Env → Bool → String → Progress → Parse Progress
unfolding place_at
place env after arg p = place_at p.values.server_ip p.values.server_port env after arg p

unfoldable pub store_option : Env → Opt → String → Progress → Parse Progress
unfolding store ◌>>=◌
store_option env o arg p = store env o arg p.values >>= λ ns. done (with_values p ns)

-- The option has the value [].
unfoldable pub empty : Opt → Namespace → Namespace
empty Opt.help ns = ns
empty Opt.input_file ns = record ns { input_file = some empty_list }
empty Opt.source_address ns = record ns { source_address = some empty_list }
empty Opt.source_port ns = record ns { source_port = some empty_list }
empty Opt.mode ns = record ns { mode = some empty_list }
empty Opt.count ns = record ns { count = some empty_list }
empty Opt.delay ns = record ns { delay = some empty_list }

-- An option takes the text behind its "=".
unfoldable pub store_explicit : Env → Opt → String → Progress → Parse Progress
unfolding store_option empty
store_explicit env Opt.help arg p = store_option env Opt.help arg p
store_explicit env o arg p =
    if arg == "--" then done (with_values p (empty o p.values)) else store_option env o arg p

-- "--" belongs to the positional arguments beside it. When they are complete and it does not
-- follow them at once, nothing takes it.
unfoldable pub mark_end : Bool → Option (Value ℤ) → Progress → Progress
mark_end true port p = p
mark_end false none p = p
mark_end false (some port) p = extra p "--"

-- A positional argument is left to take a word.
unfoldable pub is_open : Option (Value ℤ) → Bool
is_open none = true
is_open (some port) = false

-- The loop over the command line. The flag says that a positional argument has taken the last
-- text, and stays as it is at the mark.
unfoldable pub consume : Env → Bool → List Token → Progress → Parse Progress
unfolding place store_option store_explicit mark_end is_open ◌>>=◌
consume env after [] p = done p
consume env after (word arg ∷ rest) p =
    place env after arg p >>= λ q. consume env (is_open p.values.server_port) rest q
consume env after (unknown arg ∷ rest) p = consume env false rest (extra p arg)
consume env after (ambiguous arg ∷ rest) p = stop (usage (Fault.ambiguous_option arg))
consume env after (end_mark ∷ rest) p =
    consume env after rest (mark_end after p.values.server_port p)
consume env after (option Opt.help none ∷ rest) p = stop helped
consume env after (option o (some arg) ∷ rest) p =
    store_explicit env o arg p >>= λ q. consume env false rest q
consume env after (option o none ∷ word arg ∷ rest) p =
    store_option env o arg p >>= λ q. consume env false rest q
consume env after (option o none ∷ rest) p = stop (usage (Fault.expected_argument o))

unfoldable pub nothing_yet : Progress
nothing_yet = record {
  values = record {
    input_file = none;
    server_ip = none;
    server_port = none;
    source_address = none;
    source_port = none;
    mode = none;
    count = none;
    delay = none;
  };
  extras = [];
}

abbrev pub or_default : {A : Type 0} → Option A → Parse A → Parse A
or_default none m = m
or_default (some a) m = done a

unfoldable pub required : {A : Type 0} → Option A → Parse A
required none = stop (usage Fault.missing_argument)
required (some a) = done a

unfoldable pub no_extras : List String → Parse Unit
no_extras [] = done tt
no_extras (arg ∷ args) = stop (usage (Fault.unrecognized (arg ∷ args)))

-- A value that is not [].
unfoldable pub proper : {A : Type 0} → Value A → Parse A
proper (given a) = done a
proper empty_list = stop Stop.emptied

unfoldable pub proper_if_any : {A : Type 0} → Option (Value A) → Parse (Option A)
proper_if_any none = done none
proper_if_any (some (given a)) = done (some a)
proper_if_any (some empty_list) = stop Stop.emptied

-- What parse_args returns.
unfoldable pub returned :
    Namespace → Value (List Message) → Value String → String → Value ℤ → Parse ParsedArgs
unfolding proper proper_if_any ◌>>=◌
returned ns file address server_ip port = do
  input_file ← proper file
  source_address ← proper address
  server_port ← proper port
  source_port ← proper (get_or ns.source_port (given (pos 0)))
  mode ← proper (get_or ns.mode (given Mode.all_once))
  count ← proper_if_any ns.count
  delay ← proper (get_or ns.delay (given (pos 0)))
  done (record {
    client = record {
      input_file = input_file;
      server_ip = server_ip;
      server_port = server_port;
      mode = mode;
      count = count;
      delay = delay;
    };
    source_address = source_address;
    source_port = source_port;
  })

unfoldable pub read_given : {A : Type 0} → Parse A → Parse (Value A)
unfolding ◌>>=◌
read_given m = m >>= λ v. done (given v)

-- The defaults, which are converted when they are texts, and the arguments that must be there.
unfoldable pub finish : Env → Progress → Parse ParsedArgs
unfolding read_json_file read_address required no_extras returned read_given ◌>>=◌
finish env p = do
  input_file ←
      or_default p.values.input_file (read_given (read_json_file env "sample_payloads.json"))
  source_address ← or_default p.values.source_address (read_given (read_address env "0.0.0.0"))
  server_ip ← required p.values.server_ip
  server_port ← required p.values.server_port
  nothing ← no_extras p.extras
  returned p.values input_file source_address server_ip server_port

-- An option that fits several names is refused before any argument is taken.
unfoldable pub first_ambiguous : List Token → Option String
first_ambiguous [] = none
first_ambiguous (ambiguous arg ∷ rest) = some arg
first_ambiguous (word arg ∷ rest) = first_ambiguous rest
first_ambiguous (unknown arg ∷ rest) = first_ambiguous rest
first_ambiguous (option o v ∷ rest) = first_ambiguous rest
first_ambiguous (end_mark ∷ rest) = first_ambiguous rest

unfoldable pub unless_ambiguous : {A : Type 0} → Option String → Parse A → Parse A
unless_ambiguous none m = m
unless_ambiguous (some arg) m = stop (usage (Fault.ambiguous_option arg))

unfoldable pub parse_tokens : Env → List Token → Parse ParsedArgs
unfolding first_ambiguous unless_ambiguous consume finish nothing_yet ◌>>=◌
parse_tokens env ts =
    unless_ambiguous (first_ambiguous ts) (consume env false ts nothing_yet >>= finish env)

-- setup_parser().parse_args(argv)
unfoldable pub parse_args : Env → List String → Parse ParsedArgs
unfolding parse_tokens tokens
parse_args env argv = parse_tokens env (tokens argv)
