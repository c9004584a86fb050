-- ===== src/UdpClient/Parser/CommandLine.antt =====
-- A command line that is written for given options is parsed into these options.
pub mod Stored
pub mod Line
pub mod RoundTrip
pub mod Refused
use mathlib.Core.Option.{map as over, get_or}
use server_client_app.Base.{
  ℕ, ◌<◌, ◌≤◌, suc, String, Bool, true, false, Option, none, some, List, [], ◌∷◌, map, ◌≡◌, refl,
  ap, ◌∙◌, Result, ok, arith, leb, le→leb,
}
use server_client_app.Base.Int.{ℤ, pos, negsuc, parse_int}
use server_client_app.Base.Int.Decimal.{parse_int-str, parse_int-minus}
use server_client_app.Base.Text.{str}
use server_client_app.UdpClient.Ip.{dotted, ip_address, ipv4_address}
use server_client_app.UdpClient.Ip.Laws.{ipv4_address-dotted}
use server_client_app.UdpClient.Port.{show_int, port_type, unprivileged_port_type}
use server_client_app.UdpClient.Port.Laws.{port-str}
use server_client_app.UdpClient.Client.{Message, Mode, Args}
use server_client_app.UdpClient.Parser.{
  Env, Parse, done, Namespace, ParsedArgs, Progress, with_values, store, place, store_option,
  consume, finish, first_ambiguous, parse_tokens, parse_args, read_address, read_port, read_int,
  read_mode, read_json_file, typed, nothing_yet, or_default, ◌>>=◌, required, no_extras,
}
use server_client_app.UdpClient.Parser.Tokens.{
  Opt, Token, word, option, tokens, parse_optional, exact, option_strings, find_option,
}
use server_client_app.UdpClient.Parser.Words.{IsWord, IsWord-dotted, IsWord-str, IsWord-show_int}

pub record Address : Type 0 where
  pub a : ℕ
  pub b : ℕ
  pub c : ℕ
  pub d : ℕ

unfoldable pub show_address : Address → String
show_address x = dotted x.a x.b x.c x.d

unfoldable pub IsIpv4 : Address → Type 0
IsIpv4 x = (x.a < 256) × (x.b < 256) × (x.c < 256) × (x.d < 256)

unfoldable pub IsPort : ℕ → Type 0
IsPort n = (1024 ≤ n) × (n ≤ 65535)

unfoldable pub show_mode : Mode → String
show_mode Mode.all_once = "all_once"
show_mode Mode.manual = "manual"
show_mode Mode.random = "random"

-- What a command line asks for; `none` where it leaves the default.
pub record Wanted : Type 0 where
  pub input_file : Option String
  pub source_address : Option Address
  pub source_port : Option ℕ
  pub mode : Option Mode
  pub count : Option ℤ
  pub delay : Option ℤ
  pub server_ip : Address
  pub server_port : ℕ

abbrev flag : Opt → String
flag Opt.help = "--help"
flag Opt.input_file = "--input_file"
flag Opt.source_address = "--source-address"
flag Opt.source_port = "--source-port"
flag Opt.mode = "--mode"
flag Opt.count = "--count"
flag Opt.delay = "--delay"

-- An option with its argument, before the rest of the command line.
unfoldable pub write : Opt → Option String → List String → List String
write o none rest = rest
write o (some arg) rest = flag o ∷ arg ∷ rest

unfoldable pub command_line : Wanted → List String
unfolding write
command_line w = write Opt.input_file w.input_file (
    write Opt.source_address (over show_address w.source_address) (
      write Opt.source_port (over str w.source_port) (
        write Opt.mode (over show_mode w.mode) (
          write Opt.count (over show_int w.count) (
            write Opt.delay (over show_int w.delay)
              (show_address w.server_ip ∷ str w.server_port ∷ []))))))

-- The same on tokens.
unfoldable pub write_tokens : Opt → Option String → List Token → List Token
write_tokens o none rest = rest
write_tokens o (some arg) rest = option o none ∷ word arg ∷ rest

unfoldable pub AllWords : Option String → Type 0
AllWords none = Unit
AllWords (some arg) = IsWord arg

pub tokens-word :
    (arg : String) (rest : List String) → IsWord arg → tokens (arg ∷ rest) ≡ word arg ∷ tokens rest
unfolding tokens
tokens-word arg rest h = rw h.not_mark (rw h.reads refl)

tokens-flag : (o : Opt) (rest : List String) → tokens (flag o ∷ rest) ≡ option o none ∷ tokens rest
unfolding tokens parse_optional exact option_strings find_option
tokens-flag Opt.help rest = refl
tokens-flag Opt.input_file rest = refl
tokens-flag Opt.source_address rest = refl
tokens-flag Opt.source_port rest = refl
tokens-flag Opt.mode rest = refl
tokens-flag Opt.count rest = refl
tokens-flag Opt.delay rest = refl

pub tokens-write :
    (o : Opt) (v : Option String) (rest : List String)
    → AllWords v
    → tokens (write o v rest) ≡ write_tokens o v (tokens rest)
unfolding write write_tokens AllWords
tokens-write o none rest h = refl
tokens-write o (some arg) rest h =
    tokens-flag o (arg ∷ rest) ∙ ap (λ (l : List Token). option o none ∷ l) (tokens-word arg rest h)

pub first_ambiguous-write :
    (o : Opt) (v : Option String) (rest : List Token)
    → first_ambiguous (write_tokens o v rest) ≡ first_ambiguous rest
unfolding first_ambiguous write_tokens
first_ambiguous-write o none rest = refl
first_ambiguous-write o (some arg) rest = refl

-- What storing an option that may be absent makes of the values.
unfoldable pub Stores : Env → Opt → Option String → Namespace → Namespace → Type 0
Stores env o none ns next = ns ≡ next
Stores env o (some arg) ns next = store env o arg ns ≡ done next

unfoldable pub NotHelp : Opt → Type 0
NotHelp Opt.help = ⊥
NotHelp _ = Unit

consume-option :
    (env : Env) (o : Opt) (arg : String) (rest : List Token) (p : Progress)
    → NotHelp o
    → consume env false (option o none ∷ word arg ∷ rest) p
      ≡ (store_option env o arg p >>= λ q. consume env false rest q)
unfolding consume NotHelp
consume-option env Opt.help arg rest p h = absurd h
consume-option env Opt.input_file arg rest p h = refl
consume-option env Opt.source_address arg rest p h = refl
consume-option env Opt.source_port arg rest p h = refl
consume-option env Opt.mode arg rest p h = refl
consume-option env Opt.count arg rest p h = refl
consume-option env Opt.delay arg rest p h = refl

pub consume-write :
    (env : Env) (o : Opt) (v : Option String) (rest : List Token) (p : Progress) (next : Namespace)
    → NotHelp o
    → Stores env o v p.values next
    → consume env false (write_tokens o v rest) p ≡ consume env false rest (with_values p next)
unfolding write_tokens Stores store_option ◌>>=◌
consume-write env o none rest p next n h =
    ap (λ (ns : Namespace). consume env false rest (with_values p ns)) h
consume-write env o (some arg) rest p next n h = consume-option env o arg rest p n ∙ rw h refl
