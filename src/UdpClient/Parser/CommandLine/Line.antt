-- ===== src/UdpClient/Parser/CommandLine/Line.antt =====
-- The tokens of a command line that is written for given options, and what they store.
use mathlib.Core.Option.{map as over}
use server_client_app.Base.{
  ℕ, String, false, Option, none, some, List, [], ◌∷◌, ◌≡◌, refl, ap, ◌∙◌, Every,
}
use server_client_app.Base.Int.{ℤ}
use server_client_app.Base.Text.{str}
use server_client_app.UdpClient.Port.{show_int}
use server_client_app.UdpClient.Client.{Message, Mode}
use server_client_app.UdpClient.Parser.{
  Env, given, Namespace, with_values, consume, first_ambiguous, nothing_yet,
}
use server_client_app.UdpClient.Parser.Tokens.{Opt, Token, word, tokens, parse_optional}
use server_client_app.UdpClient.Parser.Words.{IsWord-dotted, IsWord-str, IsWord-show_int}
use server_client_app.UdpClient.Parser.CommandLine.{
  Address, show_address, IsIpv4, IsPort, show_mode, Wanted, write, command_line, write_tokens,
  AllWords, tokens-word, tokens-write, first_ambiguous-write, Stores, NotHelp, consume-write,
}
use server_client_app.UdpClient.Parser.CommandLine.Stored.{
  with_file, with_address, with_port, FileFits, Stores-file, Stores-address, Stores-port,
  Stores-mode, Stores-count, Stores-delay,
}

-- The addresses and the source port can be written.
pub record IsWritten (w : Wanted) : Type 0 where
  pub source_address : Every IsIpv4 w.source_address
  pub source_port : Every IsPort w.source_port
  pub server_ip : IsIpv4 w.server_ip

pub file_word :
    (env : Env) (messages : List Message) (v : Option String) → FileFits env messages v → AllWords v
unfolding AllWords FileFits
file_word env messages none h = tt
file_word env messages (some name) h = h.0

address_word : (v : Option Address) → AllWords (over show_address v)
unfolding AllWords show_address
address_word none = tt
address_word (some x) = IsWord-dotted x.a x.b x.c x.d

port_word : (v : Option ℕ) → AllWords (over str v)
unfolding AllWords
port_word none = tt
port_word (some n) = IsWord-str n

int_word : (v : Option ℤ) → AllWords (over show_int v)
unfolding AllWords
int_word none = tt
int_word (some z) = IsWord-show_int z

mode_word : (v : Option Mode) → AllWords (over show_mode v)
unfolding AllWords show_mode parse_optional
mode_word none = tt
mode_word (some Mode.all_once) = record { not_mark = refl; reads = refl }
mode_word (some Mode.manual) = record { not_mark = refl; reads = refl }
mode_word (some Mode.random) = record { not_mark = refl; reads = refl }

-- The tokens of the command line.
unfoldable pub after_file : Wanted → List Token
after_file w = write_tokens Opt.source_address (over show_address w.source_address) (
    write_tokens Opt.source_port (over str w.source_port) (
      write_tokens Opt.mode (over show_mode w.mode) (
        write_tokens Opt.count (over show_int w.count) (
          write_tokens Opt.delay (over show_int w.delay)
            (word (show_address w.server_ip) ∷ word (str w.server_port) ∷ [])))))

unfoldable pub line_tokens : Wanted → List Token
unfolding after_file
line_tokens w = write_tokens Opt.input_file w.input_file (after_file w)

write-then :
    (o : Opt) (v : Option String) (rest : List String) (ts : List Token)
    → AllWords v
    → tokens rest ≡ ts
    → tokens (write o v rest) ≡ write_tokens o v ts
write-then o v rest ts h e = tokens-write o v rest h ∙ ap (λ (l : List Token). write_tokens o v l) e

pub tokens-command_line :
    (w : Wanted) → AllWords w.input_file → tokens (command_line w) ≡ line_tokens w
unfolding command_line line_tokens after_file show_address tokens
tokens-command_line w h = write-then _ _ _ _ h (
    write-then _ _ _ _ (address_word w.source_address) (
      write-then _ _ _ _ (port_word w.source_port) (
        write-then _ _ _ _ (mode_word w.mode) (
          write-then _ _ _ _ (int_word w.count) (
            write-then _ _ _ _ (int_word w.delay) (
              tokens-word _ (str w.server_port ∷ [])
                (IsWord-dotted w.server_ip.a w.server_ip.b w.server_ip.c w.server_ip.d)
              ∙ ap (λ (l : List Token). word (show_address w.server_ip) ∷ l)
                  (tokens-word _ [] (IsWord-str w.server_port))))))))

pub line_tokens-unambiguous : (w : Wanted) → first_ambiguous (line_tokens w) ≡ none
unfolding line_tokens after_file first_ambiguous
line_tokens-unambiguous w =
    first_ambiguous-write _ _ _
    ∙ first_ambiguous-write _ _ _
    ∙ first_ambiguous-write _ _ _
    ∙ first_ambiguous-write _ _ _
    ∙ first_ambiguous-write _ _ _
    ∙ first_ambiguous-write _ _ _

-- The values after the options.
unfoldable pub after_options : Wanted → List Message → Namespace
unfolding nothing_yet
after_options w messages =
    let ns =
      with_port w.source_port
        (with_address w.source_address (with_file messages w.input_file nothing_yet.values)) in
    record ns { mode = over given w.mode; count = over given w.count; delay = over given w.delay }

-- The two words at the end.
unfoldable pub end_words : Wanted → List Token
end_words w = word (show_address w.server_ip) ∷ word (str w.server_port) ∷ []

-- The options after the one for the file.
consume-options :
    (env : Env) (w : Wanted) (messages : List Message)
    → IsWritten w
    → consume env false
        (after_file w)
        (with_values nothing_yet (with_file messages w.input_file nothing_yet.values))
      ≡ consume env false (end_words w) (with_values nothing_yet (after_options w messages))
unfolding after_file after_options nothing_yet NotHelp end_words
consume-options env w messages h =
    consume-write env _ _ _ _ _ tt (Stores-address env w.source_address _ h.source_address refl)
    ∙ consume-write env _ _ _ _ _ tt (Stores-port env w.source_port _ h.source_port refl)
    ∙ consume-write env _ _ _ _ _ tt (Stores-mode env w.mode _ refl)
    ∙ consume-write env _ _ _ _ _ tt (Stores-count env w.count _ refl)
    ∙ consume-write env _ _ _ _ _ tt (Stores-delay env w.delay _ refl)

-- All options.
pub consume-to_words :
    (env : Env) (w : Wanted) (messages : List Message)
    → FileFits env messages w.input_file
    → IsWritten w
    → consume env false (line_tokens w) nothing_yet
      ≡ consume env false (end_words w) (with_values nothing_yet (after_options w messages))
unfolding line_tokens nothing_yet NotHelp
consume-to_words env w messages h k =
    consume-write env _ _ _ _ _ tt (Stores-file env messages w.input_file _ h refl)
    ∙ consume-options env w messages k

-- All options, when the one for the file is not there.
pub consume-to_words_default :
    (env : Env) (w : Wanted)
    → w.input_file ≡ none
    → IsWritten w
    → consume env false (line_tokens w) nothing_yet
      ≡ consume env false (end_words w) (with_values nothing_yet (after_options w []))
unfolding line_tokens nothing_yet NotHelp Stores
consume-to_words_default env w e k =
    consume-write env Opt.input_file w.input_file _ nothing_yet
      (with_file [] w.input_file nothing_yet.values) tt (rw e refl)
    ∙ consume-options env w [] k
