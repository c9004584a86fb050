-- ===== src/UdpClient/Parser/Tokens.antt =====
-- The options that udp_client.py's setup_parser adds, and how argparse tells them from other
-- arguments.
use Prim.Native.Char.{code}
use Prim.Native.String.{◌∷◌ as ◌◁◌}
use text.Mathlib.Text.{starts_with, ◌==◌ as ◌is◌}
use server_client_app.Base.{
  String, Bool, true, false, Option, none, some, List, [], ◌∷◌, map, ◌&&◌, ◌||◌, ◌==◌,
  if◌then◌else◌,
}
use server_client_app.Base.Int.{is_digit}
use server_client_app.Base.Text.{contains, join_lines}
use server_client_app.UdpClient.Port.{min_value, max_value, get_unprivileged_port_meta}

pub data Opt : Type 0 where
  help input_file source_address source_port mode count delay : Opt

-- A call of add_argument for an option: its name, what stands for its argument in the help, and
-- its help text.
pub record Argument : Type 0 where
  pub flag : String
  pub takes : Opt
  pub metavar : Option String
  pub help_text : String

-- textwrap.dedent changes nothing: the lines have no common indentation.
get_mode_help : String
get_mode_help = join_lines (
    "Specifies the mode used for the load generator as following:"
    ∷ "* all_once - send each payload in the list once"
    ∷ "* manual - let you choose which message to send next"
    ∷ "* random - continuously send random payloads from the list" ∷ [])

-- The options, in the order in which they are added.
optional_arguments : List Argument
unfolding get_mode_help
optional_arguments =
    record {
      flag = "--input_file";
      takes = Opt.input_file;
      metavar = some "FILE";
      help_text = "JSON file to read payloads from (default: sample_payloads.json)";
    }
    ∷ record {
      flag = "--source-address";
      takes = Opt.source_address;
      metavar = none;
      help_text = "IP Address to be bind by UDP client (default: unspecified)";
    }
    ∷ record {
      flag = "--source-port";
      takes = Opt.source_port;
      metavar = some (get_unprivileged_port_meta "source-port" min_value max_value);
      help_text = "UDP port to be used as source for this client (default: random port)";
    }
    ∷ record { flag = "--mode"; takes = Opt.mode; metavar = none; help_text = get_mode_help }
    ∷ record {
      flag = "--count";
      takes = Opt.count;
      metavar = none;
      help_text =
          "Number of packets to be send (only used for when mode is random, default: infinity)";
    }
    ∷ record {
      flag = "--delay";
      takes = Opt.delay;
      metavar = none;
      help_text = "Wait time (in ms) between two messages (default: 0)";
    }
    ∷ []

-- The names of the options; argparse adds the one for the help.
unfoldable pub option_strings : List (String × Opt)
unfolding optional_arguments
option_strings = ("--help", Opt.help) ∷ map (λ a. (a.flag, a.takes)) optional_arguments

-- An argument: a word, an option with the text after its "=", one that no option fits, one that
-- several fit, or "--".
pub data Token : Type 0 where
  word : String → Token
  option : Opt → Option String → Token
  unknown : String → Token
  ambiguous : String → Token
  end_mark : Token

unfoldable pub find_option : String → List (String × Opt) → Option Opt
find_option name [] = none
find_option name ((flag, o) ∷ flags) = if name is flag then some o else find_option name flags

-- The option of this name; "-h" is the other name of "--help".
unfoldable pub exact : String → Option Opt
unfolding option_strings find_option
exact name = if name is "-h" then some Opt.help else find_option name option_strings

-- The options whose names begin like this.
candidates : String → List (String × Opt) → List Opt
candidates prefix [] = []
candidates prefix ((flag, o) ∷ flags) =
    let others = candidates prefix flags in if starts_with flag prefix then o ∷ others else others

-- The texts before and after the first "=".
unfoldable pub split_equals : String → Option (String × String)
split_equals Prim.Native.String.[] = none
split_equals (c ◁ s) =
    let later = split_equals s in
    if code c == 61
    then some ("", s)
    else elim later [ none ↦ none | some pair ↦ some (c ◁ pair.0, pair.1) ]

-- Digits to the end, or to the line break at the end; the flag says that there was one.
digits_to_end : Bool → String → Bool
digits_to_end seen Prim.Native.String.[] = seen
digits_to_end seen (c ◁ s) =
    let more = digits_to_end true s in
    if is_digit (code c) then more else seen && code c == 10 && s is ""

-- What follows "-" in a negative number: \d+ or \d*\.\d+
unfoldable pub number_tail : Bool → String → Bool
unfolding digits_to_end
number_tail seen Prim.Native.String.[] = seen
number_tail seen (c ◁ s) =
    let more = number_tail true s in
    if is_digit (code c)
    then more
    else if code c == 46
    then digits_to_end false s
    else seen && code c == 10 && s is ""

-- An argument that begins with "-" and fits no option.
unfoldable pub no_option : String → String → Token
unfolding number_tail
no_option arg rest = if number_tail false rest || contains arg " " then word arg else unknown arg

all_h : String → Bool
all_h Prim.Native.String.[] = true
all_h (c ◁ s) = code c == 104 && all_h s

-- "-h" with more behind it, which can only be more of the same.
help_flag : String → Token
unfolding all_h
help_flag Prim.Native.String.[] = option Opt.help (some "")
help_flag (c ◁ s) = if all_h (c ◁ s) then option Opt.help none else option Opt.help (some (c ◁ s))

by_prefix : String → String → List Opt → Option String → Token
unfolding no_option
by_prefix arg rest [] value = no_option arg rest
by_prefix arg rest (o ∷ []) value = option o value
by_prefix arg rest (o ∷ others) value = ambiguous arg

-- An argument "--…" that is not an option's name: up to "=" it may begin a name.
long_option : String → String → Option (String × String) → Token
unfolding by_prefix candidates option_strings exact
long_option arg rest none = by_prefix arg rest (candidates arg option_strings) none
long_option arg rest (some (name, value)) = elim (exact name) [
  | some o ↦ option o (some value)
  | none ↦ by_prefix arg rest (candidates name option_strings) (some value)
]

-- An argument "-…" that is not an option's name: "-h=…", "-h…", or none.
unfoldable pub short_option : String → String → Option (String × String) → Token
unfolding no_option help_flag
short_option arg Prim.Native.String.[] parts = word arg
short_option arg (c ◁ s) none = if code c == 104 then help_flag s else no_option arg (c ◁ s)
short_option arg (c ◁ s) (some (name, value)) =
    if name is "-h"
    then help_flag value
    else if code c == 104
    then help_flag s
    else no_option arg (c ◁ s)

-- ArgumentParser._parse_optional
unfoldable pub parse_optional : String → Token
unfolding exact long_option short_option split_equals
parse_optional Prim.Native.String.[] = word ""
parse_optional (c ◁ rest) =
    if code c == 45
    then elim (exact (c ◁ rest)) [
      | some o ↦ option o none
      | none ↦
          if starts_with rest "-"
          then long_option (c ◁ rest) rest (split_equals (c ◁ rest))
          else short_option (c ◁ rest) rest (split_equals (c ◁ rest))
    ]
    else word (c ◁ rest)

-- The command line; after "--" there are only words.
unfoldable pub tokens : List String → List Token
unfolding parse_optional
tokens [] = []
tokens (arg ∷ rest) =
    let others = tokens rest in
    if arg is "--" then end_mark ∷ map word rest else parse_optional arg ∷ others
