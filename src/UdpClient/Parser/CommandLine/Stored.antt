-- ===== src/UdpClient/Parser/CommandLine/Stored.antt =====
-- What each option of a command line stores.
use mathlib.Core.Option.{map as over}
use server_client_app.Base.{
  ℕ, suc, String, true, Option, none, some, List, ◌≡◌, refl, ap, ok, or_raise, Every, le→leb,
}
use server_client_app.Base.Int.{ℤ, pos, negsuc, parse_int}
use server_client_app.Base.Int.Decimal.{parse_int-str, parse_int-minus}
use server_client_app.Base.Text.{str}
use server_client_app.UdpClient.Ip.Laws.{ip_address-dotted}
use server_client_app.UdpClient.Port.{show_int}
use server_client_app.UdpClient.Port.Laws.{port-str}
use server_client_app.UdpClient.Client.{Message, Mode}
use server_client_app.UdpClient.Parser.{
  Env, Value, given, done, Namespace, store, read_address, refused, read_port, read_int, read_mode,
  read_json_file, typed, ◌>>=◌,
}
use server_client_app.UdpClient.Parser.Tokens.{Opt}
use server_client_app.UdpClient.Parser.Words.{IsWord}
use server_client_app.UdpClient.Parser.CommandLine.{
  Address, show_address, IsIpv4, IsPort, show_mode, Stores,
}

-- The values after each option of the command line.
module _ (messages : List Message) where
  abbrev pub with_file : Option String → Namespace → Namespace
  with_file v ns = record ns { input_file = over (λ _. given messages) v }

abbrev pub with_address : Option Address → Namespace → Namespace
with_address v ns = record ns { source_address = over (λ x. given (show_address x)) v }

abbrev pub with_port : Option ℕ → Namespace → Namespace
with_port v ns = record ns { source_port = over (λ n. given (pos n)) v }

unfoldable pub FileFits : Env → List Message → Option String → Type 0
FileFits env messages none =
    (env.exists "sample_payloads.json" ≡ true) × (env.load "sample_payloads.json" ≡ ok messages)
FileFits env messages (some name) =
    IsWord name × (env.exists name ≡ true) × (env.load name ≡ ok messages)

pub read_address-show :
    (env : Env) (x : Address) → IsIpv4 x → read_address env (show_address x) ≡ done (show_address x)
unfolding read_address show_address typed IsIpv4
read_address-show env x h =
    ap (λ (o : Option String). typed (show_address x) (or_raise o refused))
      (ip_address-dotted env.ipv6 x.a x.b x.c x.d h.0 h.1 h.2 h.3)

pub read_port-str : (n : ℕ) → IsPort n → read_port (str n) ≡ done (pos n)
unfolding read_port typed IsPort
read_port-str n h = rw (port-str n) (rw (le→leb 1024 n h.0) (rw (le→leb n 65535 h.1) refl))

pub parse_int-show_int : (z : ℤ) → parse_int (show_int z) ≡ some z
unfolding show_int
parse_int-show_int (pos n) = parse_int-str n
parse_int-show_int (negsuc n) = parse_int-minus (suc n)

pub read_int-show : (z : ℤ) → read_int (show_int z) ≡ done z
unfolding read_int typed
read_int-show z = rw (parse_int-show_int z) refl

pub read_mode-show : (m : Mode) → read_mode (show_mode m) ≡ done m
unfolding read_mode show_mode
read_mode-show Mode.all_once = refl
read_mode-show Mode.manual = refl
read_mode-show Mode.random = refl

pub Stores-file :
    (env : Env) (messages : List Message) (v : Option String) (ns : Namespace)
    → FileFits env messages v
    → ns.input_file ≡ none
    → Stores env Opt.input_file v ns (with_file messages v ns)
unfolding Stores store read_json_file typed FileFits ◌>>=◌
Stores-file env messages none ns h e =
    ap (λ (v : Option (Value (List Message))). record ns { input_file = v }) e
Stores-file env messages (some name) ns h e = rw (h.1) (rw (h.2) refl)

pub Stores-address :
    (env : Env) (v : Option Address) (ns : Namespace)
    → Every IsIpv4 v
    → ns.source_address ≡ none
    → Stores env Opt.source_address (over show_address v) ns (with_address v ns)
unfolding Stores store ◌>>=◌
Stores-address env none ns h e =
    ap (λ (v : Option (Value String)). record ns { source_address = v }) e
Stores-address env (some x) ns h e = rw (read_address-show env x h) refl

pub Stores-port :
    (env : Env) (v : Option ℕ) (ns : Namespace)
    → Every IsPort v
    → ns.source_port ≡ none
    → Stores env Opt.source_port (over str v) ns (with_port v ns)
unfolding Stores store ◌>>=◌
Stores-port env none ns h e = ap (λ (v : Option (Value ℤ)). record ns { source_port = v }) e
Stores-port env (some n) ns h e = rw (read_port-str n h) refl

pub Stores-mode :
    (env : Env) (v : Option Mode) (ns : Namespace)
    → ns.mode ≡ none
    → Stores env Opt.mode (over show_mode v) ns (record ns { mode = over given v })
unfolding Stores store ◌>>=◌
Stores-mode env none ns e = ap (λ (v : Option (Value Mode)). record ns { mode = v }) e
Stores-mode env (some m) ns e = rw (read_mode-show m) refl

pub Stores-count :
    (env : Env) (v : Option ℤ) (ns : Namespace)
    → ns.count ≡ none
    → Stores env Opt.count (over show_int v) ns (record ns { count = over given v })
unfolding Stores store ◌>>=◌
Stores-count env none ns e = ap (λ (v : Option (Value ℤ)). record ns { count = v }) e
Stores-count env (some z) ns e = rw (read_int-show z) refl

pub Stores-delay :
    (env : Env) (v : Option ℤ) (ns : Namespace)
    → ns.delay ≡ none
    → Stores env Opt.delay (over show_int v) ns (record ns { delay = over given v })
unfolding Stores store ◌>>=◌
Stores-delay env none ns e = ap (λ (v : Option (Value ℤ)). record ns { delay = v }) e
Stores-delay env (some z) ns e = rw (read_int-show z) refl
