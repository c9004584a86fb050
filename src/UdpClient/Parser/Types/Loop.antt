-- ===== src/UdpClient/Parser/Types/Loop.antt =====
-- The loop over the command line keeps the types, and so does the end of the parse.
use mathlib.Core.Option.{get_or}
use text.Mathlib.Text.{◌==◌}
use server_client_app.Base.{
  String, Bool, true, false, ◌&&◌, Option, none, some, List, [], ◌∷◌, ◌≡◌, refl, Every, ◌⊎◌, inl,
  inr,
}
use server_client_app.Base.Int.{ℤ, pos}
use server_client_app.UdpClient.Parser.{
  empty, Namespace, Value, given, empty_list, proper, proper_if_any, read_given, returned, stop,
  ◌>>=◌,
}
use server_client_app.Base.{if◌then◌else◌}
use server_client_app.UdpClient.Parser.{
  Env, Parse, done, ParsedArgs, Progress, place, place_at, store_option, store_explicit, consume,
  mark_end, finish, parse_tokens, parse_args, read_address, read_port, nothing_yet,
  unless_ambiguous, or_default, required, no_extras,
}
use server_client_app.UdpClient.Parser.Tokens.{
  Opt, Token, word, option, unknown, ambiguous, end_mark, tokens,
}
use server_client_app.UdpClient.Client.{Message, Mode}
use server_client_app.UdpClient.Parser.Types.{
  Gives, Gives-bind, Gives-at, IsAddress, IsFile, IsUnprivileged, read_address-Gives,
  read_port-Gives, read_json_file-Gives, Any, anything, AreTyped, Holds, OnValue,
  store_option-Gives,
}

Gives-if :
    {A : Type 0} (P : A → Type 0) (b : Bool) (m n : Parse A)
    → Gives P m
    → Gives P n
    → Gives P (if b then m else n)
Gives-if P true m n h k = h
Gives-if P false m n h k = k

place_at-Gives :
    (ip : Option String) (port : Option (Value ℤ)) (env : Env) (after : Bool) (arg : String)
    (p : Progress)
    → Holds env p
    → Gives (Holds env) (place_at ip port env after arg p)
unfolding place_at Holds AreTyped OnValue Gives
place_at-Gives none port env after arg p h =
    Gives-bind (IsAddress env) (Holds env) (read_address env arg) _ (read_address-Gives env arg)
      (λ v k. (h.0, k, h.2, h.3, h.4))
place_at-Gives (some ip) none env after arg p h =
    Gives-if (Holds env) (after && arg == "--") _ _ (h.0, h.1, tt, h.3, h.4)
      (Gives-bind IsUnprivileged (Holds env) (read_port arg) _ (read_port-Gives arg)
        (λ v k. (h.0, h.1, k, h.3, h.4)))
place_at-Gives (some ip) (some port) env after arg p h = h

empty-AreTyped :
    (env : Env) (o : Opt) (ns : Namespace) → AreTyped env ns → AreTyped env (empty o ns)
unfolding empty AreTyped OnValue
empty-AreTyped env Opt.help ns h = h
empty-AreTyped env Opt.input_file ns h = (tt, h.1, h.2, h.3, h.4)
empty-AreTyped env Opt.source_address ns h = (h.0, h.1, h.2, tt, h.4)
empty-AreTyped env Opt.source_port ns h = (h.0, h.1, h.2, h.3, tt)
empty-AreTyped env Opt.mode ns h = h
empty-AreTyped env Opt.count ns h = h
empty-AreTyped env Opt.delay ns h = h

store_explicit-Gives :
    (env : Env) (o : Opt) (arg : String) (p : Progress)
    → Holds env p
    → Gives (Holds env) (store_explicit env o arg p)
unfolding store_explicit Holds Gives
store_explicit-Gives env Opt.help arg p h = store_option-Gives env Opt.help arg p h
store_explicit-Gives env o arg p h =
    Gives-if (Holds env) (arg == "--") _ _ (empty-AreTyped env o p.values h)
      (store_option-Gives env o arg p h)

mark_end-Holds :
    (env : Env) (after : Bool) (port : Option (Value ℤ)) (p : Progress)
    → Holds env p
    → Holds env (mark_end after port p)
unfolding mark_end Holds
mark_end-Holds env true port p h = h
mark_end-Holds env false none p h = h
mark_end-Holds env false (some port) p h = h

consume-Gives :
    (env : Env) (after : Bool) (ts : List Token) (p : Progress)
    → Holds env p
    → Gives (Holds env) (consume env after ts p)
unfolding consume place Gives Holds
consume-Gives env after [] p h = h
consume-Gives env after (word arg ∷ rest) p h =
    Gives-bind (Holds env) (Holds env) (place env after arg p) _
      (place_at-Gives _ _ env after arg p h) (λ q k. consume-Gives env _ rest q k)
consume-Gives env after (unknown arg ∷ rest) p h = consume-Gives env false rest _ h
consume-Gives env after (ambiguous arg ∷ rest) p h = tt
consume-Gives env after (end_mark ∷ rest) p h =
    consume-Gives env after rest _ (mark_end-Holds env after _ p h)
consume-Gives env after (option Opt.help none ∷ rest) p h = tt
consume-Gives env after (option o (some arg) ∷ rest) p h =
    Gives-bind (Holds env) (Holds env) (store_explicit env o arg p) _
      (store_explicit-Gives env o arg p h) (λ q k. consume-Gives env false rest q k)
consume-Gives env after (option o none ∷ word arg ∷ rest) p h =
    Gives-bind (Holds env) (Holds env) (store_option env o arg p) _
      (store_option-Gives env o arg p h) (λ q k. consume-Gives env false rest q k)
consume-Gives env after (option o none ∷ rest) p h = tt

-- Values that setup_parser declares.
pub record IsTyped (env : Env) (p : ParsedArgs) : Type 0 where
  pub input_file : IsFile env p.client.input_file
  pub server_ip : IsAddress env p.client.server_ip
  pub server_port : IsUnprivileged p.client.server_port
  pub source_address : IsAddress env p.source_address
  pub source_port : (p.source_port ≡ pos 0) ⊎ IsUnprivileged p.source_port

or_default-Gives :
    {A : Type 0} (P : A → Type 0) (o : Option A) (m : Parse A)
    → Every P o
    → Gives P m
    → Gives P (or_default o m)
unfolding Gives
or_default-Gives P none m h k = k
or_default-Gives P (some a) m h k = h

required-Gives : {A : Type 0} (P : A → Type 0) (o : Option A) → Every P o → Gives P (required o)
unfolding Gives required
required-Gives P none h = tt
required-Gives P (some a) h = h

proper-Gives : {A : Type 0} (P : A → Type 0) (v : Value A) → OnValue P v → Gives P (proper v)
unfolding Gives OnValue proper
proper-Gives P (given a) h = h
proper-Gives P empty_list h = tt

read_given-Gives :
    {A : Type 0} (P : A → Type 0) (m : Parse A) → Gives P m → Gives (OnValue P) (read_given m)
unfolding Gives OnValue read_given ◌>>=◌
read_given-Gives P (done a) h = h
read_given-Gives P (stop s) h = tt

PortOrZero : ℤ → Type 0
PortOrZero p = (p ≡ pos 0) ⊎ IsUnprivileged p

port_or_zero :
    (o : Option (Value ℤ))
    → Every (OnValue IsUnprivileged) o
    → OnValue PortOrZero (get_or o (given (pos 0)))
unfolding OnValue PortOrZero
port_or_zero none h = inl refl
port_or_zero (some (given p)) h = inr h
port_or_zero (some empty_list) h = tt

returned-Gives :
    (env : Env) (ns : Namespace) (file : Value (List Message)) (address : Value String)
    (server_ip : String) (port : Value ℤ)
    → OnValue (IsFile env) file
    → OnValue (IsAddress env) address
    → IsAddress env server_ip
    → OnValue IsUnprivileged port
    → Every (OnValue IsUnprivileged) ns.source_port
    → Gives (IsTyped env) (returned ns file address server_ip port)
unfolding returned Gives PortOrZero
returned-Gives env ns file address server_ip port f a ip p h =
    Gives-bind (IsFile env) (IsTyped env) _ _ (proper-Gives (IsFile env) file f) λ file' f'.
      Gives-bind (IsAddress env) (IsTyped env) _ _ (proper-Gives (IsAddress env) address a)
        λ address' a'.
          Gives-bind IsUnprivileged (IsTyped env) _ _ (proper-Gives IsUnprivileged port p)
            λ port' p'.
              Gives-bind PortOrZero (IsTyped env) _ _
                (proper-Gives PortOrZero (get_or ns.source_port (given (pos 0)))
                  (port_or_zero ns.source_port h))
                λ source s'.
                  let mode = proper (get_or ns.mode (given Mode.all_once)) in
                  let count = proper_if_any ns.count in
                  let delay = proper (get_or ns.delay (given (pos 0))) in
                  Gives-bind Any (IsTyped env) mode _ (anything mode) λ mode' m.
                    Gives-bind Any (IsTyped env) count _ (anything count) λ count' c.
                      Gives-bind Any (IsTyped env) delay _ (anything delay) λ delay' d. record {
                        input_file = f';
                        server_ip = ip;
                        server_port = p';
                        source_address = a';
                        source_port = s';
                      }

finish-Gives : (env : Env) (p : Progress) → Holds env p → Gives (IsTyped env) (finish env p)
unfolding finish Holds AreTyped Gives
finish-Gives env p h =
    Gives-bind (OnValue (IsFile env)) (IsTyped env) _ _
      (or_default-Gives (OnValue (IsFile env)) p.values.input_file _ h.0
        (read_given-Gives (IsFile env) _ (read_json_file-Gives env "sample_payloads.json")))
      λ file f.
        Gives-bind (OnValue (IsAddress env)) (IsTyped env) _ _
          (or_default-Gives (OnValue (IsAddress env)) p.values.source_address _ h.3
            (read_given-Gives (IsAddress env) _ (read_address-Gives env "0.0.0.0")))
          λ source s.
            Gives-bind (IsAddress env) (IsTyped env) _ _
              (required-Gives (IsAddress env) p.values.server_ip h.1)
              λ ip i.
                Gives-bind (OnValue IsUnprivileged) (IsTyped env) _ _
                  (required-Gives (OnValue IsUnprivileged) p.values.server_port h.2)
                  λ port q.
                    Gives-bind Any (IsTyped env) (no_extras p.extras) _
                      (anything (no_extras p.extras))
                      λ nothing any. returned-Gives env p.values file source ip port f s i q h.4

unless_ambiguous-Gives :
    {A : Type 0} (P : A → Type 0) (o : Option String) (m : Parse A)
    → Gives P m
    → Gives P (unless_ambiguous o m)
unfolding Gives unless_ambiguous
unless_ambiguous-Gives P none m h = h
unless_ambiguous-Gives P (some arg) m h = tt

nothing_yet-Holds : (env : Env) → Holds env nothing_yet
unfolding Holds AreTyped nothing_yet
nothing_yet-Holds env = (tt, tt, tt, tt, tt)

-- When parse_args returns, and no argument is left with the value [] because its only text was
-- a "--" that argparse took away, what it returns has the types that setup_parser declares: the
-- entries of a file that exists, an address for the server and one for the source, a port from
-- 1024 to 65535 for the server, and for the source such a port or 0.
pub parse_args-IsTyped :
    (env : Env) (argv : List String) (p : ParsedArgs) → parse_args env argv ≡ done p → IsTyped env p
unfolding parse_args parse_tokens
parse_args-IsTyped env argv p e =
    Gives-at (IsTyped env) (parse_args env argv) p
      (unless_ambiguous-Gives (IsTyped env) _ _ (
        Gives-bind (Holds env) (IsTyped env) _ (finish env)
          (consume-Gives env false (tokens argv) nothing_yet (nothing_yet-Holds env))
          (finish-Gives env)))
      e
