-- ===== src/UdpClient/Parser/Types.antt =====
-- What the parser returns has the types that setup_parser declares.
pub mod Loop
use mathlib.Core.Path.{subst}
use server_client_app.Base.{
  ℕ, ◌<◌, ◌≤◌, suc, String, Bool, true, false, Option, none, some, List, [], ◌∷◌, ◌≡◌, refl, ap,
  ◌∙◌, Every, Result, ok, raised, Exn, ◌⊎◌, inl, inr, arith, Bool-cases, or_raise, if◌then◌else◌,
}
use server_client_app.Base.Int.{ℤ, pos, negsuc}
use server_client_app.UdpClient.Ip.{ip_address, ipv4_address, or_else}
use server_client_app.UdpClient.Ip.Laws.{IsDotted, ipv4_address-IsDotted}
use server_client_app.UdpClient.Port.{port_type}
use server_client_app.UdpClient.Port.Laws.{port-in_range}
use server_client_app.UdpClient.Client.{Message, Mode}
use server_client_app.UdpClient.Parser.{
  Env, Value, given, empty_list, Parse, done, stop, Namespace, ParsedArgs, Progress, with_values,
  store, place, store_option, consume, mark_end, finish, first_ambiguous, parse_tokens, parse_args,
  read_address, read_port, read_int, read_mode, read_json_file, typed, refused, nothing_yet,
  unless_ambiguous, or_default, ◌>>=◌, required, no_extras,
}
use server_client_app.UdpClient.Parser.Tokens.{
  Opt, Token, word, option, unknown, ambiguous, end_mark, tokens,
}

-- What a parse returns, if it does, has the property.
Gives : {A : Type 0} → (A → Type 0) → Parse A → Type 0
Gives P (done a) = P a
Gives P (stop s) = Unit

Gives-bind :
    {A B : Type 0} (P : A → Type 0) (Q : B → Type 0) (m : Parse A) (f : A → Parse B)
    → Gives P m
    → ((a : A) → P a → Gives Q (f a))
    → Gives Q (m >>= f)
unfolding Gives ◌>>=◌
Gives-bind P Q (done a) f h k = k a h
Gives-bind P Q (stop s) f h k = tt

Gives-at : {A : Type 0} (P : A → Type 0) (m : Parse A) (a : A) → Gives P m → m ≡ done a → P a
unfolding Gives
Gives-at P (done b) a h e = let p : b ≡ a = cc e in subst P p h
Gives-at P (stop s) a h e = cc e

-- An IPv4 address, or one that was read from an IPv6 text.
pub IsAddress : Env → String → Type 0
IsAddress env ip = IsDotted ip ⊎ ((text : String) × (env.ipv6 text ≡ some ip))

-- The entries of a file that exists.
pub IsFile : Env → List Message → Type 0
IsFile env messages = (name : String) × (env.exists name ≡ true) × (env.load name ≡ ok messages)

pub IsUnprivileged : ℤ → Type 0
IsUnprivileged p = (n : ℕ) × (p ≡ pos n) × (1024 ≤ n) × (n ≤ 65535)

typed-Gives :
    {A : Type 0} (P : A → Type 0) (arg : String) (r : Result A)
    → ((a : A) → r ≡ ok a → P a)
    → Gives P (typed arg r)
unfolding Gives typed
typed-Gives P arg (ok a) h = h a refl
typed-Gives P arg (raised (Exn.value_error m)) h = tt
typed-Gives P arg (raised _) h = tt

from_or_raise : {A : Type 0} (o : Option A) (e : Exn) (a : A) → or_raise o e ≡ ok a → o ≡ some a
from_or_raise none e a h = cc h
from_or_raise (some b) e a h = cc h

from_or_else :
    (env : Env) (o : Option String) (text ip : String)
    → ((a : String) → o ≡ some a → IsDotted a)
    → or_else o (env.ipv6 text) ≡ some ip
    → IsAddress env ip
unfolding or_else IsAddress
from_or_else env none text ip k h = inr (text, h)
from_or_else env (some a) text ip k h =
    let p : a ≡ ip = cc h in subst (IsAddress env) p (inl (k a refl))

read_address-Gives : (env : Env) (arg : String) → Gives (IsAddress env) (read_address env arg)
unfolding read_address ip_address
read_address-Gives env arg = typed-Gives (IsAddress env) arg _ (λ a e.
    from_or_else env (ipv4_address arg) arg a (ipv4_address-IsDotted arg)
      (from_or_raise (or_else (ipv4_address arg) (env.ipv6 arg)) refused a e))

read_port-Gives : (arg : String) → Gives IsUnprivileged (read_port arg)
unfolding read_port IsUnprivileged
read_port-Gives arg =
    typed-Gives IsUnprivileged arg _
      (λ p e. let (n, path, low, high, same) = port-in_range arg p e in (n, path, low, high))

read_json_file-Gives : (env : Env) (arg : String) → Gives (IsFile env) (read_json_file env arg)
unfolding read_json_file IsFile Gives
read_json_file-Gives env arg = elim (Bool-cases (env.exists arg)) [
  | inl there ↦ rw there (typed-Gives (IsFile env) arg (env.load arg) (λ ms e. (arg, there, e)))
  | inr missing ↦ rw missing tt
]

-- Any value.
Any : {A : Type 0} → A → Type 0
Any a = Unit

anything : {A : Type 0} (m : Parse A) → Gives Any m
unfolding Gives Any
anything (done a) = tt
anything (stop s) = tt

-- A value that is not [] has the property.
OnValue : {A : Type 0} → (A → Type 0) → Value A → Type 0
OnValue P (given a) = P a
OnValue P empty_list = Unit

-- The values so far.
AreTyped : Env → Namespace → Type 0
AreTyped env ns =
    Every (OnValue (IsFile env)) ns.input_file
    × Every (IsAddress env) ns.server_ip
    × Every (OnValue IsUnprivileged) ns.server_port
    × Every (OnValue (IsAddress env)) ns.source_address
    × Every (OnValue IsUnprivileged) ns.source_port

store-Gives :
    (env : Env) (o : Opt) (arg : String) (ns : Namespace)
    → AreTyped env ns
    → Gives (AreTyped env) (store env o arg ns)
unfolding store AreTyped OnValue Gives
store-Gives env Opt.help arg ns h = tt
store-Gives env Opt.input_file arg ns h =
    Gives-bind _ (AreTyped env) (read_json_file env arg) _ (read_json_file-Gives env arg)
      (λ v k. (k, h.1, h.2, h.3, h.4))
store-Gives env Opt.source_address arg ns h =
    Gives-bind _ (AreTyped env) (read_address env arg) _ (read_address-Gives env arg)
      (λ v k. (h.0, h.1, h.2, k, h.4))
store-Gives env Opt.source_port arg ns h =
    Gives-bind _ (AreTyped env) (read_port arg) _ (read_port-Gives arg)
      (λ v k. (h.0, h.1, h.2, h.3, k))
store-Gives env Opt.mode arg ns h =
    Gives-bind Any (AreTyped env) (read_mode arg) _ (anything _) (λ v k. h)
store-Gives env Opt.count arg ns h =
    Gives-bind Any (AreTyped env) (read_int arg) _ (anything _) (λ v k. h)
store-Gives env Opt.delay arg ns h =
    Gives-bind Any (AreTyped env) (read_int arg) _ (anything _) (λ v k. h)

Holds : Env → Progress → Type 0
Holds env p = AreTyped env p.values

store_option-Gives :
    (env : Env) (o : Opt) (arg : String) (p : Progress)
    → Holds env p
    → Gives (Holds env) (store_option env o arg p)
unfolding store_option Holds Gives
store_option-Gives env o arg p h =
    Gives-bind (AreTyped env) (Holds env) (store env o arg p.values) _
      (store-Gives env o arg p.values h) (λ ns k. k)
