-- ===== src/UdpClient/Parser/Words.antt =====
-- Which arguments of udp_client.py are words, not options.
use Prim.Native.Char.{Char, code}
use Prim.Native.String.{◌∷◌ as ◌◁◌, ◌++◌}
use text.Mathlib.Text.{starts_with, ◌==◌ as ◌is◌}
use text.Mathlib.TextEquality.{starts_with_iff}
use text.Mathlib.TextLemmas.{nil-append, cons-append, tail-eq_of_cons-eq}
use server_client_app.Base.{
  ℕ, suc, String, true, false, none, ◌==◌, ◌≡◌, ◌≢◌, refl, sym, ap, ◌∙◌, Bool-cases, inl, inr,
  arith,
}
use server_client_app.Base.Int.{ℤ, pos, negsuc, is_digit, parse_int}
use server_client_app.Base.Int.Decimal.{Digits, Digits-str, parse_int-str}
use server_client_app.Base.Text.Heads.{is-ne, ne-head}
use server_client_app.Base.Text.{str}
use server_client_app.UdpClient.Port.{show_int}
use server_client_app.UdpClient.Ip.{dotted}
use server_client_app.UdpClient.Parser.Tokens.{
  word, option_strings, exact, find_option, split_equals, number_tail, no_option, short_option,
  parse_optional,
}

-- An argument that the parser takes as a word.
pub record IsWord (arg : String) : Type 0 where
  pub not_mark : (arg is "--") ≡ false
  pub reads : parse_optional arg ≡ word arg

abbrev dash : Char
dash = "-"

not-dash : (c : Char) → is_digit (code c) ≡ true → (code c == 45) ≡ false
not-dash c h = ground (arith, h)

IsWord-cons : (c : Char) (s : String) → (code c == 45) ≡ false → IsWord (c ◁ s)
unfolding parse_optional
IsWord-cons c s h = record {
  not_mark = is-ne (c ◁ s) "--" (ne-head c dash s "-" h);
  reads = rw h refl;
}

IsWord-append : (s t : String) → Digits s → s ≢ "" → IsWord (s ++ t)
IsWord-append Prim.Native.String.[] t h ne = absurd (ne refl)
IsWord-append (c ◁ s) t h ne = rw cons-append (IsWord-cons c (s ++ t) (not-dash c h.0))

empty : parse_int "" ≡ none
unfolding parse_int
empty = refl

str-ne : (n : ℕ) → str n ≢ ""
str-ne n e = let p = parse_int-str n in let q = ap parse_int e in cc (p, q, empty)

pub IsWord-dotted : (a b c d : ℕ) → IsWord (dotted a b c d)
unfolding dotted
IsWord-dotted a b c d = IsWord-append (str a) _ (Digits-str a) (str-ne a)

IsWord-Digits : (s : String) → Digits s → s ≢ "" → IsWord s
IsWord-Digits Prim.Native.String.[] h ne = absurd (ne refl)
IsWord-Digits (c ◁ s) h ne = IsWord-cons c s (not-dash c h.0)

pub IsWord-str : (n : ℕ) → IsWord (str n)
IsWord-str n = IsWord-Digits (str n) (Digits-str n) (str-ne n)

-- A negative number.
not-flag :
    (c d : Char) (s t : String)
    → is_digit (code c) ≡ true
    → is_digit (code d) ≡ false
    → ((dash ◁ (c ◁ s)) is (dash ◁ (d ◁ t))) ≡ false
not-flag c d s t h k =
    is-ne (dash ◁ (c ◁ s)) (dash ◁ (d ◁ t))
      (λ e. ne-head c d s t (ground (arith, h, k)) (tail-eq_of_cons-eq e))

exact-number : (c : Char) (s : String) → is_digit (code c) ≡ true → exact (dash ◁ (c ◁ s)) ≡ none
unfolding exact option_strings find_option
exact-number c s h = rw (
  not-flag c "h" s "" h refl,
  not-flag c "-" s "help" h refl,
  not-flag c "-" s "input_file" h refl,
  not-flag c "-" s "source-address" h refl,
  not-flag c "-" s "source-port" h refl,
  not-flag c "-" s "mode" h refl,
  not-flag c "-" s "count" h refl,
  not-flag c "-" s "delay" h refl,
)

not-long : (c : Char) (s : String) → is_digit (code c) ≡ true → starts_with (c ◁ s) "-" ≡ false
not-long c s h = elim (Bool-cases (starts_with (c ◁ s) "-")) [
  | inl e ↦
      let (rest, path) = (starts_with_iff (c ◁ s) "-").0 e in
      absurd
        (ne-head dash c ("" ++ rest) s (ground (arith, h)) (sym (cons-append dash "" rest) ∙ path))
  | inr e ↦ e
]

number_tail-Digits : (s : String) → Digits s → number_tail true s ≡ true
unfolding number_tail
number_tail-Digits Prim.Native.String.[] h = refl
number_tail-Digits (c ◁ s) h = rw h.0 (number_tail-Digits s h.1)

not-equals : (c : Char) → is_digit (code c) ≡ true → (code c == 61) ≡ false
not-equals c h = ground (arith, h)

not-h : (c : Char) → is_digit (code c) ≡ true → (code c == 104) ≡ false
not-h c h = ground (arith, h)

split_equals-Digits : (s : String) → Digits s → split_equals s ≡ none
unfolding split_equals
split_equals-Digits Prim.Native.String.[] h = refl
split_equals-Digits (c ◁ s) h = rw (not-equals c h.0) (rw (split_equals-Digits s h.1))

parse_optional-number :
    (c : Char) (s : String)
    → is_digit (code c) ≡ true
    → Digits s
    → parse_optional (dash ◁ (c ◁ s)) ≡ word (dash ◁ (c ◁ s))
unfolding parse_optional short_option no_option split_equals number_tail
parse_optional-number c s h k = rw (exact-number c s h) (
    rw (not-long c s h) (
      rw (not-equals c h)
        (rw (split_equals-Digits s k) (rw (not-h c h) (rw h (rw (number_tail-Digits s k)))))))

number : (s : String) → Digits s → s ≢ "" → IsWord ("-" ++ s)
number Prim.Native.String.[] h ne = absurd (ne refl)
number (c ◁ s) h ne =
    rw (cons-append dash "" (c ◁ s), nil-append)
      (record {
        not_mark = not-flag c "-" s "" h.0 refl;
        reads = parse_optional-number c s h.0 h.1;
      })

-- The decimal text of an integer.
pub IsWord-show_int : (z : ℤ) → IsWord (show_int z)
unfolding show_int
IsWord-show_int (pos n) = IsWord-str n
IsWord-show_int (negsuc n) = number (str (suc n)) (Digits-str (suc n)) (str-ne (suc n))
