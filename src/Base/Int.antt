-- ===== src/Base/Int.antt =====
-- Python's integers, as far as the scripts compare them, and int() of an ASCII text.
pub mod Decimal
use Prim.Native.Nat.{ℕ, zero, suc, ◌+◌, ◌-◌, ◌*◌}
use Prim.Native.Char.{code}
use Prim.Native.String.{String, [], ◌∷◌}
use mathlib.Core.Bool.{Bool, true, false, ◌&&◌}
use mathlib.Core.Path.{◌≡◌, refl}
use mathlib.Core.Option.{Option, none, some}
use server_client_app.Base.Tests.{◌==◌, leb, if◌then◌else◌}
use server_client_app.Base.Text.{lstrip, rstrip}

-- `negsuc n` is -(n + 1).
pub data ℤ : Type 0 where
  pos : ℕ → ℤ
  negsuc : ℕ → ℤ

-- a <= b
abbrev pub leb_ℤ : ℤ → ℤ → Bool
leb_ℤ (pos a) (pos b) = leb a b
leb_ℤ (pos a) (negsuc b) = false
leb_ℤ (negsuc a) (pos b) = true
leb_ℤ (negsuc a) (negsuc b) = leb b a

abbrev pub negate : ℕ → ℤ
negate zero = pos 0
negate (suc n) = negsuc n

abbrev pub is_digit : ℕ → Bool
is_digit c = leb 48 c && leb c 57

-- Digits with single underscores between them; the flag says that the last character was a digit.
unfoldable pub digits_from : ℕ → Bool → String → Option ℕ
digits_from acc after_digit [] = if after_digit then some acc else none
digits_from acc after_digit (c ∷ s) =
    let digit = digits_from (acc * 10 + (code c - 48)) true s in
    let underscore = digits_from acc false s in
    if is_digit (code c) then digit else if after_digit && code c == 95 then underscore else none

signed : String → Option ℤ
unfolding digits_from
signed [] = none
signed (c ∷ s) =
    if code c == 45
    then elim (digits_from 0 false s) [ none ↦ none | some n ↦ some (negate n) ]
    else if code c == 43
    then elim (digits_from 0 false s) [ none ↦ none | some n ↦ some (pos n) ]
    else elim (digits_from 0 false (c ∷ s)) [ none ↦ none | some n ↦ some (pos n) ]

-- int(text), `none` for a ValueError. White space around the number is dropped.
unfoldable pub parse_int : String → Option ℤ
unfolding signed lstrip rstrip
parse_int text = signed (lstrip (rstrip text))

parse_int_sample : parse_int " -1_024\n" ≡ some (negsuc 1023)
unfolding parse_int
parse_int_sample = refl
