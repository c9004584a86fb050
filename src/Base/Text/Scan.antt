-- ===== src/Base/Text/Scan.antt =====
-- sscanf(text, "%hu", &port), by which server_main.cpp and subscriber_main.cpp read a port, on a
-- machine whose unsigned long has 64 bits.
use Prim.Native.Nat.{ℕ, ◌+◌, ◌-◌, ◌*◌, ◌%◌, ◌<◌}
use Prim.Native.Char.{Char, code}
use Prim.Native.String.{String, [], ◌∷◌}
use mathlib.Core.Path.{◌≡◌, refl, ap, ◌∙◌}
use mathlib.Core.Bool.{Bool, true, false, ◌&&◌, ◌||◌}
use mathlib.Core.Option.{Option, none, some}
use native.Mathlib.Omega.{arith}
use server_client_app.Base.Tests.{◌==◌, leb, ltb, if◌then◌else◌}
use server_client_app.Base.Text.{str}
use server_client_app.Base.Int.{is_digit, digits_from}
use server_client_app.Base.Int.Decimal.{Digits, Digits-str, digits_from-str}

-- isspace
abbrev is_white : Char → Bool
is_white c = code c == 32 || leb 9 (code c) && leb (code c) 13

-- The number that the digits at the start of the text go on to.
unfoldable scan_digits : ℕ → String → ℕ
scan_digits acc [] = acc
scan_digits acc (c ∷ s) =
    let more = scan_digits (acc * 10 + (code c - 48)) s in if is_digit (code c) then more else acc

-- A number of at least one digit at the start of the text.
unfoldable scan_number : String → Option ℕ
unfolding scan_digits
scan_number [] = none
scan_number (c ∷ s) = if is_digit (code c) then some (scan_digits (code c - 48) s) else none

-- strtoul with its result cut to 16 bits: a number that 64 bits do not hold is the largest one.
unfoldable pub to_hu : Bool → ℕ → ℕ
to_hu minus n =
    if ltb n 18446744073709551616
    then if minus then (18446744073709551616 - n) % 65536 else n % 65536
    else 65535

in_range : Bool → Option ℕ → Option ℕ
in_range minus none = none
in_range minus (some n) = some (to_hu minus n)

scan_signed : String → Option ℕ
unfolding scan_number in_range
scan_signed [] = none
scan_signed (c ∷ s) =
    if code c == 45
    then in_range true (scan_number s)
    else if code c == 43
    then in_range false (scan_number s)
    else in_range false (scan_number (c ∷ s))

-- `none` where sscanf does not return 1.
unfoldable pub scan_hu : String → Option ℕ
unfolding scan_signed
scan_hu [] = none
scan_hu (c ∷ s) = let rest = scan_hu s in if is_white c then rest else scan_signed (c ∷ s)

scan_hu_sample : scan_hu "  8080x" ≡ some 8080
unfolding scan_hu to_hu
scan_hu_sample = refl

scan_hu_minus : scan_hu "-1" ≡ some 65535
unfolding scan_hu to_hu
scan_hu_minus = refl

scan_hu_word : scan_hu "port" ≡ none
unfolding scan_hu
scan_hu_word = refl

scan_digits-Digits :
    (s : String) (acc n : ℕ)
    → Digits s
    → digits_from acc true s ≡ some n
    → some (scan_digits acc s) ≡ some n
unfolding scan_digits digits_from
scan_digits-Digits [] acc n d e = e
scan_digits-Digits (c ∷ s) acc n d e =
    rw d.0 (scan_digits-Digits s (acc * 10 + (code c - 48)) n d.1 (rw d.0 at e))

scan_number-Digits :
    (s : String) (n : ℕ) → Digits s → digits_from 0 false s ≡ some n → scan_number s ≡ some n
unfolding scan_number digits_from
scan_number-Digits [] n d e = cc e
scan_number-Digits (c ∷ s) n d e =
    let same = ap (λ (k : ℕ). digits_from k true s) (omega arith) in
    rw d.0 (scan_digits-Digits s (code c - 48) n d.1 (same ∙ (rw d.0 at e)))

digit-is_white : (c : Char) → is_digit (code c) ≡ true → is_white c ≡ false
digit-is_white c h = ground arith

scan_hu-Digits :
    (s : String) (n : ℕ)
    → Digits s
    → digits_from 0 false s ≡ some n
    → scan_hu s ≡ some (to_hu false n)
unfolding scan_hu scan_signed in_range digits_from
scan_hu-Digits [] n d e = cc e
scan_hu-Digits (c ∷ s) n d e =
    let minus : (code c == 45) ≡ false = ground (arith, d.0) in
    let plus : (code c == 43) ≡ false = ground (arith, d.0) in
    rw (digit-is_white c d.0)
      (rw minus (rw plus (ap (in_range false) (scan_number-Digits (c ∷ s) n d e))))

-- The decimal text of a number that 64 bits hold is read as the number modulo 2 ^ 16.
pub scan_hu-str : (n : ℕ) → n < 18446744073709551616 → scan_hu (str n) ≡ some (n % 65536)
unfolding to_hu
scan_hu-str n small = scan_hu-Digits (str n) n (Digits-str n) (digits_from-str n) ∙ ground arith
