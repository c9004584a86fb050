-- ===== src/Server/Payload/Digits.antt =====
-- The digits of a number that is padded to a width.
use Prim.Native.String.{◌∷◌ as ◌◁◌, ◌++◌, count}
use native.Mathlib.Nat.{pow-suc}
use text.Mathlib.TextLemmas.{nil-append, length-nil, length-cons, length-append}
use server_client_app.Base.{
  ℕ, zero, suc, ◌+◌, ◌*◌, ◌/◌, ◌%◌, ◌^◌, ◌<◌, String, ◌≡◌, ap, ◌∙◌, Bool, true, false, some, arith,
}
use server_client_app.Base.Int.{pos, digits_from, parse_int}
use server_client_app.Base.Int.Decimal.{
  Digits, Digits-append, is_digit-digit, digits_from-digit, append_char, end, parse_int-Digits,
}
use server_client_app.Base.Text.{digit}
use server_client_app.Server.Payload.{padded}

smaller : (w n : ℕ) → n < 10 ^ suc w → n / 10 < 10 ^ w
smaller w n h = let p = pow-suc 10 w in omega (arith, p, h)

digits_from-padded :
    (w n d : ℕ) (b : Bool) (s : String)
    → n < 10 ^ w
    → d < 10
    → digits_from 0 b (padded w n ++ (digit d ◁ s)) ≡ digits_from (n * 10 + d) true s
unfolding padded
digits_from-padded zero n d b s h k =
    ap (digits_from 0 b) (nil-append (digit d ◁ s))
    ∙ digits_from-digit d 0 b s k
    ∙ ap (λ (x : ℕ). digits_from x true s) (omega arith)
digits_from-padded (suc w) n d b s h k =
    ap (digits_from 0 b) (append_char (padded w (n / 10)) (digit d ◁ s) (digit (n % 10)))
    ∙ digits_from-padded w (n / 10) (n % 10) b (digit d ◁ s) (smaller w n h) (omega arith)
    ∙ digits_from-digit d (n / 10 * 10 + n % 10) true s k
    ∙ ap (λ (x : ℕ). digits_from x true s) (omega arith)

pub Digits-padded : (w n : ℕ) → Digits (padded w n)
unfolding padded
Digits-padded zero n = tt
Digits-padded (suc w) n =
    Digits-append (padded w (n / 10)) (digit (n % 10) ◁ "") (Digits-padded w (n / 10))
      (is_digit-digit (n % 10) (omega arith), tt)

-- A padded number below the power of its width is read as this number.
pub parse_int-padded : (w n : ℕ) → n < 10 ^ suc w → parse_int (padded (suc w) n) ≡ some (pos n)
unfolding padded
parse_int-padded w n h = parse_int-Digits (padded (suc w) n) (Digits-padded (suc w) n) (
    digits_from-padded w (n / 10) (n % 10) false "" (smaller w n h) (omega arith)
    ∙ ap (λ (x : ℕ). digits_from x true "") (omega arith)
    ∙ end n)

-- It has as many digits as its width says.
pub count-padded : (w n : ℕ) → count (padded w n) ≡ w
unfolding padded
count-padded zero n = length-nil
count-padded (suc w) n =
    let one = length-cons (digit (n % 10)) "" in
    omega (
      arith,
      length-append (padded w (n / 10)) (digit (n % 10) ◁ ""),
      one,
      length-nil,
      count-padded w (n / 10),
    )
