-- ===== src/Server/Payload/Reals.antt =====
-- The texts of SHORT_REAL and FLOAT payloads, and all three texts of numbers.
use Prim.Native.String.{◌++◌, count}
use native.Mathlib.Nat.{pow-suc, mod-lt, div-add-mod'}
use server_client_app.Base.{
  ℕ, zero, suc, ◌+◌, ◌*◌, ◌/◌, ◌%◌, ◌^◌, ◌<◌, String, ◌≡◌, refl, ap, ◌∙◌, Bool, true, false, some,
  [], ◌∷◌, ◌==◌, if◌then◌else◌, arith,
}
use server_client_app.Base.Int.{pos, parse_int}
use server_client_app.Base.Int.Decimal.{Digits}
use server_client_app.Base.Text.{str}
use server_client_app.Server.Payload.{
  ntohs, padded, fixed, float_text, short_real_text, interpret_udp_payload,
}
use server_client_app.Server.Payload.Digits.{parse_int-padded, count-padded, Digits-padded}
use server_client_app.Server.Payload.Integers.{
  htonl, sign_byte, ntohl-htonl, wrapped, interpret_udp_payload-int,
}
use server_client_app.UdpClient.Port.{show_int}

-- The decimal text of a number, a point, and as many decimal digits as there are places: it
-- stands for the number divided by ten so often.
pub record IsDecimal (text : String) (places number : ℕ) : Type 0 where
  pub part : String
  pub whole_value : ℕ
  pub part_value : ℕ
  pub shape : text ≡ str whole_value ++ ("." ++ part)
  pub are_digits : Digits part
  pub reads_part : parse_int part ≡ some (pos part_value)
  pub digits : count part ≡ places
  pub adds_up : whole_value * 10 ^ places + part_value ≡ number

ten-power : (k : ℕ) → zero < 10 ^ k
ten-power zero = omega arith
ten-power (suc k) = let p = pow-suc 10 k in let h = ten-power k in omega (arith, p, h)

pub fixed-IsDecimal : (power number : ℕ) → IsDecimal (fixed (suc power) number) (suc power) number
unfolding fixed
fixed-IsDecimal power number = record {
  part = padded (suc power) (number % 10 ^ suc power);
  whole_value = number / 10 ^ suc power;
  part_value = number % 10 ^ suc power;
  shape = refl;
  are_digits = Digits-padded (suc power) (number % 10 ^ suc power);
  reads_part =
      parse_int-padded power (number % 10 ^ suc power) (mod-lt number (ten-power (suc power)));
  digits = count-padded (suc power) (number % 10 ^ suc power);
  adds_up = div-add-mod' number (10 ^ suc power);
}

-- The text of a FLOAT with a sign.
abbrev pub with_sign : Bool → String → String
with_sign true text = "-" ++ text
with_sign false text = "" ++ text

sign_text :
    (negative : Bool) (text : String)
    → (if sign_byte negative == 1 then "-" else "") ++ text ≡ with_sign negative text
sign_text true text = refl
sign_text false text = refl

ntohs-htons : (k : ℕ) → ntohs (k / 256 ∷ k % 256 ∷ []) 0 ≡ k
ntohs-htons k = omega arith

-- FLOAT, when it has digits behind the point, and SHORT_REAL.
interpret_udp_payload-IsDecimal :
    (negative : Bool) (n power k : ℕ)
    → n < 4294967296
    → k < 65536
    → ((text : String) × IsDecimal text (suc power) n
        × (interpret_udp_payload 2 (sign_byte negative ∷ htonl n (suc power ∷ []))
            ≡ some ("FLOAT - " ++ with_sign negative text)))
      × ((text : String) × IsDecimal text 2 k
          × (interpret_udp_payload 1 (k / 256 ∷ k % 256 ∷ []) ≡ some ("SHORT_REAL - " ++ text)))
unfolding interpret_udp_payload float_text short_real_text
interpret_udp_payload-IsDecimal negative n power k h l = (
  (
    fixed (suc power) n,
    fixed-IsDecimal power n,
    ap (λ (m : ℕ). some (float_text (sign_byte negative) m (suc power)))
          (ntohl-htonl (sign_byte negative) n (suc power ∷ []) h)
        ∙ ap (λ (t : String). some ("FLOAT - " ++ t)) (sign_text negative (fixed (suc power) n)),
  ),
  (fixed 2 k, fixed-IsDecimal 1 k, ap (λ (m : ℕ). some (short_real_text m)) (ntohs-htons k)),
)

-- An INT is written as the signed number, where 32 bits hold it, and as what they hold
-- otherwise; a SHORT_REAL as the decimal text of a number, a point and two decimal digits,
-- which stand for the number divided by 100; and a FLOAT, when its power is not 0, as its sign,
-- the decimal text of a number, a point and as many decimal digits as the power says, which
-- stand for the number divided by ten that often.
pub interpret_udp_payload-Texts :
    (negative : Bool) (n power k : ℕ)
    → n < 4294967296
    → k < 65536
    → (interpret_udp_payload 0 (sign_byte negative ∷ htonl n [])
        ≡ some ("INT - " ++ show_int (wrapped negative n)))
      × ((text : String) × IsDecimal text 2 k
          × (interpret_udp_payload 1 (k / 256 ∷ k % 256 ∷ []) ≡ some ("SHORT_REAL - " ++ text)))
      × ((text : String) × IsDecimal text (suc power) n
          × (interpret_udp_payload 2 (sign_byte negative ∷ htonl n (suc power ∷ []))
              ≡ some ("FLOAT - " ++ with_sign negative text)))
interpret_udp_payload-Texts negative n power k h l =
    let (float, short) = interpret_udp_payload-IsDecimal negative n power k h l in
    (interpret_udp_payload-int negative n [] h, short, float)
