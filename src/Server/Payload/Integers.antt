-- ===== src/Server/Payload/Integers.antt =====
-- The text of an INT payload.
use Prim.Native.String.{◌++◌}
use server_client_app.Base.{
  ℕ, ◌-◌, ◌/◌, ◌%◌, ◌^◌, ◌<◌, ◌≡◌, refl, ap, ◌∙◌, Bool, true, false, some, List, ◌∷◌, suc, inl, inr,
  Bool-cases, ltb, leb, ◌==◌, if◌then◌else◌, arith,
}
use server_client_app.Base.Int.{ℤ, pos, negate}
use server_client_app.UdpClient.Port.{show_int}
use server_client_app.Server.Payload.{ntohl, minus32, as_int, int_text, interpret_udp_payload}

-- Four bytes in network order.
abbrev pub htonl : ℕ → List ℕ → List ℕ
htonl n rest = n / 16777216 % 256 ∷ n / 65536 % 256 ∷ n / 256 % 256 ∷ n % 256 ∷ rest

abbrev pub sign_byte : Bool → ℕ
sign_byte true = 1
sign_byte false = 0

pub ntohl-htonl : (sign n : ℕ) (rest : List ℕ) → n < 4294967296 → ntohl (sign ∷ htonl n rest) 1 ≡ n
ntohl-htonl sign n rest h = omega arith

-- The integer that 32 bits can hold, which is the signed number itself where it is in the range.
abbrev pub wrapped : Bool → ℕ → ℤ
wrapped false n = if ltb n 2147483648 then pos n else negate (4294967296 - n)
wrapped true n = if leb n 2147483648 then negate n else pos (4294967296 - n)

as_int-wrapped :
    (negative : Bool) (n : ℕ)
    → n < 4294967296
    → as_int (if sign_byte negative == 1 then minus32 n else n) ≡ wrapped negative n
as_int-wrapped false n h = refl
as_int-wrapped true ℕ.zero h = refl
as_int-wrapped true (suc k) h =
    let other : minus32 (suc k) ≡ 4294967296 - suc k = omega arith in
    ap as_int other ∙ elim (Bool-cases (leb (suc k) 2147483648)) [
      | inl fits ↦
          let large : ltb (4294967296 - suc k) 2147483648 ≡ false = ground (arith, fits) in
          let back : 2 ^ 32 - (4294967296 - suc k) ≡ suc k = omega arith in
          rw fits (rw large (ap negate back))
      | inr wraps ↦
          let small : ltb (4294967296 - suc k) 2147483648 ≡ true = ground (arith, wraps) in
          rw wraps (rw small refl)
    ]

-- An INT is written as the integer that 32 bits hold.
pub interpret_udp_payload-int :
    (negative : Bool) (n : ℕ) (rest : List ℕ)
    → n < 4294967296
    → interpret_udp_payload 0 (sign_byte negative ∷ htonl n rest)
      ≡ some ("INT - " ++ show_int (wrapped negative n))
unfolding interpret_udp_payload int_text
interpret_udp_payload-int negative n rest h =
    ap (λ (k : ℕ). some (int_text (sign_byte negative) k))
      (ntohl-htonl (sign_byte negative) n rest h)
    ∙ ap (λ (z : ℤ). some ("INT - " ++ show_int z)) (as_int-wrapped negative n h)
