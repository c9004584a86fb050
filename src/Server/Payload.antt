-- ===== src/Server/Payload.antt =====
-- Server.cpp: manage_udp_message and interpret_udp_payload, from the bytes of a datagram to the
-- line for the subscribers.
--
-- A byte of a text is the character of its code. The bytes behind those that were received are 0,
-- as memset left them. The doubles of SHORT_REAL and FLOAT are exact enough for the digits that are
-- printed: at most 255 divisions by 10 of a number below 2^32 are off by less than one part in
-- 2^44, so the printed text is that of the quotient itself.
pub mod Digits
pub mod Integers
pub mod Reals
pub mod Room
pub mod Samples
use Prim.Native.Char.{Char, char, nul, IsScalar}
use Prim.Native.Nat.{compare, Ordering}
use Prim.Native.String.{◌∷◌ as ◌◁◌, ◌++◌}
use server_client_app.Base.{
  ℕ, zero, suc, ◌+◌, ◌-◌, ◌*◌, ◌/◌, ◌%◌, ◌^◌, String, ◌≡◌, refl, sym, Bool, Option, none, some,
  List, [], ◌∷◌, ltb, ◌==◌, if◌then◌else◌, get_elem?, drop,
}
use server_client_app.Base.Int.{ℤ, pos, negate}
use server_client_app.Base.Text.{str, digit}
use server_client_app.UdpClient.Port.{show_int}
use server_client_app.Server.Run.{Datagram}

unfoldable pub scalar_or_nul : (n : ℕ) (o : Ordering) → compare n 55296 ≡ o → Char
scalar_or_nul n Ordering.lt p = let scalar : IsScalar n = rw p tt in char n scalar
scalar_or_nul n Ordering.eq p = nul
scalar_or_nul n Ordering.gt p = nul

-- The character of a byte.
unfoldable pub byte_char : ℕ → Char
unfolding scalar_or_nul
byte_char n = scalar_or_nul n (compare n 55296) refl

-- A byte of the buffer.
abbrev pub byte_at : List ℕ → ℕ → ℕ
byte_at buff i = elim (get_elem? buff i) [ none ↦ 0 | some b ↦ b ]

-- The text that ends at the first 0 of at most so many bytes.
unfoldable pub c_text : ℕ → List ℕ → String
unfolding byte_char
c_text zero buff = ""
c_text (suc room) [] = ""
c_text (suc room) (b ∷ buff) =
    let more = c_text room buff in if b == 0 then "" else byte_char b ◁ more

-- ntohs and ntohl of the bytes from an index on
abbrev pub ntohs : List ℕ → ℕ → ℕ
ntohs buff i = byte_at buff i * 256 + byte_at buff (i + 1)

abbrev pub ntohl : List ℕ → ℕ → ℕ
ntohl buff i = ntohs buff i * 65536 + ntohs buff (i + 2)

-- `number *= -1` on 32 bits
abbrev pub minus32 : ℕ → ℕ
minus32 n = (2 ^ 32 - n) % 2 ^ 32

-- The 32 bits as an int, which "%d" prints.
abbrev pub as_int : ℕ → ℤ
as_int n = if ltb n (2 ^ 31) then pos n else negate (2 ^ 32 - n)

-- So many digits, of which the last ones are those of the number.
unfoldable pub padded : ℕ → ℕ → String
unfolding digit
padded zero n = ""
padded (suc width) n = padded width (n / 10) ++ (digit (n % 10) ◁ "")

-- "%.*lf" of a number divided by 10 so many times; no point when there are no digits behind it
unfoldable pub fixed : ℕ → ℕ → String
unfolding padded str
fixed zero n = str n
fixed (suc power) n = str (n / 10 ^ suc power) ++ ("." ++ padded (suc power) (n % 10 ^ suc power))

unfoldable pub int_text : ℕ → ℕ → String
unfolding show_int
int_text sign number = "INT - " ++ show_int (as_int (if sign == 1 then minus32 number else number))

unfoldable pub short_real_text : ℕ → String
unfolding fixed
short_real_text number = "SHORT_REAL - " ++ fixed 2 number

unfoldable pub float_text : ℕ → ℕ → ℕ → String
unfolding fixed
float_text sign number power = "FLOAT - " ++ ((if sign == 1 then "-" else "") ++ fixed power number)

-- `none` for a type that is not supported
unfoldable pub interpret_udp_payload : ℕ → List ℕ → Option String
unfolding int_text short_real_text float_text c_text
interpret_udp_payload data_type payload =
    if data_type == 0
    then some (int_text (byte_at payload 0) (ntohl payload 1))
    else if data_type == 1
    then some (short_real_text (ntohs payload 0))
    else if data_type == 2
    then some (float_text (byte_at payload 0) (ntohl payload 1) (byte_at payload 5))
    else if data_type == 3
    then some ("STRING - " ++ c_text 1549 payload)
    else none

abbrev pub read_line : String → String → Option String → Datagram
read_line topic head none = Datagram.unsupported
read_line topic head (some line) = Datagram.valid topic (head ++ line)

-- What manage_udp_message makes of the bytes, of which recvfrom gave at most 1600, before it
-- forwards them.
unfoldable pub read_datagram : String → ℕ → List ℕ → Datagram
unfolding interpret_udp_payload c_text str
read_datagram client_ip client_port buff =
    let topic = c_text 50 buff in
    read_line topic (client_ip ++ ":" ++ str client_port ++ " - " ++ topic ++ " - ")
      (interpret_udp_payload (byte_at buff 50) (drop 51 buff))
