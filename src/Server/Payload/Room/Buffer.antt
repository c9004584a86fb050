-- ===== src/Server/Payload/Room/Buffer.antt =====
-- The line for the subscribers fits its buffer.
use Prim.Native.String.{◌++◌, count}
use text.Mathlib.TextLemmas.{length-append}
use server_client_app.Base.{
  ℕ, ◌+◌, ◌<◌, ◌≤◌, String, ◌≡◌, refl, ap, Bool, true, false, Option, none, some, List, All, length,
  drop, ◌==◌, if◌then◌else◌, arith,
}
use server_client_app.Base.Text.{str}
use server_client_app.UdpClient.Port.{show_int}
use server_client_app.Server.Run.{Datagram}
use server_client_app.Server.Payload.{
  byte_at, c_text, ntohs, ntohl, minus32, as_int, fixed, int_text, short_real_text, float_text,
  interpret_udp_payload, read_line, read_datagram,
}
use server_client_app.Server.Payload.Room.{
  IsByte, count-str, count-c_text, byte_at-IsByte, drop-All, length-drop, count-int, count-fixed,
}

ntohs-lt : (buff : List ℕ) (i : ℕ) → All IsByte buff → ntohs buff i < 65536
ntohs-lt buff i h =
    let a = byte_at-IsByte buff i h in let b = byte_at-IsByte buff (i + 1) h in omega (arith, a, b)

ntohl-lt : (buff : List ℕ) (i : ℕ) → All IsByte buff → ntohl buff i < 4294967296
ntohl-lt buff i h =
    let a = ntohs-lt buff i h in let b = ntohs-lt buff (i + 2) h in omega (arith, a, b)

minus32-lt : (n : ℕ) → minus32 n < 4294967296
minus32-lt n = omega arith

signed-lt : (b : Bool) (n : ℕ) → n < 4294967296 → (if b then minus32 n else n) < 4294967296
signed-lt true n h = minus32-lt n
signed-lt false n h = h

sign-le : (b : Bool) → count (if b then "-" else "") ≤ 1
sign-le true = omega arith
sign-le false = omega arith

Fits : Option String → Type 0
Fits none = Unit
Fits (some line) = count line ≤ 1509

Fits-if : (b : Bool) (x y : Option String) → Fits x → Fits y → Fits (if b then x else y)
Fits-if true x y h k = h
Fits-if false x y h k = k

int-Fits : (sign n : ℕ) → n < 4294967296 → Fits (some (int_text sign n))
unfolding Fits int_text
int-Fits sign n h =
    let number = if sign == 1 then minus32 n else n in
    let c = count-int number (signed-lt (sign == 1) n h) in
    let a = length-append "INT - " (show_int (as_int number)) in
    let head : count "INT - " ≡ 6 = refl in omega (arith, a, c, head)

real-Fits : (n : ℕ) → n < 65536 → Fits (some (short_real_text n))
unfolding Fits short_real_text
real-Fits n h =
    let c = count-fixed 2 n 4 (omega (arith, h)) in
    let a = length-append "SHORT_REAL - " (fixed 2 n) in
    let head : count "SHORT_REAL - " ≡ 13 = refl in omega (arith, a, c, head)

float-Fits :
    (sign n power : ℕ) → n < 4294967296 → power < 256 → Fits (some (float_text sign n power))
unfolding Fits float_text
float-Fits sign n power h k =
    let c = count-fixed power n 9 (omega (arith, h)) in
    let sign_text = if sign == 1 then "-" else "" in
    let a = length-append "FLOAT - " (sign_text ++ fixed power n) in
    let b = length-append sign_text (fixed power n) in
    let d = sign-le (sign == 1) in
    let head : count "FLOAT - " ≡ 8 = refl in omega (arith, a, b, c, d, head, k)

string-Fits :
    (payload : List ℕ) → length payload ≤ 1500 → Fits (some ("STRING - " ++ c_text 1549 payload))
unfolding Fits
string-Fits payload h =
    let c = (count-c_text 1549 payload).1 in
    let a = length-append "STRING - " (c_text 1549 payload) in
    let head : count "STRING - " ≡ 9 = refl in omega (arith, a, c, head, h)

payload-Fits :
    (data_type : ℕ) (payload : List ℕ)
    → All IsByte payload
    → length payload ≤ 1500
    → Fits (interpret_udp_payload data_type payload)
unfolding interpret_udp_payload Fits
payload-Fits data_type payload h l =
    Fits-if (data_type == 0) _ _
      (int-Fits (byte_at payload 0) (ntohl payload 1) (ntohl-lt payload 1 h))
      (Fits-if (data_type == 1) _ _ (real-Fits (ntohs payload 0) (ntohs-lt payload 0 h)) (
        Fits-if (data_type == 2) _ _
          (float-Fits (byte_at payload 0) (ntohl payload 1) (byte_at payload 5)
            (ntohl-lt payload 1 h) (byte_at-IsByte payload 5 h))
          (Fits-if (data_type == 3) _ none (string-Fits payload l) tt)))

head_sizes : (count ":" ≡ 1) × (count " - " ≡ 3)
head_sizes = (refl, refl)

line-lt :
    (ip topic : String) (port : ℕ) (o : Option String) (seen line : String)
    → count ip ≤ 15
    → port < 65536
    → count topic ≤ 50
    → Fits o
    → read_line topic (ip ++ ":" ++ str port ++ " - " ++ topic ++ " - ") o
      ≡ Datagram.valid seen line
    → count line < 1600
unfolding Fits
line-lt ip topic port none seen line h k l f e = cc e
line-lt ip topic port (some text) seen line h k l f e =
    let same : (ip ++ ":" ++ str port ++ " - " ++ topic ++ " - ") ++ text ≡ line = cc e in
    let size = ap count same in
    let port_size = count-str port 4 (omega (arith, k)) in
    omega (
      arith,
      size,
      f,
      h,
      l,
      port_size,
      length-append (ip ++ ":" ++ str port ++ " - " ++ topic ++ " - ") text,
      length-append ip (":" ++ str port ++ " - " ++ topic ++ " - "),
      length-append ":" (str port ++ " - " ++ topic ++ " - "),
      length-append (str port) (" - " ++ topic ++ " - "),
      length-append " - " (topic ++ " - "),
      length-append topic " - ",
      head_sizes.0,
      head_sizes.1,
    )

-- The line for the subscribers fits the buffer of 1600 bytes with its final 0, when the bytes
-- that were received are at most 1551, as the protocol has it, the IPv4 address has at most 15
-- characters and the port is one of 16 bits.
pub read_datagram-lt :
    (ip : String) (port : ℕ) (buff : List ℕ) (topic line : String)
    → count ip ≤ 15
    → port < 65536
    → All IsByte buff
    → length buff ≤ 1551
    → read_datagram ip port buff ≡ Datagram.valid topic line
    → count line < 1600
unfolding read_datagram
read_datagram-lt ip port buff topic line h k b l e =
    let size : length (drop 51 buff) ≤ 1500 = omega (arith, length-drop 51 buff, l) in
    line-lt ip (c_text 50 buff) port (interpret_udp_payload (byte_at buff 50) (drop 51 buff)) topic
      line h k (count-c_text 50 buff).0
      (payload-Fits (byte_at buff 50) (drop 51 buff) (drop-All 51 buff b) size) e
