-- ===== src/Wire/Lines.antt =====
-- The lines for the subscribers have no null character, so a message carries them whole.
use Prim.Native.Nat.{compare}
use Prim.Native.String.{◌∷◌ as ◌◁◌, ◌++◌, count}
use mathlib.Core.List.{◌++◌ as append}
use text.Mathlib.TextLemmas.{cons-append, nil-append}
use server_client_app.Base.{
  ℕ, zero, suc, ◌+◌, ◌/◌, ◌%◌, ◌^◌, ◌<◌, String, ◌≡◌, refl, Bool, true, false, Option, none, some,
  List, [], ◌∷◌, All, length, ◌≤◌, drop, ◌==◌, if◌then◌else◌, Bool-cases, inl, inr, arith,
}
use server_client_app.Base.Int.{ℤ, pos, negsuc}
use server_client_app.Base.Int.Decimal.{Digits, Digits-str}
use server_client_app.Base.Text.{str}
use server_client_app.UdpClient.Port.{show_int}
use server_client_app.Server.Run.{Datagram}
use server_client_app.Server.Payload.{
  byte_char, byte_at, c_text, ntohs, ntohl, minus32, as_int, fixed, int_text, short_real_text,
  float_text, interpret_udp_payload, read_line, read_datagram,
}
use server_client_app.Server.Payload.Digits.{Digits-padded}
use server_client_app.Server.Payload.Room.{IsByte, drop-All}
use server_client_app.Server.Clients.{Command}
use server_client_app.Server.Payload.Room.Buffer.{read_datagram-lt}
use server_client_app.Wire.{TcpMessage, succeed, done, send_efficient, recv_efficient}
use server_client_app.Wire.Texts.{
  IsText, plain, plain→IsText, code-scalar, tcp_message_of, command_of_byte, text_of,
  recv-tcp_message_of,
}

IsText-append : (s t : String) → IsText s → IsText t → IsText (s ++ t)
unfolding IsText
IsText-append Prim.Native.String.[] t h k = rw nil-append k
IsText-append (c ◁ s) t (positive, byte, rest) k =
    rw cons-append (positive, byte, IsText-append s t rest k)

IsText-Digits : (s : String) → Digits s → IsText s
unfolding IsText
IsText-Digits Prim.Native.String.[] h = tt
IsText-Digits (c ◁ s) (d, h) = (ground (arith, d), ground (arith, d), IsText-Digits s h)

IsText-str : (n : ℕ) → IsText (str n)
IsText-str n = IsText-Digits (str n) (Digits-str n)

IsText-fixed : (power n : ℕ) → IsText (fixed power n)
unfolding fixed plain
IsText-fixed zero n = IsText-str n
IsText-fixed (suc power) n =
    IsText-append (str (n / 10 ^ suc power)) _ (IsText-str (n / 10 ^ suc power)) (
      IsText-append "." _ (plain→IsText "." refl)
        (IsText-Digits _ (Digits-padded (suc power) (n % 10 ^ suc power))))

IsText-show_int : (z : ℤ) → IsText (show_int z)
unfolding show_int plain
IsText-show_int (pos n) = IsText-str n
IsText-show_int (negsuc n) =
    IsText-append "-" (str (suc n)) (plain→IsText "-" refl) (IsText-str (suc n))

IsText-sign : (b : Bool) → IsText (if b then "-" else "")
unfolding plain
IsText-sign true = plain→IsText "-" refl
IsText-sign false = plain→IsText "" refl

IsText-c_text : (room : ℕ) (buff : List ℕ) → All IsByte buff → IsText (c_text room buff)
unfolding c_text IsText byte_char
IsText-c_text zero buff h = tt
IsText-c_text (suc room) [] h = tt
IsText-c_text (suc room) (b ∷ buff) (byte, rest) = elim (Bool-cases (b == 0)) [
  | inl ends ↦ rw ends tt
  | inr more ↦ rw more (
      let same = code-scalar b (compare b 55296) refl byte in
      (ground (arith, same, more), omega (arith, same, byte), IsText-c_text room buff rest))
]

OptionText : Option String → Type 0
OptionText none = Unit
OptionText (some text) = IsText text

OptionText-if :
    (b : Bool) (x y : Option String) → OptionText x → OptionText y → OptionText (if b then x else y)
OptionText-if true x y h k = h
OptionText-if false x y h k = k

headed : (head text : String) → plain head ≡ true → IsText text → OptionText (some (head ++ text))
unfolding OptionText
headed head text h k = IsText-append head text (plain→IsText head h) k

int-OptionText : (sign n : ℕ) → OptionText (some (int_text sign n))
unfolding int_text plain
int-OptionText sign n =
    headed "INT - " _ refl (IsText-show_int (as_int (if sign == 1 then minus32 n else n)))

payload-OptionText :
    (data_type : ℕ) (payload : List ℕ)
    → All IsByte payload
    → OptionText (interpret_udp_payload data_type payload)
unfolding interpret_udp_payload OptionText short_real_text float_text plain
payload-OptionText data_type payload h =
    OptionText-if (data_type == 0) _ _ (int-OptionText (byte_at payload 0) (ntohl payload 1)) (
      OptionText-if (data_type == 1) _ _
        (headed "SHORT_REAL - " _ refl (IsText-fixed 2 (ntohs payload 0)))
        (OptionText-if (data_type == 2) _ _
          (headed "FLOAT - " _ refl (
            IsText-append _ _ (IsText-sign (byte_at payload 0 == 1))
              (IsText-fixed (byte_at payload 5) (ntohl payload 1))))
          (OptionText-if (data_type == 3) _ none
            (headed "STRING - " _ refl (IsText-c_text 1549 payload h)) tt)))

line-IsText :
    (head topic : String) (o : Option String) (seen line : String)
    → IsText head
    → OptionText o
    → read_line topic head o ≡ Datagram.valid seen line
    → IsText line
unfolding OptionText
line-IsText head topic none seen line h k e = cc e
line-IsText head topic (some text) seen line h k e =
    let same : head ++ text ≡ line = cc e in rw (← same) (IsText-append head text h k)

read_datagram-IsText :
    (ip : String) (port : ℕ) (buff : List ℕ) (topic line : String)
    → IsText ip
    → All IsByte buff
    → read_datagram ip port buff ≡ Datagram.valid topic line
    → IsText line
unfolding read_datagram plain
read_datagram-IsText ip port buff topic line h b e =
    let dash = plain→IsText " - " refl in
    line-IsText _ (c_text 50 buff) _ topic line
      (IsText-append ip _ h (
        IsText-append ":" _ (plain→IsText ":" refl) (
          IsText-append (str port) _ (IsText-str port) (
            IsText-append " - " _ dash
              (IsText-append (c_text 50 buff) " - " (IsText-c_text 50 buff b) dash)))))
      (payload-OptionText (byte_at buff 50) (drop 51 buff) (drop-All 51 buff b)) e

-- A datagram of at most 1551 bytes that is read as a supported one, from an address of at most
-- 15 characters, none of them null or beyond a byte, and a port of 16 bits, becomes a line that
-- one message carries whole: the message that is made of it is sent, in whatever pieces, and
-- what is received, in whatever pieces, has the command MSG_FROM_UDP and the very line as the
-- text of its payload, with the bytes behind the message left. The calls of send and recv do
-- not fail.
pub read_datagram-recv :
    (ip : String) (port : ℕ) (buff : List ℕ) (topic line : String) (sizes sizes' : ℕ → ℕ)
    (rest : List ℕ)
    → IsText ip
    → count ip ≤ 15
    → port < 65536
    → All IsByte buff
    → length buff ≤ 1551
    → read_datagram ip port buff ≡ Datagram.valid topic line
    → (sent : List ℕ) × (msg : TcpMessage) × (m n : ℕ) × (send_efficient
          (tcp_message_of Command.msg_from_udp line)
          (succeed sizes)
          0
          []
        ≡ done (4 + count line) m sent)
      × (recv_efficient (succeed sizes') 0 (append sent rest) ≡ done msg n rest)
      × (command_of_byte msg.command ≡ Command.msg_from_udp)
      × (text_of msg.payload ≡ line)
read_datagram-recv ip port buff topic line sizes sizes' rest h short small bytes size e =
    let fits = read_datagram-lt ip port buff topic line short small bytes size e in
    recv-tcp_message_of Command.msg_from_udp line sizes sizes' 0 0 rest tt
      (read_datagram-IsText ip port buff topic line h bytes e) (omega (arith, fits))
