-- ===== src/Wire/Texts.antt =====
-- The messages that Server.cpp and Subscriber.cpp make of a command and a text, and what they read
-- in a message that came. A text is its bytes, each the character of its code.
use Prim.Native.Char.{Char, code}
use Prim.Native.Nat.{compare, Ordering}
use Prim.Native.String.{◌∷◌ as ◌◁◌, count}
use mathlib.Core.List.{◌++◌}
use native.Mathlib.Omega.{compare-eq, compare-gt}
use text.Mathlib.TextEquality.{Char-path}
use text.Mathlib.TextLemmas.{length-nil, length-cons}
use server_client_app.Base.{
  ℕ, ◌+◌, ◌%◌, ◌<◌, String, ◌≡◌, refl, ap, ◌∙◌, false, List, [], ◌∷◌, length, arith, ◌==◌, leb,
  ◌&&◌, Bool, true, if◌then◌else◌,
}
use server_client_app.Server.Clients.{Command}
use server_client_app.Server.Payload.{scalar_or_nul, byte_char, c_text}
use server_client_app.Wire.{TcpMessage, succeed, done, send_efficient, recv_efficient}
use server_client_app.Wire.RoundTrip.{IsMessage, recv-send}

-- protocols.h
unfoldable pub code_of : Command → ℕ
code_of Command.connect_req = 0
code_of Command.connect_accepted = 1
code_of Command.connect_denied = 2
code_of Command.subscribe_req = 3
code_of Command.unsubscribe_req = 4
code_of Command.subscribe_succ = 5
code_of Command.subscribe_fail = 6
code_of Command.unsubscribe_succ = 7
code_of Command.unsubscribe_fail = 8
code_of Command.msg_from_udp = 9
code_of (Command.other_command n) = n

unfoldable pub command_of_byte : ℕ → Command
command_of_byte n =
    if n == 0
    then Command.connect_req
    else if n == 1
    then Command.connect_accepted
    else if n == 2
    then Command.connect_denied
    else if n == 3
    then Command.subscribe_req
    else if n == 4
    then Command.unsubscribe_req
    else if n == 5
    then Command.subscribe_succ
    else if n == 6
    then Command.subscribe_fail
    else if n == 7
    then Command.unsubscribe_succ
    else if n == 8
    then Command.unsubscribe_fail
    else if n == 9
    then Command.msg_from_udp
    else Command.other_command n

-- strdup, with the 0 at the end
unfoldable pub bytes_of : String → List ℕ
bytes_of Prim.Native.String.[] = 0 ∷ []
bytes_of (c ◁ s) = code c ∷ bytes_of s

unfoldable pub tcp_message_of : Command → String → TcpMessage
unfolding code_of bytes_of
tcp_message_of command text = record {
  command = code_of command;
  len = (count text + 1) % 65536;
  payload = bytes_of text;
}

-- The text that a payload is printed as.
unfoldable pub text_of : List ℕ → String
unfolding c_text
text_of payload = c_text (length payload) payload

-- A command of the protocol.
abbrev pub IsCommand : Command → Type 0
IsCommand (Command.other_command n) = ⊥
IsCommand _ = Unit

-- Each character is a byte that is not 0.
unfoldable pub IsText : String → Type 0
IsText Prim.Native.String.[] = Unit
IsText (c ◁ s) = (0 < code c) × (code c < 256) × IsText s

unfoldable pub plain : String → Bool
plain Prim.Native.String.[] = true
plain (c ◁ s) = leb 1 (code c) && leb (code c) 255 && plain s

pub plain→IsText : (s : String) → plain s ≡ true → IsText s
unfolding plain IsText
plain→IsText Prim.Native.String.[] h = tt
plain→IsText (c ◁ s) h = (ground arith, ground arith, plain→IsText s (ground arith))

command_of_byte-code_of : (c : Command) → IsCommand c → command_of_byte (code_of c) ≡ c
unfolding command_of_byte code_of
command_of_byte-code_of Command.connect_req h = refl
command_of_byte-code_of Command.connect_accepted h = refl
command_of_byte-code_of Command.connect_denied h = refl
command_of_byte-code_of Command.subscribe_req h = refl
command_of_byte-code_of Command.unsubscribe_req h = refl
command_of_byte-code_of Command.subscribe_succ h = refl
command_of_byte-code_of Command.subscribe_fail h = refl
command_of_byte-code_of Command.unsubscribe_succ h = refl
command_of_byte-code_of Command.unsubscribe_fail h = refl
command_of_byte-code_of Command.msg_from_udp h = refl
command_of_byte-code_of (Command.other_command n) h = absurd h

pub code-scalar :
    (n : ℕ) (o : Ordering) (p : compare n 55296 ≡ o) → n < 256 → code (scalar_or_nul n o p) ≡ n
unfolding scalar_or_nul
code-scalar n Ordering.lt p h = refl
code-scalar n Ordering.eq p h = absurd (omega (arith, compare-eq n 55296 p))
code-scalar n Ordering.gt p h = absurd (omega (arith, compare-gt n 55296 p))

byte_char-code : (c : Char) → code c < 256 → byte_char (code c) ≡ c
unfolding byte_char
byte_char-code c h =
    Char-path (byte_char (code c)) c (code-scalar (code c) (compare (code c) 55296) refl h)

length-bytes_of : (s : String) → length (bytes_of s) ≡ count s + 1
unfolding bytes_of
length-bytes_of Prim.Native.String.[] = omega (arith, length-nil)
length-bytes_of (c ◁ s) = omega (arith, length-cons c s, length-bytes_of s)

text_of-bytes_of : (s : String) → IsText s → text_of (bytes_of s) ≡ s
unfolding text_of c_text bytes_of IsText
text_of-bytes_of Prim.Native.String.[] h = refl
text_of-bytes_of (c ◁ s) (positive, byte, rest) =
    let more : (code c == 0) ≡ false = ground arith in
    rw more (rw (byte_char-code c byte) (ap (λ (t : String). c ◁ t) (text_of-bytes_of s rest)))

tcp_message_of-IsMessage :
    (command : Command) (text : String)
    → count text < 65535
    → IsMessage (tcp_message_of command text)
unfolding tcp_message_of
tcp_message_of-IsMessage command text h = record {
  len = omega arith;
  payload = omega (arith, length-bytes_of text);
}

-- Wire.
pub recv-tcp_message_of :
    (command : Command) (text : String) (sizes sizes' : ℕ → ℕ) (k k' : ℕ) (rest : List ℕ)
    → IsCommand command
    → IsText text
    → count text < 65535
    → (sent : List ℕ) × (msg : TcpMessage) × (m n : ℕ) × (send_efficient
          (tcp_message_of command text)
          (succeed sizes)
          k
          []
        ≡ done (4 + count text) m sent)
      × (recv_efficient (succeed sizes') k' (sent ++ rest) ≡ done msg n rest)
      × (command_of_byte msg.command ≡ command)
      × (text_of msg.payload ≡ text)
unfolding tcp_message_of
recv-tcp_message_of command text sizes sizes' k k' rest known plain short =
    let msg = tcp_message_of command text in
    let (m, n, sent, sends, receives) =
      recv-send msg sizes sizes' k k' rest (tcp_message_of-IsMessage command text short) in
    let size : 3 + (count text + 1) % 65536 ≡ 4 + count text = omega arith in
    (
      sent,
      msg,
      m,
      n,
      sends ∙ ap (λ (l : ℕ). done l m sent) size,
      receives,
      command_of_byte-code_of command known,
      text_of-bytes_of text plain,
    )
