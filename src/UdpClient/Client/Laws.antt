-- ===== src/UdpClient/Client/Laws.antt =====
-- Sending one entry of the file, and each entry once.
use mathlib.Core.List.{◌++◌ as append}
use server_client_app.Base.{ℕ, String, ◌≡◌, refl, ap, List, [], ◌∷◌, All, length, ok}
use server_client_app.Base.Int.{ℤ, pos}
use server_client_app.UdpClient.Base64.{codes}
use server_client_app.UdpClient.Base64.Laws.{encode, IsByte, decode-encode}
use server_client_app.UdpClient.Client.{
  Message, Args, Event, sent, printed, slept, asked, Net, send_message, sent_line,
}

-- The datagrams among the events, in order.
unfoldable pub datagrams : List Event → List (List ℕ)
datagrams [] = []
datagrams (sent payload ip port ∷ es) = payload ∷ datagrams es
datagrams (printed t ∷ es) = datagrams es
datagrams (slept ms ∷ es) = datagrams es
datagrams (asked t ∷ es) = datagrams es

pub datagrams-append :
    (es fs : List Event) → datagrams (append es fs) ≡ append (datagrams es) (datagrams fs)
unfolding datagrams
datagrams-append [] fs = refl
datagrams-append (sent payload ip port ∷ es) fs =
    ap (λ (l : List (List ℕ)). payload ∷ l) (datagrams-append es fs)
datagrams-append (printed t ∷ es) fs = datagrams-append es fs
datagrams-append (slept ms ∷ es) fs = datagrams-append es fs
datagrams-append (asked t ∷ es) fs = datagrams-append es fs

-- The entry's payload is the standard encoding of these bytes.
pub record Encodes (m : Message) (bs : List ℕ) : Type 0 where
  pub text : codes m.payload_base64 ≡ encode bs
  pub bytes : All IsByte bs

-- The socket takes each datagram whole.
abbrev pub Works : Net → Type 0
Works net = (bs : List ℕ) (ip : String) (port : ℤ) → net.send bs ip port ≡ ok (length bs)

-- With a socket that takes every datagram and a delay that is not negative, an entry is sent as
-- the bytes that its payload encodes, to the server's address, and reported with the number of
-- bytes; then the client waits.
pub send_message_lem :
    (net : Net) (args : Args) (ms : ℕ) (m : Message) (bs : List ℕ)
    → Works net
    → args.delay ≡ pos ms
    → Encodes m bs
    → send_message net args m ≡ record {
      events =
          sent bs args.server_ip args.server_port
          ∷ printed (sent_line (length bs) bs m.description)
          ∷ slept ms
          ∷ [];
      result = ok tt;
    }
unfolding send_message
send_message_lem net args ms m bs works d e =
    rw (decode-encode m.payload_base64 bs e.text e.bytes)
      (rw (works bs args.server_ip args.server_port) (rw d refl))
