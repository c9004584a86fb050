-- ===== src/UdpClient/Ip.antt =====
-- ipaddress.ip_address, as udp_client.py uses it for the two addresses.
--
-- An address is the text that str() gives for it. IPv4 texts are read here; the reading of the
-- other texts as IPv6 addresses is an argument.
pub mod Laws
use Prim.Native.Char.{Char, code}
use Prim.Native.String.{◌∷◌ as ◌◁◌, ◌++◌}
use server_client_app.Base.{
  ℕ, suc, ◌+◌, ◌-◌, ◌*◌, String, Bool, false, ◌&&◌, not, Option, none, some, List, [], ◌∷◌, map,
  leb, ◌==◌, if◌then◌else◌,
}
use server_client_app.Base.Int.{is_digit}
use server_client_app.Base.Text.{str}

push : Char → List String → List String
push c [] = (c ◁ "") ∷ []
push c (s ∷ fields) = (c ◁ s) ∷ fields

-- text.split('.')
unfoldable pub split_dots : String → List String
unfolding push
split_dots Prim.Native.String.[] = "" ∷ []
split_dots (c ◁ s) =
    let fields = split_dots s in if code c == 46 then "" ∷ fields else push c fields

-- The number that ASCII digits write, at most three of them.
unfoldable pub digits_up_to : ℕ → ℕ → String → Option ℕ
digits_up_to room acc Prim.Native.String.[] = some acc
digits_up_to ℕ.zero acc (c ◁ s) = none
digits_up_to (suc room) acc (c ◁ s) =
    let value = digits_up_to room (acc * 10 + (code c - 48)) s in
    if is_digit (code c) then value else none

is_empty : String → Bool
is_empty Prim.Native.String.[] = Bool.true
is_empty (c ◁ s) = false

at_most_255 : Option ℕ → Option ℕ
at_most_255 none = none
at_most_255 (some n) = if leb n 255 then some n else none

-- A field of the dotted form: no leading zero, at most 255.
unfoldable pub octet : String → Option ℕ
unfolding digits_up_to is_empty at_most_255
octet Prim.Native.String.[] = none
octet (c ◁ s) =
    if code c == 48 && not (is_empty s) then none else at_most_255 (digits_up_to 3 0 (c ◁ s))

unfoldable pub dotted : ℕ → ℕ → ℕ → ℕ → String
dotted a b c d = str a ++ ("." ++ (str b ++ ("." ++ (str c ++ ("." ++ str d)))))

from_octets : List (Option ℕ) → Option String
from_octets (some a ∷ some b ∷ some c ∷ some d ∷ []) = some (dotted a b c d)
from_octets _ = none

unfoldable pub ipv4_address : String → Option String
unfolding split_dots octet from_octets
ipv4_address text = from_octets (map octet (split_dots text))

unfoldable pub or_else : Option String → Option String → Option String
or_else none other = other
or_else (some address) other = some address

-- ip_address(text), `none` for its ValueError
unfoldable pub ip_address : (String → Option String) → String → Option String
unfolding or_else
ip_address ipv6 text = or_else (ipv4_address text) (ipv6 text)
