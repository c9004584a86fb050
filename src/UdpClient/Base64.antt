-- ===== src/UdpClient/Base64.antt =====
-- base64.standard_b64decode, which the client calls: the scan of the standard library, which skips
-- what is no base64 character and stops at the padding that ends a group.
pub mod Laws
use Prim.Native.Char.{code}
use Prim.Native.String
use server_client_app.Base.{
  ℕ, ◌+◌, ◌-◌, ◌*◌, ◌/◌, ◌%◌, String, ◌≡◌, refl, Bool, true, false, ◌&&◌, Option, none, some, List,
  [], ◌∷◌, leb, ltb, ◌==◌, if◌then◌else◌, Exn, Result, ok, raised,
}

-- The characters of a text, as numbers.
abbrev pub codes : String → List ℕ
codes String.[] = []
codes (String.◌∷◌ c s) = code c ∷ codes s

abbrev pub is_upper : ℕ → Bool
is_upper c = leb 65 c && leb c 90

abbrev pub is_lower : ℕ → Bool
is_lower c = leb 97 c && leb c 122

abbrev pub is_figure : ℕ → Bool
is_figure c = leb 48 c && leb c 57

-- The six bits of a character of the standard alphabet.
unfoldable pub sextet : ℕ → Option ℕ
sextet c =
    if is_upper c
    then some (c - 65)
    else if is_lower c
    then some (c - 71)
    else if is_figure c
    then some (c + 4)
    else if c == 43
    then some 62
    else if c == 47
    then some 63
    else none

-- How far the group of four is read, and the bits that are left over.
pub data Group : Type 0 where
  first : Group
  second third fourth : ℕ → Group

-- One more sextet: the byte that is complete, and the rest of the group.
unfoldable pub feed : Group → ℕ → Option ℕ × Group
feed first v = (none, second v)
feed (second left) v = (some (left * 4 + v / 16), third (v % 16))
feed (third left) v = (some (left * 16 + v / 4), fourth (v % 4))
feed (fourth left) v = (some (left * 64 + v), first)

abbrev pub emit_byte : Option ℕ → Result (List ℕ) → Result (List ℕ)
emit_byte none r = r
emit_byte (some b) (ok bs) = ok (b ∷ bs)
emit_byte (some b) (raised e) = raised e

-- A "=" ends the scan if the group has two characters and the padding fills it.
abbrev pub ends_group : Group → ℕ → Bool
ends_group first pads = false
ends_group (second left) pads = false
ends_group (third left) pads = leb 2 (pads + 1)
ends_group (fourth left) pads = true

abbrev pub counts_pad : Group → ℕ → ℕ
counts_pad first pads = pads
counts_pad (second left) pads = pads
counts_pad (third left) pads = pads + 1
counts_pad (fourth left) pads = pads + 1

unfoldable pub finish_scan : Group → Result (List ℕ)
finish_scan first = ok []
finish_scan _ = raised Exn.binascii_error

unfoldable pub scan : Group → ℕ → List ℕ → Result (List ℕ)
unfolding feed sextet finish_scan
scan g pads [] = finish_scan g
scan g pads (c ∷ cs) =
    let padded = scan g (counts_pad g pads) cs in
    let skipped = scan g pads cs in
    if c == 61 then (if ends_group g pads then ok [] else padded) else elim (sextet c) [
      | none ↦ skipped
      | some v ↦ let (byte, g') = feed g v in emit_byte byte (scan g' 0 cs)
    ]

unfoldable pub standard_b64decode : String → Result (List ℕ)
unfolding scan
standard_b64decode s = scan first 0 (codes s)

decode_sample : standard_b64decode "AgEA\nvFwBBA==" ≡ ok (2 ∷ 1 ∷ 0 ∷ 188 ∷ 92 ∷ 1 ∷ 4 ∷ [])
unfolding standard_b64decode
decode_sample = refl

decode_short : standard_b64decode "AgEAvFwBB" ≡ raised Exn.binascii_error
unfolding standard_b64decode
decode_short = refl
