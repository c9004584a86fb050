-- ===== src/UdpClient/Base64/Laws.antt =====
-- Decoding undoes the standard encoding (RFC 4648), which is written here as the specification.
use server_client_app.Base.{
  String, ℕ, ◌+◌, ◌-◌, ◌*◌, ◌/◌, ◌%◌, ◌<◌, ◌≡◌, refl, false, ap, ◌∙◌, some, List, [], ◌∷◌, All,
  arith, ltb, ◌==◌, if◌then◌else◌, ok,
}
use server_client_app.UdpClient.Base64.{
  codes, standard_b64decode, Group, first, second, third, fourth, sextet, feed, emit_byte, scan,
  finish_scan,
}

-- The character of six bits.
pub alphabet : ℕ → ℕ
alphabet v =
    if ltb v 26
    then v + 65
    else if ltb v 52
    then v + 71
    else if ltb v 62
    then v - 4
    else if v == 62
    then 43
    else 47

unfoldable pub encode : List ℕ → List ℕ
unfolding alphabet
encode [] = []
encode (a ∷ []) = alphabet (a / 4) ∷ alphabet (a % 4 * 16) ∷ 61 ∷ 61 ∷ []
encode (a ∷ b ∷ []) =
    alphabet (a / 4) ∷ alphabet (a % 4 * 16 + b / 16) ∷ alphabet (b % 16 * 4) ∷ 61 ∷ []
encode (a ∷ b ∷ c ∷ rest) =
    alphabet (a / 4)
    ∷ alphabet (a % 4 * 16 + b / 16)
    ∷ alphabet (b % 16 * 4 + c / 64)
    ∷ alphabet (c % 64)
    ∷ encode rest

abbrev pub IsByte : ℕ → Type 0
IsByte b = b < 256

sextet-alphabet : (v : ℕ) → v < 64 → sextet (alphabet v) ≡ some v
unfolding sextet alphabet
sextet-alphabet v h = ground arith

alphabet-ne_pad : (v : ℕ) → v < 64 → (alphabet v == 61) ≡ false
unfolding alphabet
alphabet-ne_pad v h = ground arith

scan-alphabet :
    (g : Group) (pads v : ℕ) (cs : List ℕ)
    → v < 64
    → scan g pads (alphabet v ∷ cs) ≡ emit_byte (feed g v).0 (scan (feed g v).1 0 cs)
unfolding scan
scan-alphabet g pads v cs h = rw (alphabet-ne_pad v h) (rw (sextet-alphabet v h) refl)

byte_0 : (a : ℕ) → a / 4 * 4 + a % 4 * 16 / 16 ≡ a
byte_0 a = omega arith

byte_1 : (a b : ℕ) → b < 256 → a / 4 * 4 + (a % 4 * 16 + b / 16) / 16 ≡ a
byte_1 a b h = omega arith

byte_2 :
    (a b c : ℕ)
    → b < 256
    → c < 256
    → (a % 4 * 16 + b / 16) % 16 * 16 + (b % 16 * 4 + c / 64) / 4 ≡ b
byte_2 a b c h k = omega arith

byte_2' : (a b : ℕ) → b < 256 → (a % 4 * 16 + b / 16) % 16 * 16 + b % 16 * 4 / 4 ≡ b
byte_2' a b h = omega arith

byte_3 : (b c : ℕ) → c < 256 → (b % 16 * 4 + c / 64) % 4 * 64 + c % 64 ≡ c
byte_3 b c h = omega arith

scan_two :
    (a v : ℕ) (cs : List ℕ)
    → a < 256
    → v < 64
    → scan first 0 (alphabet (a / 4) ∷ alphabet v ∷ cs)
      ≡ emit_byte (some (a / 4 * 4 + v / 16)) (scan (third (v % 16)) 0 cs)
unfolding feed
scan_two a v cs h k =
    scan-alphabet first 0 (a / 4) _ (omega arith) ∙ scan-alphabet (second (a / 4)) 0 v cs k

-- Every list of bytes comes back from its encoding.
pub scan-encode : (bs : List ℕ) → All IsByte bs → scan first 0 (encode bs) ≡ ok bs
unfolding encode feed finish_scan scan
scan-encode [] h = refl
scan-encode (a ∷ []) h =
    scan_two a (a % 4 * 16) (61 ∷ 61 ∷ []) h.0 (omega arith)
    ∙ ap (λ (x : ℕ). ok (x ∷ [])) (byte_0 a)
scan-encode (a ∷ b ∷ []) h = rw (scan_two a (a % 4 * 16 + b / 16) _ h.0 (omega arith)) (
    rw (scan-alphabet (third _) 0 (b % 16 * 4) _ (omega arith))
      (cc (byte_1 a b h.1.0, byte_2' a b h.1.0)))
scan-encode (a ∷ b ∷ c ∷ rest) h = rw (scan_two a (a % 4 * 16 + b / 16) _ h.0 (omega arith)) (
    rw (scan-alphabet (third _) 0 (b % 16 * 4 + c / 64) _ (omega arith)) (
      rw (scan-alphabet (fourth _) 0 (c % 64) _ (omega arith)) (
        rw (scan-encode rest h.1.1.1)
          (cc (byte_1 a b h.1.0, byte_2 a b c h.1.0 h.1.1.0, byte_3 b c h.1.1.0)))))

-- A text that is the standard encoding of some bytes is decoded to these bytes.
pub decode-encode :
    (s : String) (bs : List ℕ) → codes s ≡ encode bs → All IsByte bs → standard_b64decode s ≡ ok bs
unfolding standard_b64decode
decode-encode s bs e h = ap (scan first 0) e ∙ scan-encode bs h
