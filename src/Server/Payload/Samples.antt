-- ===== src/Server/Payload/Samples.antt =====
-- The sample payloads of the load generator, from the file's base64 text to the line for the
-- subscribers, which the tests of test.py look for.
use Prim.Native.String.{◌++◌, count}
use server_client_app.Base.{
  ℕ, ◌/◌, ◌%◌, ◌<◌, String, ◌≡◌, refl, true, some, List, [], ◌∷◌, Result, ok, arith,
}
use server_client_app.UdpClient.Port.{show_int}
use server_client_app.UdpClient.Base64.{standard_b64decode}
use server_client_app.Server.Run.{Datagram}
use server_client_app.Server.Payload.{read_datagram, interpret_udp_payload}
use server_client_app.Server.Payload.Integers.{htonl, sign_byte, wrapped}
use server_client_app.Server.Payload.Reals.{IsDecimal, with_sign, interpret_udp_payload-Texts}
use server_client_app.Server.Payload.Room.Buffer.{read_datagram-lt}

read_base64 : String → Result Datagram
unfolding standard_b64decode read_datagram
read_base64 text = elim (standard_b64decode text) [
  | ok bytes ↦ ok (read_datagram "127.0.0.1" 4000 bytes)
  | Result.raised e ↦ Result.raised e
]

an_int_sample :
    read_base64 "YV9ub25fbmVnYXRpdmVfaW50AAAAAAAAAAAAAAAAAAAAAAAAAAAAAAAAAAAAAAAAAAAAAAAAAAo="
    ≡ ok (Datagram.valid "a_non_negative_int" "127.0.0.1:4000 - a_non_negative_int - INT - 10")
unfolding read_base64
an_int_sample = refl

a_large_negative_int_sample :
    read_base64 "YV9sYXJnZV9uZWdhdGl2ZV92YWx1ZQAAAAAAAAAAAAAAAAAAAAAAAAAAAAAAAAAAAAAAAUmWAtI="
    ≡ ok (
        Datagram.valid "a_large_negative_value"
          "127.0.0.1:4000 - a_large_negative_value - INT - -1234567890")
unfolding read_base64
a_large_negative_int_sample = refl

fifty_sample :
    read_base64 "YWJjZGVmZ2hpamtsbW5vcHFyc3R1dnd4eXphYmNkZWZnaGlqa2xtbm9wcXJzdHV2d3gAAAAAAAo="
    ≡ ok (
        Datagram.valid "abcdefghijklmnopqrstuvwxyzabcdefghijklmnopqrstuvwx"
          "127.0.0.1:4000 - abcdefghijklmnopqrstuvwxyzabcdefghijklmnopqrstuvwx - INT - 10")
unfolding read_base64
fifty_sample = refl

a_short_real_sample :
    read_base64 "dGhhdF9pc19zbWFsbF9zaG9ydF9yZWFsAAAAAAAAAAAAAAAAAAAAAAAAAAAAAAAAAAABAOY="
    ≡ ok (
        Datagram.valid "that_is_small_short_real"
          "127.0.0.1:4000 - that_is_small_short_real - SHORT_REAL - 2.30")
unfolding read_base64
a_short_real_sample = refl

an_integer_short_real_sample :
    read_base64 "dGhhdF9pc19pbnRlZ2VyX3Nob3J0X3JlYWwAAAAAAAAAAAAAAAAAAAAAAAAAAAAAAAABBqQ="
    ≡ ok (
        Datagram.valid "that_is_integer_short_real"
          "127.0.0.1:4000 - that_is_integer_short_real - SHORT_REAL - 17.00")
unfolding read_base64
an_integer_short_real_sample = refl

a_float_sample :
    read_base64 "ZmxvYXRfbWludXNfc2V2ZW50ZWVuAAAAAAAAAAAAAAAAAAAAAAAAAAAAAAAAAAAAAAACAQAAABEA"
    ≡ ok (
        Datagram.valid "float_minus_seventeen"
          "127.0.0.1:4000 - float_minus_seventeen - FLOAT - -17")
unfolding read_base64
a_float_sample = refl

a_strange_float_sample :
    read_base64 "YV9uZWdhdGl2ZV9zdHJhbmdlX2Zsb2F0AAAAAAAAAAAAAAAAAAAAAAAAAAAAAAAAAAACAQC8XAEE"
    ≡ ok (
        Datagram.valid "a_negative_strange_float"
          "127.0.0.1:4000 - a_negative_strange_float - FLOAT - -1234.4321")
unfolding read_base64
a_strange_float_sample = refl

a_small_float_sample :
    read_base64 "YV9zdWJ1bml0YXJ5X2Zsb2F0AAAAAAAAAAAAAAAAAAAAAAAAAAAAAAAAAAAAAAAAAAACAAAAACoD"
    ≡ ok (Datagram.valid "a_subunitary_float" "127.0.0.1:4000 - a_subunitary_float - FLOAT - 0.042")
unfolding read_base64
a_small_float_sample = refl

a_string_sample :
    read_base64
      "YW5hX3N0cmluZ19hbm5vdW5jZQAAAAAAAAAAAAAAAAAAAAAAAAAAAAAAAAAAAAAAAAADQW5hIGFyZSBtZXJl"
    ≡ ok (
        Datagram.valid "ana_string_announce"
          "127.0.0.1:4000 - ana_string_announce - STRING - Ana are mere")
unfolding read_base64
a_string_sample = refl

-- A topic of three characters, and the payload behind its 50 bytes.
abbrev zeros : List ℕ → List ℕ
zeros rest =
    0 ∷ 0 ∷ 0 ∷ 0 ∷ 0 ∷ 0 ∷ 0 ∷ 0 ∷ 0 ∷ 0 ∷ 0 ∷ 0 ∷ 0 ∷ 0 ∷ 0 ∷ 0 ∷ 0 ∷ 0 ∷ 0 ∷ 0 ∷ 0 ∷ 0 ∷ 0 ∷ 0
    ∷ 0 ∷ 0 ∷ 0 ∷ 0 ∷ 0 ∷ 0 ∷ 0 ∷ 0 ∷ 0 ∷ 0 ∷ 0 ∷ 0 ∷ 0 ∷ 0 ∷ 0 ∷ 0 ∷ 0 ∷ 0 ∷ 0 ∷ 0 ∷ 0 ∷ 0 ∷ 0
    ∷ rest

abbrev pub datagram : List ℕ
datagram = 117 ∷ 112 ∷ 98 ∷ zeros (0 ∷ 1 ∷ htonl 17 [])

pub datagram_read :
    read_datagram "127.0.0.1" 4000 datagram
    ≡ Datagram.valid "upb" "127.0.0.1:4000 - upb - INT - -17"
unfolding read_datagram
datagram_read = refl

read_datagram-lt_example : count "127.0.0.1:4000 - upb - INT - -17" < 1600
read_datagram-lt_example =
    read_datagram-lt "127.0.0.1" 4000 datagram "upb" "127.0.0.1:4000 - upb - INT - -17"
      (omega arith) (omega arith) (ground arith) (omega arith) datagram_read

interpret_udp_payload-Texts_example :
    (interpret_udp_payload 0 (sign_byte true ∷ htonl 12344321 [])
      ≡ some ("INT - " ++ show_int (wrapped true 12344321)))
    × ((text : String) × IsDecimal text 2 230
        × (interpret_udp_payload 1 (230 / 256 ∷ 230 % 256 ∷ []) ≡ some ("SHORT_REAL - " ++ text)))
    × ((text : String) × IsDecimal text 4 12344321
        × (interpret_udp_payload 2 (sign_byte true ∷ htonl 12344321 (4 ∷ []))
            ≡ some ("FLOAT - " ++ with_sign true text)))
interpret_udp_payload-Texts_example =
    interpret_udp_payload-Texts true 12344321 3 230 (omega arith) (omega arith)
