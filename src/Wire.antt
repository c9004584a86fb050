-- ===== src/Wire.antt =====
-- protocols.cpp: a message over TCP, sent and received in pieces.
--
-- A stream is the list of the bytes that are under way. `calls k` is how many bytes the k-th call of
-- send or recv moves at most, less one, or `none` where it fails: a call that does not fail moves at
-- least one byte of those that it may. A recv on an empty stream finds the connection closed. The
-- loops run on fuel, one for each byte.
pub mod Loops
pub mod RoundTrip
pub mod CutOff
pub mod Texts
pub mod Lines
pub mod Samples
use server_client_app.Base.{
  Option, none, some, ℕ, zero, suc, ◌+◌, ◌-◌, ◌*◌, ◌/◌, ◌%◌, ◌≡◌, refl, List, [], ◌∷◌, length, drop,
  leb, ◌==◌, if◌then◌else◌,
}
use mathlib.Core.List.{◌++◌}

-- struct tcp_message; the bytes that `payload` points to.
pub record TcpMessage : Type 0 where
  pub command : ℕ
  pub len : ℕ
  pub payload : List ℕ

abbrev pub take : ℕ → List ℕ → List ℕ
take zero bs = []
take (suc n) [] = []
take (suc n) (b ∷ bs) = b ∷ take n bs

abbrev pub min : ℕ → ℕ → ℕ
min a b = if leb a b then a else b

pub data Outcome (A : Type 0) : Type 0 where
  -- the value, the number of calls made, and the stream that is left
  done : A → ℕ → List ℕ → Outcome A
  -- the 0 and the -1 of the source
  closed failed : Outcome A
  out_of_fuel : Outcome A

abbrev pub then_read : {A B : Type 0} → Outcome A → (A → ℕ → List ℕ → Outcome B) → Outcome B
then_read (done a k s) f = f a k s
then_read closed f = closed
then_read failed f = failed
then_read out_of_fuel f = out_of_fuel

-- Calls that do not fail.
abbrev pub succeed : (ℕ → ℕ) → ℕ → Option ℕ
succeed sizes k = some (sizes k)

-- One call of recv, that may take one byte and so many more.
unfoldable pub recv : Option ℕ → ℕ → List ℕ → Outcome (List ℕ)
recv none remaining s = failed
recv (some size) remaining [] = closed
recv (some size) remaining (b ∷ s) = let n = min remaining size in done (b ∷ take n s) 0 (drop n s)

-- while (bytes_remaining): recv
unfoldable pub recv_loop : ℕ → ℕ → (ℕ → Option ℕ) → ℕ → List ℕ → Outcome (List ℕ)
unfolding recv
recv_loop fuel zero calls k s = done [] k s
recv_loop zero (suc remaining) calls k s = out_of_fuel
recv_loop (suc fuel) (suc remaining) calls k s =
    let received = recv (calls k) remaining s in
    then_read received λ bs k' s'.
      then_read (recv_loop fuel (suc remaining - length bs) calls (k + 1) s')
        λ more k'' s''. done (bs ++ more) k'' s''

-- recv of so many bytes
abbrev pub recv_bytes : ℕ → (ℕ → Option ℕ) → ℕ → List ℕ → Outcome (List ℕ)
recv_bytes n = recv_loop n n

-- The byte that a one-byte field was filled with.
abbrev pub first_byte : List ℕ → ℕ
first_byte [] = 0
first_byte (b ∷ bs) = b

-- ntohs of the two bytes of the field
abbrev pub ntohs : List ℕ → ℕ
ntohs (a ∷ b ∷ bs) = a * 256 + b
ntohs _ = 0

-- The bytes of htons(len), in memory.
abbrev pub htons : ℕ → List ℕ
htons len = len / 256 % 256 ∷ len % 256 ∷ []

unfoldable pub recv_payload : ℕ → ℕ → (ℕ → Option ℕ) → ℕ → List ℕ → Outcome TcpMessage
unfolding recv_loop
recv_payload command len calls k s =
    let rest =
      then_read (recv_bytes len calls k s)
        λ payload k' s'. done (record { command = command; len = len; payload = payload }) k' s' in
    if len == 0 then done (record { command = command; len = len; payload = [] }) k s else rest

unfoldable pub recv_efficient : (ℕ → Option ℕ) → ℕ → List ℕ → Outcome TcpMessage
unfolding recv_payload
recv_efficient calls k s = then_read (recv_bytes 1 calls k s) λ command k' s'.
    then_read (recv_bytes 2 calls k' s')
      λ len k'' s''. recv_payload (first_byte command) (ntohs len) calls k'' s''

-- One call of send on a buffer that is not empty: the number of bytes that it took.
unfoldable pub send : Option ℕ → ℕ → List ℕ → List ℕ → Outcome ℕ
send none b buff s = failed
send (some size) b buff s = let n = min (length buff) size in done (suc n) 0 (s ++ b ∷ take n buff)

-- while (bytes_remaining): send. The stream that is left is the one with the bytes at its end.
unfoldable pub send_loop : ℕ → List ℕ → (ℕ → Option ℕ) → ℕ → List ℕ → Outcome ℕ
unfolding send
send_loop fuel [] calls k s = done 0 k s
send_loop zero (b ∷ buff) calls k s = out_of_fuel
send_loop (suc fuel) (b ∷ buff) calls k s = then_read (send (calls k) b buff s) λ n _ s'.
    then_read (send_loop fuel (drop n (b ∷ buff)) calls (k + 1) s')
      λ total k'' s''. done (n + total) k'' s''

abbrev pub send_bytes : List ℕ → (ℕ → Option ℕ) → ℕ → List ℕ → Outcome ℕ
send_bytes buff = send_loop (length buff) buff

-- The number of bytes that were sent.
unfoldable pub send_efficient : TcpMessage → (ℕ → Option ℕ) → ℕ → List ℕ → Outcome ℕ
unfolding send_loop
send_efficient msg calls k s = then_read (send_bytes (msg.command ∷ []) calls k s) λ a k' s'.
    then_read (send_bytes (htons msg.len) calls k' s') λ b k'' s''.
      then_read (send_bytes (take msg.len msg.payload) calls k'' s'')
        λ c k₃ s₃. done (a + b + c) k₃ s₃
