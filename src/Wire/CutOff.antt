-- ===== src/Wire/CutOff.antt =====
-- A message that is cut off is not received.
use mathlib.Core.List.{◌++◌}
use server_client_app.Base.{
  ℕ, zero, suc, ◌+◌, ◌-◌, ◌/◌, ◌%◌, ◌<◌, ◌≤◌, ◌≡◌, refl, List, [], ◌∷◌, length, drop, arith,
  Bool-cases, inl, inr, ==_iff, ◌==◌,
}
use server_client_app.Wire.{
  TcpMessage, recv, succeed, take, min, closed, recv_loop, recv_payload, recv_efficient, htons,
}
use server_client_app.Wire.Loops.{sub_suc, min_le, recv_loop-append}
use server_client_app.Wire.RoundTrip.{IsMessage, wire, order}

-- What a call leaves is shorter by what it took.
drop_rest :
    (n m : ℕ) (s : List ℕ) → length s < n → m ≤ n → length (drop m s) < n - length (take m s)
drop_rest n zero s h le = omega arith
drop_rest n (suc m) [] h le = omega arith
drop_rest zero (suc m) (b ∷ s) h le = absurd (omega arith)
drop_rest (suc n) (suc m) (b ∷ s) h le =
    let ih = drop_rest n m s (omega arith) (omega arith) in omega arith

-- A stream that is too short is read to its end, and then found closed.
recv_loop-short :
    (fuel n : ℕ) (sizes : ℕ → ℕ) (k : ℕ) (s : List ℕ)
    → length s < n
    → n ≤ fuel
    → recv_loop fuel n (succeed sizes) k s ≡ closed
unfolding recv_loop recv
recv_loop-short fuel zero sizes k s h le = absurd (omega arith)
recv_loop-short zero (suc n) sizes k s h le = absurd (omega arith)
recv_loop-short (suc fuel) (suc n) sizes k [] h le = refl
recv_loop-short (suc fuel) (suc n) sizes k (b ∷ s) h le =
    let m = min n (sizes k) in
    let short = drop_rest n m s (omega arith) (min_le n (sizes k)) in
    let ih =
      recv_loop-short fuel (n - length (take m s)) sizes (k + 1) (drop m s) short (omega arith) in
    rw (sub_suc n (length (take m s))) (rw ih refl)

no_length : (s : List ℕ) {len : ℕ} → len ≡ 0 → length s < len → ⊥
no_length s e h = omega arith

same_le : (n : ℕ) → n ≤ n
same_le n = omega arith

length-take_le : (n : ℕ) (bs : List ℕ) → length (take n bs) ≤ n
length-take_le zero bs = omega arith
length-take_le (suc n) [] = omega arith
length-take_le (suc n) (b ∷ bs) = let ih = length-take_le n bs in omega arith

short_part : (n len : ℕ) (bs : List ℕ) → n < len → length (take n bs) < len
short_part n len bs h = let le = length-take_le n bs in omega arith

recv_payload-short :
    (command len : ℕ) (sizes : ℕ → ℕ) (k : ℕ) (s : List ℕ)
    → length s < len
    → recv_payload command len (succeed sizes) k s ≡ closed
unfolding recv_payload
recv_payload-short command len sizes k s h = elim (Bool-cases (len == 0)) [
  | inl e ↦ absurd (no_length s ((==_iff len 0).0 e) h)
  | inr e ↦ rw e (rw (recv_loop-short len len sizes k s h (same_le len)) refl)
]

-- Of a message whose length fits its field and whose payload is as long as it says, no part
-- that is cut off is received: recv_efficient finds the connection closed, in whatever pieces
-- the calls of recv move the bytes.
pub recv_efficient-cut :
    (msg : TcpMessage) (sizes : ℕ → ℕ) (k n : ℕ)
    → IsMessage msg
    → n < 3 + msg.len
    → recv_efficient (succeed sizes) k (take n (wire msg)) ≡ closed
unfolding recv_efficient recv_loop recv
recv_efficient-cut msg sizes k zero h lt = refl
recv_efficient-cut msg sizes k (suc zero) h lt =
    let (k₁, e₁) = recv_loop-append 1 1 sizes k (msg.command ∷ []) [] refl (omega arith) in
    rw e₁ refl
recv_efficient-cut msg sizes k (suc (suc zero)) h lt =
    let (k₁, e₁) =
      recv_loop-append 1 1 sizes k (msg.command ∷ []) (msg.len / 256 % 256 ∷ []) refl
        (omega arith) in
    rw e₁ (
      rw (recv_loop-short 2 2 sizes k₁ (msg.len / 256 % 256 ∷ []) (omega arith) (omega arith)) refl)
recv_efficient-cut msg sizes k (suc (suc (suc n))) h lt =
    let part = take n msg.payload in
    let (k₁, e₁) =
      recv_loop-append 1 1 sizes k (msg.command ∷ []) (htons msg.len ++ part) refl (omega arith) in
    let (k₂, e₂) = recv_loop-append 2 2 sizes k₁ (htons msg.len) part refl (omega arith) in
    rw e₁ (
      rw e₂ (
        rw (order msg.len h.len) (
          recv_payload-short msg.command msg.len sizes k₂ part
            (short_part n msg.len msg.payload (omega arith)))))
