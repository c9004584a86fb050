-- ===== src/Wire/RoundTrip.antt =====
-- What send_efficient writes, recv_efficient reads.
use mathlib.Core.List.{◌++◌, append_assoc}
use server_client_app.Base.{
  ℕ, zero, suc, ◌+◌, ◌*◌, ◌/◌, ◌%◌, ◌<◌, ◌≤◌, ◌≡◌, refl, ap, ◌∙◌, List, [], ◌∷◌, length, arith,
  ◌==◌, Bool-cases, inl, inr, ==_iff,
}
use server_client_app.Wire.{
  TcpMessage, succeed, take, done, recv_payload, recv_efficient, send_efficient, htons,
}
use server_client_app.Wire.Loops.{recv_loop-append, send_loop-append}

-- The length fits its field, and the payload is as long as it says.
pub record IsMessage (msg : TcpMessage) : Type 0 where
  pub len : msg.len < 65536
  pub payload : length msg.payload ≡ msg.len

-- The bytes of a message.
abbrev pub wire : TcpMessage → List ℕ
wire msg = msg.command ∷ htons msg.len ++ msg.payload

take_all : (bs : List ℕ) (n : ℕ) → length bs ≡ n → take n bs ≡ bs
take_all [] zero h = refl
take_all [] (suc n) h = refl
take_all (b ∷ bs) zero h = absurd (omega arith)
take_all (b ∷ bs) (suc n) h = ap (λ (l : List ℕ). b ∷ l) (take_all bs n (omega arith))

le_self : (n : ℕ) → n ≤ n
le_self n = omega arith

-- A message whose length fits its field and whose payload is as long as it says is sent whole,
-- behind what the stream held: the command, the length in network order and the payload, in
-- whatever pieces the calls of send take them.
pub send_efficient-wire :
    (msg : TcpMessage) (sizes : ℕ → ℕ) (k : ℕ) (s : List ℕ)
    → IsMessage msg
    → (k' : ℕ) × (send_efficient msg (succeed sizes) k s ≡ done (3 + msg.len) k' (s ++ wire msg))
unfolding send_efficient
send_efficient-wire msg sizes k s h =
    let whole = take_all msg.payload msg.len h.payload in
    let (k₁, e₁) = send_loop-append 1 (msg.command ∷ []) sizes k s (omega arith) in
    let (k₂, e₂) =
      send_loop-append 2 (htons msg.len) sizes k₁ (s ++ msg.command ∷ []) (omega arith) in
    let s₂ = (s ++ msg.command ∷ []) ++ htons msg.len in
    let (k₃, e₃) = send_loop-append (length msg.payload) msg.payload sizes k₂ s₂ (le_self _) in
    let joined : s₂ ++ msg.payload ≡ s ++ wire msg =
      append_assoc (s ++ msg.command ∷ []) (htons msg.len) msg.payload
      ∙ append_assoc s (msg.command ∷ []) (htons msg.len ++ msg.payload) in
    (k₃, rw e₁ (rw e₂ (rw whole (rw e₃ (rw joined (rw h.payload refl))))))

pub order : (len : ℕ) → len < 65536 → len / 256 % 256 * 256 + len % 256 ≡ len
order len h = omega arith

empty : (bs : List ℕ) → length bs ≡ 0 → bs ≡ []
empty [] h = refl
empty (b ∷ bs) h = absurd (omega arith)

recv_payload-append :
    (command len : ℕ) (payload : List ℕ) (sizes : ℕ → ℕ) (k : ℕ) (rest : List ℕ)
    → length payload ≡ len
    → (k' : ℕ) × (recv_payload command len (succeed sizes) k (payload ++ rest)
        ≡ done (record { command = command; len = len; payload = payload }) k' rest)
unfolding recv_payload
recv_payload-append command len payload sizes k rest h = elim (Bool-cases (len == 0)) [
  | inl e ↦
      let none_left : payload ≡ [] = empty payload (h ∙ (==_iff len 0).0 e) in
      (k, rw e (rw none_left refl))
  | inr e ↦
      let (k', e') = recv_loop-append len len sizes k payload rest h (le_self len) in
      (k', rw e (rw e' refl))
]

pub recv_efficient-wire :
    (msg : TcpMessage) (sizes : ℕ → ℕ) (k : ℕ) (rest : List ℕ)
    → IsMessage msg
    → (k' : ℕ) × (recv_efficient (succeed sizes) k (wire msg ++ rest) ≡ done msg k' rest)
unfolding recv_efficient
recv_efficient-wire msg sizes k rest h =
    let after = msg.payload ++ rest in
    let (k₁, e₁) =
      recv_loop-append 1 1 sizes k (msg.command ∷ []) (htons msg.len ++ after) refl (omega arith) in
    let (k₂, e₂) = recv_loop-append 2 2 sizes k₁ (htons msg.len) after refl (omega arith) in
    let (k₃, e₃) = recv_payload-append msg.command msg.len msg.payload sizes k₂ rest h.payload in
    (k₃, rw e₁ (rw e₂ (rw (order msg.len h.len) e₃)))

-- A message whose length fits its field and whose payload is as long as it says is sent whole,
-- and the bytes that were sent are received as the same message, with the bytes behind them
-- left, in whatever pieces the calls of send and recv move them.
pub recv-send :
    (msg : TcpMessage) (sizes sizes' : ℕ → ℕ) (k k' : ℕ) (rest : List ℕ)
    → IsMessage msg
    → (m n : ℕ) × (sent : List ℕ) × (send_efficient msg (succeed sizes) k []
        ≡ done (3 + msg.len) m sent)
      × (recv_efficient (succeed sizes') k' (sent ++ rest) ≡ done msg n rest)
recv-send msg sizes sizes' k k' rest h =
    let (m, e) = send_efficient-wire msg sizes k [] h in
    let (n, e') = recv_efficient-wire msg sizes' k' rest h in (m, n, wire msg, e, e')
