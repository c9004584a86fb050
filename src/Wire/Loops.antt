-- ===== src/Wire/Loops.antt =====
-- The loops of recv and send move all the bytes, however they are cut into pieces.
use mathlib.Core.List.{◌++◌, append-nil, append_assoc}
use server_client_app.Base.{
  ℕ, zero, suc, ◌+◌, ◌-◌, ◌≤◌, ◌≡◌, refl, sym, ap, ◌∙◌, List, [], ◌∷◌, length, drop, arith,
}
use server_client_app.Wire.{recv, send, succeed, take, min, done, recv_loop, send_loop}

take-drop : (n : ℕ) (bs : List ℕ) → take n bs ++ drop n bs ≡ bs
take-drop zero bs = refl
take-drop (suc n) [] = refl
take-drop (suc n) (b ∷ bs) = ap (λ (l : List ℕ). b ∷ l) (take-drop n bs)

take-append : (n : ℕ) (bs rest : List ℕ) → n ≤ length bs → take n (bs ++ rest) ≡ take n bs
take-append zero bs rest h = refl
take-append (suc n) [] rest h = absurd (omega arith)
take-append (suc n) (b ∷ bs) rest h =
    ap (λ (l : List ℕ). b ∷ l) (take-append n bs rest (omega arith))

drop-append : (n : ℕ) (bs rest : List ℕ) → n ≤ length bs → drop n (bs ++ rest) ≡ drop n bs ++ rest
drop-append zero bs rest h = refl
drop-append (suc n) [] rest h = absurd (omega arith)
drop-append (suc n) (b ∷ bs) rest h = drop-append n bs rest (omega arith)

length-take : (n : ℕ) (bs : List ℕ) → n ≤ length bs → length (take n bs) ≡ n
length-take zero bs h = refl
length-take (suc n) [] h = absurd (omega arith)
length-take (suc n) (b ∷ bs) h = ap suc (length-take n bs (omega arith))

length-drop : (n : ℕ) (bs : List ℕ) → n ≤ length bs → n + length (drop n bs) ≡ length bs
length-drop zero bs h = omega arith
length-drop (suc n) [] h = absurd (omega arith)
length-drop (suc n) (b ∷ bs) h = omega (arith, length-drop n bs (omega arith))

pub min_le : (a b : ℕ) → min a b ≤ a
min_le a b = ground arith

pub sub_suc : (n m : ℕ) → suc n - suc m ≡ n - m
sub_suc n m = omega arith

-- Bytes at the head of the stream are received whole.
pub recv_loop-append :
    (fuel n : ℕ) (sizes : ℕ → ℕ) (k : ℕ) (bs rest : List ℕ)
    → length bs ≡ n
    → n ≤ fuel
    → (k' : ℕ) × (recv_loop fuel n (succeed sizes) k (bs ++ rest) ≡ done bs k' rest)
unfolding recv_loop recv
recv_loop-append fuel zero sizes k [] rest e h = (k, refl)
recv_loop-append fuel zero sizes k (b ∷ bs) rest e h = absurd (omega arith)
recv_loop-append fuel (suc n) sizes k [] rest e h = absurd (omega arith)
recv_loop-append zero (suc n) sizes k (b ∷ bs) rest e h = absurd (omega arith)
recv_loop-append (suc fuel) (suc n) sizes k (b ∷ bs) rest e h =
    let m = min n (sizes k) in
    let le : m ≤ length bs = omega (arith, min_le n (sizes k)) in
    let (k', ih) =
      recv_loop-append fuel (n - m) sizes (k + 1) (drop m bs) rest
        (omega (arith, length-drop m bs le)) (omega arith) in
    (
      k',
      rw (take-append m bs rest le) (
          rw (drop-append m bs rest le) (
            rw (length-take m bs le) (
              rw (sub_suc n m)
                (rw ih (ap (λ (l : List ℕ). done (b ∷ l) k' rest) (take-drop m bs)))))),
    )

-- The bytes of the buffer are put at the end of the stream.
pub send_loop-append :
    (fuel : ℕ) (buff : List ℕ) (sizes : ℕ → ℕ) (k : ℕ) (s : List ℕ)
    → length buff ≤ fuel
    → (k' : ℕ) × (send_loop fuel buff (succeed sizes) k s ≡ done (length buff) k' (s ++ buff))
unfolding send_loop send
send_loop-append fuel [] sizes k s h = (k, ap (λ (l : List ℕ). done 0 k l) (sym (append-nil s)))
send_loop-append zero (b ∷ buff) sizes k s h = absurd (omega arith)
send_loop-append (suc fuel) (b ∷ buff) sizes k s h =
    let n = min (length buff) (sizes k) in
    let le = min_le (length buff) (sizes k) in
    let size = length-drop n buff le in
    let (k', ih) =
      send_loop-append fuel (drop n buff) sizes (k + 1) (s ++ b ∷ take n buff) (omega arith) in
    let total : suc n + length (drop n buff) ≡ suc (length buff) = omega arith in
    let whole : (s ++ b ∷ take n buff) ++ drop n buff ≡ s ++ b ∷ buff =
      append_assoc s (b ∷ take n buff) (drop n buff)
      ∙ ap (λ (l : List ℕ). s ++ b ∷ l) (take-drop n buff) in
    (k', rw ih (rw total (rw whole refl)))
