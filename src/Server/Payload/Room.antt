-- ===== src/Server/Payload/Room.antt =====
-- How long the parts of a line for the subscribers can be.
pub mod Buffer
use Prim.Native.Char.{Char}
use Prim.Native.String.{◌∷◌ as ◌◁◌, ◌++◌, count}
use native.Mathlib.Nat.{pow-suc, div-le_self}
use text.Mathlib.TextLemmas.{length-nil, length-cons, length-append}
use server_client_app.Base.{
  ℕ, zero, suc, ◌+◌, ◌-◌, ◌*◌, ◌/◌, ◌%◌, ◌^◌, ◌<◌, ◌≤◌, String, ◌≡◌, refl, ap, ◌∙◌, sym, Bool, true,
  false, Option, none, some, List, [], ◌∷◌, All, length, drop, get_elem?, ltb, ◌==◌, if◌then◌else◌,
  inl, inr, Bool-cases, arith, ◌⊎◌, leb,
}
use server_client_app.Base.Int.{ℤ, pos, negsuc, negate}
use server_client_app.Base.Text.{str, decimal, digit}
use server_client_app.UdpClient.Port.{show_int}
use server_client_app.Server.Run.{Datagram}
use server_client_app.Server.Payload.{
  byte_at, byte_char, c_text, ntohs, ntohl, minus32, as_int, padded, fixed, int_text,
  short_real_text, float_text, interpret_udp_payload, read_line, read_datagram,
}
use server_client_app.Server.Payload.Digits.{count-padded}

abbrev pub IsByte : ℕ → Type 0
IsByte b = b < 256

one_more : (c : Char) (s : String) → count (c ◁ s) ≡ suc (count s)
one_more c s = length-cons c s

longer :
    (fuel n k : ℕ)
    → ((j : ℕ) → n / 10 < 10 ^ suc j → count (decimal fuel (n / 10)) ≤ suc j)
    → n < 10 ^ suc k
    → 10 ≤ n
    → count (decimal fuel (n / 10) ++ (digit (n % 10) ◁ "")) ≤ suc k
longer fuel n zero shorter h ten = absurd (omega arith)
longer fuel n (suc k) shorter h ten =
    let p = pow-suc 10 (suc k) in
    let less : n / 10 < 10 ^ suc k = omega (arith, p, h) in
    omega (
      arith,
      length-append (decimal fuel (n / 10)) (digit (n % 10) ◁ ""),
      length-cons (digit (n % 10)) "",
      length-nil,
      shorter k less,
    )

count-decimal : (fuel n k : ℕ) → n < 10 ^ suc k → count (decimal fuel n) ≤ suc k
unfolding decimal
count-decimal zero n k h = let z = length-nil in omega (arith, z)
count-decimal (suc fuel) n k h = elim (Bool-cases (ltb n 10)) [
  | inl small ↦
      let z = length-nil in let o = length-cons (digit n) "" in rw small (omega (arith, z, o))
  | inr large ↦
      let ten : 10 ≤ n = ground (arith, large) in
      rw large (longer fuel n k (λ j. count-decimal fuel (n / 10) j) h ten)
]

pub count-str : (n k : ℕ) → n < 10 ^ suc k → count (str n) ≤ suc k
unfolding str
count-str n k h = count-decimal (n + 1) n k h

count-show_int :
    (z : ℤ) (n : ℕ) → ((z ≡ pos n) ⊎ (z ≡ negsuc n)) → n < 9999999999 → count (show_int z) ≤ 11
unfolding show_int
count-show_int z n (inl e) h = rw e (let c = count-str n 9 (omega (arith, h)) in omega (arith, c))
count-show_int z n (inr e) h = rw e (
    omega (
      arith,
      length-append "-" (str (suc n)),
      length-cons "-" "",
      length-nil,
      count-str (suc n) 9 (omega (arith, h)),
    ))

pub count-c_text :
    (room : ℕ) (buff : List ℕ)
    → (count (c_text room buff) ≤ room) × (count (c_text room buff) ≤ length buff)
unfolding c_text
count-c_text zero buff = let z = length-nil in (omega (arith, z), omega (arith, z))
count-c_text (suc room) [] = let z = length-nil in (omega (arith, z), omega (arith, z))
count-c_text (suc room) (b ∷ buff) = elim (Bool-cases (b == 0)) [
  | inl ends ↦ rw ends (let z = length-nil in (omega (arith, z), omega (arith, z)))
  | inr more ↦ rw more (
      let (h, k) = count-c_text room buff in
      let o = length-cons (byte_char b) (c_text room buff) in
      (omega (arith, o, h), omega (arith, o, k)))
]

pub byte_at-IsByte : (buff : List ℕ) (i : ℕ) → All IsByte buff → byte_at buff i < 256
byte_at-IsByte [] i h = omega arith
byte_at-IsByte (b ∷ buff) zero h = h.0
byte_at-IsByte (b ∷ buff) (suc i) h = byte_at-IsByte buff i h.1

pub drop-All : (k : ℕ) (buff : List ℕ) → All IsByte buff → All IsByte (drop k buff)
drop-All zero buff h = h
drop-All (suc k) [] h = h
drop-All (suc k) (b ∷ buff) h = drop-All k buff h.1

pub length-drop : (k : ℕ) (buff : List ℕ) → length (drop k buff) ≡ length buff - k
length-drop zero buff = omega arith
length-drop (suc k) [] = omega arith
length-drop (suc k) (b ∷ buff) = omega (arith, length-drop k buff)

-- The integer of 32 bits has a sign and at most ten digits.
pub count-int : (n : ℕ) → n < 4294967296 → count (show_int (as_int n)) ≤ 11
count-int n h = elim (Bool-cases (ltb n 2147483648)) [
  | inl fits ↦ rw fits (count-show_int (pos n) n (inl refl) (omega (arith, h)))
  | inr wraps ↦ rw wraps (below (2 ^ 32 - n) (omega (arith, h)))
]
  where
    below : (m : ℕ) → m < 9999999999 → count (show_int (negate m)) ≤ 11
    below zero l = count-show_int (pos 0) 0 (inl refl) (omega arith)
    below (suc m) l = count-show_int (negsuc m) m (inr refl) (omega (arith, l))

pub count-fixed : (power n k : ℕ) → n < 10 ^ suc k → count (fixed power n) ≤ suc k + 1 + power
unfolding fixed
count-fixed zero n k h = let c = count-str n k h in omega (arith, c)
count-fixed (suc power) n k h =
    let whole = n / 10 ^ suc power in
    let part = padded (suc power) (n % 10 ^ suc power) in
    let le = div-le_self n (10 ^ suc power) in
    let c = count-str whole k (omega (arith, le, h)) in
    omega (
      arith,
      c,
      length-append (str whole) ("." ++ part),
      length-append "." part,
      length-cons "." "",
      length-nil,
      count-padded (suc power) (n % 10 ^ suc power),
    )
