-- ===== src/UdpClient/Ip/Laws.antt =====
-- Which texts are IPv4 addresses.
use Prim.Native.Char.{code}
use Prim.Native.String.{◌∷◌ as ◌◁◌, ◌++◌}
use text.Mathlib.TextLemmas.{nil-append, cons-append}
use server_client_app.Base.{
  ℕ, suc, ◌<◌, String, Bool, true, false, ◌&&◌, Option, none, some, List, [], ◌∷◌, map, All, ◌==◌,
  ◌≡◌, refl, sym, ap, ◌∙◌, ==_iff, Bool-cases, inl, inr, arith,
}
use server_client_app.Base.Int.{is_digit}
use server_client_app.Base.Int.Decimal.{Digits, Digits-str}
use server_client_app.Base.Text.{str}
use server_client_app.UdpClient.Ip.{
  split_dots, push, octet, at_most_255, digits_up_to, dotted, from_octets, ipv4_address, or_else,
  ip_address,
}

-- A test that holds below a bound, by running it.
all_below : ℕ → (ℕ → Bool) → Bool
all_below ℕ.zero p = true
all_below (suc n) p = p n && all_below n p

all_below-at : (n k : ℕ) (p : ℕ → Bool) → all_below n p ≡ true → k < n → p k ≡ true
unfolding all_below
all_below-at ℕ.zero k p h lt = absurd (omega arith)
all_below-at (suc n) k p h lt = elim (Bool-cases (k == n)) [
  | inl e ↦ let path : k ≡ n = (==_iff k n).0 e in ap p path ∙ ground (arith, h)
  | inr e ↦ all_below-at n k p (ground (arith, h)) (ground (arith, e))
]

reads : ℕ → Option ℕ → Bool
reads n none = false
reads n (some m) = m == n

octet_test : all_below 256 (λ n. reads n (octet (str n))) ≡ true
unfolding all_below reads octet str
octet_test = refl

reads_path : (n : ℕ) (o : Option ℕ) → reads n o ≡ true → o ≡ some n
unfolding reads
reads_path n none h = cc h
reads_path n (some m) h = ap some ((==_iff m n).0 h)

octet-str : (n : ℕ) → n < 256 → octet (str n) ≡ some n
octet-str n lt =
    reads_path n (octet (str n)) (all_below-at 256 n (λ n. reads n (octet (str n))) octet_test lt)

not-dot : (n : ℕ) → is_digit n ≡ true → (n == 46) ≡ false
not-dot n h = ground (arith, h)

dot-append : (s : String) → split_dots ("." ++ s) ≡ "" ∷ split_dots s
unfolding split_dots
dot-append s = ap split_dots (cons-append "." "" s ∙ ap (λ (x : String). "." ◁ x) (nil-append s))

split_dots-stop : (t s : String) → Digits t → split_dots (t ++ ("." ++ s)) ≡ t ∷ split_dots s
unfolding split_dots push
split_dots-stop Prim.Native.String.[] s h = ap split_dots (nil-append ("." ++ s)) ∙ dot-append s
split_dots-stop (c ◁ t) s h =
    rw (cons-append c t ("." ++ s))
      (rw (not-dot (code c) h.0) (ap (push c) (split_dots-stop t s h.1)))

split_dots-end : (t : String) → Digits t → split_dots t ≡ t ∷ []
unfolding split_dots push
split_dots-end Prim.Native.String.[] h = refl
split_dots-end (c ◁ t) h = rw (not-dot (code c) h.0) (ap (push c) (split_dots-end t h.1))

pub split_dots-dotted :
    (a b c d : ℕ) → split_dots (dotted a b c d) ≡ str a ∷ str b ∷ str c ∷ str d ∷ []
unfolding dotted
split_dots-dotted a b c d =
    split_dots-stop (str a) _ (Digits-str a)
    ∙ ap (λ (l : List String). str a ∷ l)
        (split_dots-stop (str b) _ (Digits-str b)
          ∙ ap (λ (l : List String). str b ∷ l)
              (split_dots-stop (str c) _ (Digits-str c)
                ∙ ap (λ (l : List String). str c ∷ l) (split_dots-end (str d) (Digits-str d))))

-- Four numbers below 256, joined by dots, are read as the address that is written like this.
pub ipv4_address-dotted :
    (a b c d : ℕ)
    → a < 256
    → b < 256
    → c < 256
    → d < 256
    → ipv4_address (dotted a b c d) ≡ some (dotted a b c d)
unfolding ipv4_address from_octets
ipv4_address-dotted a b c d p q r s =
    rw (split_dots-dotted a b c d, octet-str a p, octet-str b q, octet-str c r, octet-str d s)

-- The other texts do not matter to it.
pub ip_address-dotted :
    (ipv6 : String → Option String) (a b c d : ℕ)
    → a < 256
    → b < 256
    → c < 256
    → d < 256
    → ip_address ipv6 (dotted a b c d) ≡ some (dotted a b c d)
unfolding ip_address
ip_address-dotted ipv6 a b c d p q r s =
    ap (λ (o : Option String). or_else o (ipv6 (dotted a b c d)))
      (ipv4_address-dotted a b c d p q r s)

-- The numbers of an address that is written with dots.
pub record IsDotted (address : String) : Type 0 where
  pub a : ℕ
  pub b : ℕ
  pub c : ℕ
  pub d : ℕ
  pub bound : (a < 256) × (b < 256) × (c < 256) × (d < 256)
  pub text : address ≡ dotted a b c d

at_most_255-lt : (o : Option ℕ) (n : ℕ) → at_most_255 o ≡ some n → n < 256
unfolding at_most_255
at_most_255-lt none n h = cc h
at_most_255-lt (some m) n h = ground (arith, h)

octet-lt : (s : String) (n : ℕ) → octet s ≡ some n → n < 256
unfolding octet
octet-lt Prim.Native.String.[] n h = cc h
octet-lt (c ◁ s) n h = ground (arith, at_most_255-lt (digits_up_to 3 0 (c ◁ s)) n)

Small : Option ℕ → Type 0
Small o = (n : ℕ) → o ≡ some n → n < 256

from_octets-IsDotted :
    (octets : List (Option ℕ)) (address : String)
    → All Small octets
    → from_octets octets ≡ some address
    → IsDotted address
unfolding from_octets Small
from_octets-IsDotted (some a ∷ some b ∷ some c ∷ some d ∷ []) address k h = record {
  a = a;
  b = b;
  c = c;
  d = d;
  bound = (k.0 a refl, k.1.0 b refl, k.1.1.0 c refl, k.1.1.1.0 d refl);
  text = sym (cc h);
}
from_octets-IsDotted _ address k h = cc h

octets-Small : (fields : List String) → All Small (map octet fields)
unfolding Small
octets-Small [] = tt
octets-Small (s ∷ fields) = (octet-lt s, octets-Small fields)

-- What is read as an IPv4 address is four numbers below 256, joined by dots.
pub ipv4_address-IsDotted :
    (text address : String) → ipv4_address text ≡ some address → IsDotted address
unfolding ipv4_address
ipv4_address-IsDotted text address h =
    from_octets-IsDotted (map octet (split_dots text)) address (octets-Small (split_dots text)) h
