-- ===== src/Base/Int/Decimal.antt =====
-- int(str(n)) is n.
use Prim.Native.Nat.{ℕ, zero, suc, ◌+◌, ◌*◌, ◌/◌, ◌%◌, ◌<◌}
use Prim.Native.Char.{Char, code}
use Prim.Native.String.{String, [], ◌∷◌, ◌++◌}
use text.Mathlib.TextLemmas.{append_assoc, cons-append, nil-append, append-nil}
use mathlib.Core.Path.{◌≡◌, refl, ap, ◌∙◌}
use mathlib.Core.Logic.{inl, inr}
use mathlib.Core.Bool.{Bool, true, false}
use mathlib.Core.Option.{some}
use native.Mathlib.Omega.{arith}
use server_client_app.Base.Tests.{ltb, Bool-cases}
use server_client_app.Base.Text.{is_space, rstrip, lstrip, digit, decimal, str}
use server_client_app.Base.Int.{pos, is_digit, digits_from, signed, parse_int, negate}

-- The ten digits.
code-digit : (d : ℕ) → d < 10 → code (digit d) ≡ 48 + d
unfolding digit
code-digit zero h = refl
code-digit (suc zero) h = refl
code-digit (suc (suc zero)) h = refl
code-digit (suc (suc (suc zero))) h = refl
code-digit (suc (suc (suc (suc zero)))) h = refl
code-digit (suc (suc (suc (suc (suc zero))))) h = refl
code-digit (suc (suc (suc (suc (suc (suc zero)))))) h = refl
code-digit (suc (suc (suc (suc (suc (suc (suc zero))))))) h = refl
code-digit (suc (suc (suc (suc (suc (suc (suc (suc zero)))))))) h = refl
code-digit (suc (suc (suc (suc (suc (suc (suc (suc (suc zero))))))))) h = refl
code-digit (suc (suc (suc (suc (suc (suc (suc (suc (suc (suc n)))))))))) h = absurd (omega arith)

pub digits_from-digit :
    (d : ℕ) (acc : ℕ) (b : Bool) (s : String)
    → d < 10
    → digits_from acc b (digit d ∷ s) ≡ digits_from (acc * 10 + d) true s
unfolding digits_from
digits_from-digit d acc b s h = ground (arith, code-digit d)

cons_append : (c : Char) (s : String) → (c ∷ []) ++ s ≡ c ∷ s
cons_append c s = cons-append c [] s ∙ ap (λ (u : String). c ∷ u) (nil-append s)

pub append_char : (s t : String) (c : Char) → (s ++ c ∷ []) ++ t ≡ s ++ c ∷ t
append_char s t c = append_assoc s (c ∷ []) t ∙ ap (λ (u : String). s ++ u) (cons_append c t)

digits_from-decimal :
    (fuel n : ℕ) (s : String)
    → n < fuel
    → digits_from 0 false (decimal fuel n ++ s) ≡ digits_from n true s
unfolding decimal
digits_from-decimal zero n s h = absurd (omega arith)
digits_from-decimal (suc fuel) n s h = elim (Bool-cases (ltb n 10)) [
  | inl small ↦ rw small (
      ap (digits_from 0 false) (cons_append (digit n) s)
      ∙ digits_from-digit n 0 false s (ground arith)
      ∙ ap (λ (k : ℕ). digits_from k true s) (omega arith))
  | inr large ↦ rw large (
      ap (digits_from 0 false) (append_char (decimal fuel (n / 10)) s (digit (n % 10)))
      ∙ digits_from-decimal fuel (n / 10) (digit (n % 10) ∷ s) (ground arith)
      ∙ digits_from-digit (n % 10) (n / 10) true s (omega arith)
      ∙ ap (λ (k : ℕ). digits_from k true s) (omega arith))
]

-- A text of decimal digits, which white space and signs do not touch.
abbrev pub Digits : String → Type 0
Digits [] = Unit
Digits (c ∷ s) = (is_digit (code c) ≡ true) × Digits s

pub Digits-append : (s t : String) → Digits s → Digits t → Digits (s ++ t)
Digits-append [] t h k = rw nil-append k
Digits-append (c ∷ s) t h k = rw cons-append (h.0, Digits-append s t h.1 k)

pub is_digit-digit : (d : ℕ) → d < 10 → is_digit (code (digit d)) ≡ true
is_digit-digit d h = ground (arith, code-digit d)

Digits-decimal : (fuel n : ℕ) → n < fuel → Digits (decimal fuel n)
unfolding decimal
Digits-decimal zero n h = absurd (omega arith)
Digits-decimal (suc fuel) n h = elim (Bool-cases (ltb n 10)) [
  | inl small ↦ rw small (is_digit-digit n (ground arith), tt)
  | inr large ↦ rw large (
      Digits-append (decimal fuel (n / 10)) (digit (n % 10) ∷ [])
        (Digits-decimal fuel (n / 10) (ground arith)) (is_digit-digit (n % 10) (omega arith), tt))
]

not-space : (c : Char) → is_digit (code c) ≡ true → is_space c ≡ false
unfolding is_space
not-space c h = ground arith

rstrip-Digits : (s : String) → Digits s → rstrip s ≡ s
unfolding rstrip
rstrip-Digits [] h = refl
rstrip-Digits (c ∷ []) h = rw (not-space c h.0)
rstrip-Digits (c ∷ d ∷ s) h = rw (rstrip-Digits (d ∷ s) h.1)

lstrip-Digits : (s : String) → Digits s → lstrip s ≡ s
unfolding lstrip
lstrip-Digits [] h = refl
lstrip-Digits (c ∷ s) h = rw (not-space c h.0)

signed-Digits :
    (s : String) {n : ℕ} → Digits s → digits_from 0 false s ≡ some n → signed s ≡ some (pos n)
unfolding signed
signed-Digits [] h e = cc e
signed-Digits (c ∷ s) h e = ground arith

-- The decimal text of a number.
pub Digits-str : (n : ℕ) → Digits (str n)
unfolding str
Digits-str n = Digits-decimal (n + 1) n (omega arith)

pub end : (n : ℕ) → digits_from n true [] ≡ some n
unfolding digits_from
end n = refl

-- int() of a text of digits.
pub parse_int-Digits :
    (s : String) {n : ℕ} → Digits s → digits_from 0 false s ≡ some n → parse_int s ≡ some (pos n)
unfolding parse_int
parse_int-Digits s d e =
    ap signed (ap lstrip (rstrip-Digits s d) ∙ lstrip-Digits s d) ∙ signed-Digits s d e

pub digits_from-str : (n : ℕ) → digits_from 0 false (str n) ≡ some n
unfolding str
digits_from-str n = rw append-nil at (digits_from-decimal (n + 1) n [] (omega arith)) ∙ end n

-- int(str(n)) == n
pub parse_int-str : (n : ℕ) → parse_int (str n) ≡ some (pos n)
parse_int-str n = parse_int-Digits (str n) (Digits-str n) (digits_from-str n)

minus-Digits :
    (s : String) {n : ℕ}
    → Digits s
    → digits_from 0 false s ≡ some n
    → parse_int ("-" ++ s) ≡ some (negate n)
unfolding parse_int signed rstrip lstrip digits_from is_space
minus-Digits [] h e = cc e
minus-Digits (c ∷ s) h e =
    rw (cons-append "-" "" (c ∷ s), nil-append) (rw (rstrip-Digits (c ∷ s) h) (rw e refl))

-- int() of a minus and the decimal text of a number.
pub parse_int-minus : (n : ℕ) → parse_int ("-" ++ str n) ≡ some (negate n)
unfolding parse_int str
parse_int-minus n =
    let e = rw append-nil at (digits_from-decimal (n + 1) n [] (omega arith)) in
    minus-Digits (decimal (n + 1) n) (Digits-str n) (e ∙ end n)
