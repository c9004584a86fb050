-- ===== src/Base/Lists.antt =====
-- Lists measured and indexed by native numbers, under the library's names.
use Prim.Native.Nat.{ℕ, zero, suc, ◌+◌, ◌≤◌}
use mathlib.Core.Path.{◌≡◌, refl, ap, ◌∙◌}
use mathlib.Core.Bool.{Bool, true, ◌&&◌}
use mathlib.Core.List.{List, [], ◌∷◌, ◌++◌}
use mathlib.Core.Option.{Option, none, some}
use native.Mathlib.Omega.{arith}

module _ {ℓ} {A : Type ℓ} where
  abbrev pub length : List A → ℕ
  length [] = 0
  length (x ∷ xs) = suc (length xs)

  abbrev pub get_elem? : List A → ℕ → Option A
  get_elem? [] i = none
  get_elem? (x ∷ xs) zero = some x
  get_elem? (x ∷ xs) (suc i) = get_elem? xs i

  pub length-append : (xs ys : List A) → length (xs ++ ys) ≡ length xs + length ys
  length-append [] ys = omega arith
  length-append (x ∷ xs) ys = omega (arith, length-append xs ys)

  abbrev pub all : (A → Bool) → List A → Bool
  all p [] = true
  all p (x ∷ xs) = p x && all p xs

module _ {ℓ κ} {A : Type ℓ} (P : A → Type κ) where
  abbrev pub All : List A → Type κ
  All [] = Unit
  All (x ∷ xs) = P x × All xs

suc_add_one : (i : ℕ) → suc i + 1 ≡ suc (i + 1)
suc_add_one i = omega arith

module _ {ℓ} {A : Type ℓ} where
  abbrev pub drop : ℕ → List A → List A
  drop zero xs = xs
  drop (suc n) [] = []
  drop (suc n) (x ∷ xs) = drop n xs

  tail_path : {x y : A} {xs ys : List A} → x ∷ xs ≡ y ∷ ys → xs ≡ ys
  tail_path h = cc h

  -- What is left from an index on that is within the list.
  pub drop-cons :
      (i : ℕ) (xs : List A) {x : A} {rest : List A}
      → drop i xs ≡ x ∷ rest
      → (get_elem? xs i ≡ some x) × (drop (i + 1) xs ≡ rest) × (i + length rest + 1 ≡ length xs)
  drop-cons zero [] h = cc h
  drop-cons zero (y ∷ xs) h = (cc h, cc h, omega (arith, ap length (tail_path h)))
  drop-cons (suc i) [] h = cc h
  drop-cons (suc i) (y ∷ xs) h =
      let (item, next, size) = drop-cons i xs h in
      (item, ap (λ (k : ℕ). drop k (y ∷ xs)) (suc_add_one i) ∙ next, omega arith)

  pub drop-nil : (i : ℕ) (xs : List A) → i ≤ length xs → drop i xs ≡ [] → i ≡ length xs
  drop-nil zero [] le h = refl
  drop-nil zero (y ∷ xs) le h = cc h
  drop-nil (suc i) [] le h = absurd (omega arith)
  drop-nil (suc i) (y ∷ xs) le h = ap suc (drop-nil i xs (omega arith) h)
