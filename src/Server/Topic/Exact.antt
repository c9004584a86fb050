-- ===== src/Server/Topic/Exact.antt =====
-- Subscriptions that use "*" at the end at most: compare_token_vectors decides what they stand for.
use mathlib.Core.Bool.{false≢true}
use text.Mathlib.Text.{◌==◌ as str_eq}
use text.Mathlib.TextEquality.{eq_iff}
use text.Mathlib.TextPositions.{eq_refl}
use server_client_app.Base.{
  ◌≤◌, String, ◌≡◌, ◌↔◌, refl, sym, ◌∙◌, ◌⊎◌, inl, inr, Bool, true, false, List, [], ◌∷◌, length,
  arith, if◌then◌else◌, Bool-cases,
}
use server_client_app.Server.Topic.{compare_token_vectors}
use server_client_app.Server.Topic.Loop.{greedy, compare-greedy}
use server_client_app.Server.Topic.Meaning.{
  Matches, done, level, plus, leave, take, compare-Matches,
}

-- "*" is the last level, if it is a level at all.
unfoldable pub StarLast : List String → Type 0
StarLast [] = Unit
StarLast (o ∷ []) = Unit
StarLast (o ∷ a ∷ os) = (str_eq o "*" ≡ false) × StarLast (a ∷ os)

tail : (o : String) (os : List String) → StarLast (o ∷ os) → StarLast os
unfolding StarLast
tail o [] h = tt
tail o (a ∷ os) h = h.1

star_here : (o : String) → o ≡ "*" → str_eq o "*" ≡ true
star_here o e = (eq_iff o "*").1 e

-- A star is at the end, so the rest is empty.
no_rest : (o a : String) (os : List String) → o ≡ "*" → StarLast (o ∷ a ∷ os) → ⊥
unfolding StarLast
no_rest o a os e h = false≢true (sym h.0 ∙ star_here o e)

step_on :
    (plain same : Bool) {x : Bool}
    → x ≡ true
    → (plain ≡ true) ⊎ (same ≡ true)
    → (if plain then x else if same then x else false) ≡ true
step_on true same e h = e
step_on false true e h = e
step_on false false e (inl p) = p
step_on false false e (inr p) = p

greedy-one :
    (o n : String) (os ns : List String)
    → StarLast (o ∷ os)
    → (str_eq o "+" ≡ true) ⊎ (str_eq o n ≡ true)
    → greedy os ns ≡ true
    → greedy (o ∷ os) (n ∷ ns) ≡ true
unfolding greedy StarLast
greedy-one o n [] ns h p g = elim (Bool-cases (str_eq o "*")) [
  | inl e ↦ rw e refl
  | inr e ↦ rw e (step_on (str_eq o "+") (str_eq o n) g p)
]
greedy-one o n (a ∷ os) ns h p g = rw h.0 (step_on (str_eq o "+") (str_eq o n) g p)

greedy_complete :
    (os ns : List String)
    → StarLast os
    → Matches os ns
    → length os ≤ length ns
    → greedy os ns ≡ true
unfolding greedy
greedy_complete [] [] h done le = refl
greedy_complete [] (n ∷ ns) h m le = elim m [ ]
greedy_complete (o ∷ os) (n ∷ ns) h (level m) le =
    greedy-one o o os ns h (inr (eq_refl o)) (greedy_complete os ns (tail o os h) m (omega arith))
greedy_complete (o ∷ os) (n ∷ ns) h (plus e m) le =
    greedy-one o n os ns h (inl ((eq_iff o "+").1 e))
      (greedy_complete os ns (tail o os h) m (omega arith))
greedy_complete (o ∷ []) [] h (leave e m) le = absurd (omega arith)
greedy_complete (o ∷ []) (n ∷ ns) h (leave e m) le = rw (star_here o e) refl
greedy_complete (o ∷ []) (n ∷ ns) h (take e m) le = rw (star_here o e) refl
greedy_complete (o ∷ a ∷ os) ns h (leave e m) le = absurd (no_rest o a os e h)
greedy_complete (o ∷ a ∷ os) (n ∷ ns) h (take e m) le = absurd (no_rest o a os e h)

one_longer :
    (o n : String) (os ns : List String)
    → (greedy os ns ≡ true → length os ≤ length ns)
    → (if str_eq o "+" then greedy os ns else if str_eq o n then greedy os ns else false) ≡ true
    → length (o ∷ os) ≤ length (n ∷ ns)
one_longer o n os ns ih g = elim (Bool-cases (str_eq o "+")) [
  | inl e ↦ let le = ih (rw e at g) in omega arith
  | inr e ↦ elim (Bool-cases (str_eq o n)) [
    | inl e' ↦ let le = ih (rw (e, e') at g) in omega arith
    | inr e' ↦ absurd (false≢true (rw (e, e') at g))
  ]
]

greedy-length : (os ns : List String) → StarLast os → greedy os ns ≡ true → length os ≤ length ns
unfolding greedy StarLast
greedy-length [] ns h g = omega arith
greedy-length (o ∷ os) [] h g = absurd (false≢true g)
greedy-length (o ∷ []) (n ∷ ns) h g = omega arith
greedy-length (o ∷ a ∷ os) (n ∷ ns) h g =
    one_longer o n (a ∷ os) ns (greedy-length (a ∷ os) ns h.1) (rw h.0 at g)

-- Where "*" is the last level or absent, a topic is accepted exactly when the subscription
-- stands for it and it has at least as many levels: a "*" at the end needs one level of its
-- own.
pub compare_exact :
    (old_tokens new_tokens : List String)
    → StarLast old_tokens
    → (compare_token_vectors old_tokens new_tokens ≡ true)
      ↔ (Matches old_tokens new_tokens × (length old_tokens ≤ length new_tokens))
compare_exact old_tokens new_tokens h = (
  λ e. (
    compare-Matches old_tokens new_tokens e,
    greedy-length old_tokens new_tokens h (sym (compare-greedy old_tokens new_tokens) ∙ e),
  ),
  λ (m, le). compare-greedy old_tokens new_tokens ∙ greedy_complete old_tokens new_tokens h m le,
)
