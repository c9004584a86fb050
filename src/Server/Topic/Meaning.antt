-- ===== src/Server/Topic/Meaning.antt =====
-- What a subscription with wildcards stands for: "+" is one level of the hierarchy, "*" any number
-- of levels (README.md, "Program flow and logic").
use mathlib.Core.Bool.{false≢true}
use text.Mathlib.Text.{◌==◌ as str_eq}
use text.Mathlib.TextEquality.{eq_iff}
use server_client_app.Base.{
  String, ◌≡◌, refl, sym, ◌∙◌, inl, inr, true, false, Option, none, some, List, [], ◌∷◌,
  if◌then◌else◌, Bool-cases,
}
use server_client_app.Server.Topic.{compare_token_vectors}
use server_client_app.Server.Topic.Loop.{skip_to, resume, greedy, compare-greedy}

pub data Matches : List String → List String → Type 0 where
  done : Matches [] []
  level : {t : String} {os ns : List String} → Matches os ns → Matches (t ∷ os) (t ∷ ns)
  plus : {o n : String} {os ns : List String} → o ≡ "+" → Matches os ns → Matches (o ∷ os) (n ∷ ns)
  leave : {o : String} {os ns : List String} → o ≡ "*" → Matches os ns → Matches (o ∷ os) ns
  take :
      {o n : String} {os ns : List String}
      → o ≡ "*"
      → Matches (o ∷ os) ns
      → Matches (o ∷ os) (n ∷ ns)

same : (o t : String) → str_eq o t ≡ true → o ≡ t
same o t h = (eq_iff o t).0 h

star_all : (o : String) (ns : List String) → o ≡ "*" → Matches (o ∷ []) ns
star_all o [] e = leave e done
star_all o (n ∷ ns) e = take e (star_all o ns e)

level_eq : {o n : String} {os ns : List String} → o ≡ n → Matches os ns → Matches (o ∷ os) (n ∷ ns)
level_eq e m = rw e (level m)

skip_to-Matches :
    (o a : String) (os ns rest : List String)
    → o ≡ "*"
    → skip_to a ns ≡ some rest
    → Matches os rest
    → Matches (o ∷ a ∷ os) ns
unfolding skip_to
skip_to-Matches o a os [] rest e h m = cc h
skip_to-Matches o a os (n ∷ ns) rest e h m = elim (Bool-cases (str_eq n a)) [
  | inl here ↦
      let found : ns ≡ rest = cc (rw here at h) in
      leave e (level_eq (sym (same n a here)) (rw found m))
  | inr later ↦ take e (skip_to-Matches o a os ns rest e (rw later at h) m)
]

star_case :
    (o a : String) (os ns : List String) (k : Option (List String))
    → o ≡ "*"
    → skip_to a ns ≡ k
    → ((rest : List String) → greedy os rest ≡ true → Matches os rest)
    → resume k (greedy os) ≡ true
    → Matches (o ∷ a ∷ os) ns
star_case o a os ns none e h ih g = absurd (false≢true g)
star_case o a os ns (some rest) e h ih g = skip_to-Matches o a os ns rest e h (ih rest g)

one_level :
    (o n : String) (os ns : List String)
    → (greedy os ns ≡ true → Matches os ns)
    → (if str_eq o "+" then greedy os ns else if str_eq o n then greedy os ns else false) ≡ true
    → Matches (o ∷ os) (n ∷ ns)
one_level o n os ns ih g = elim (Bool-cases (str_eq o "+")) [
  | inl e ↦ plus (same o "+" e) (ih (rw e at g))
  | inr e ↦ elim (Bool-cases (str_eq o n)) [
    | inl e' ↦ level_eq (same o n e') (ih (rw (e, e') at g))
    | inr e' ↦ absurd (false≢true (rw (e, e') at g))
  ]
]

greedy-Matches : (os ns : List String) → greedy os ns ≡ true → Matches os ns
unfolding greedy
greedy-Matches [] [] g = done
greedy-Matches [] (n ∷ ns) g = absurd (false≢true g)
greedy-Matches (o ∷ os) [] g = absurd (false≢true g)
greedy-Matches (o ∷ []) (n ∷ ns) g = elim (Bool-cases (str_eq o "*")) [
  | inl e ↦ star_all o (n ∷ ns) (same o "*" e)
  | inr e ↦ one_level o n [] ns (greedy-Matches [] ns) (rw e at g)
]
greedy-Matches (o ∷ a ∷ os) (n ∷ ns) g = elim (Bool-cases (str_eq o "*")) [
  | inl e ↦
      star_case o a os (n ∷ ns) (skip_to a (n ∷ ns)) (same o "*" e) refl (greedy-Matches os)
        (rw e at g)
  | inr e ↦ one_level o n (a ∷ os) ns (greedy-Matches (a ∷ os) ns) (rw e at g)
]

-- A topic that compare_token_vectors accepts is one that the subscription stands for.
pub compare-Matches :
    (old_tokens new_tokens : List String)
    → compare_token_vectors old_tokens new_tokens ≡ true
    → Matches old_tokens new_tokens
compare-Matches old_tokens new_tokens h =
    greedy-Matches old_tokens new_tokens (sym (compare-greedy old_tokens new_tokens) ∙ h)
