-- ===== src/Server/Topic/Loop.antt =====
-- The loops over two iterators compute a recursion over the tokens that are left.
use text.Mathlib.Text.{◌==◌ as str_eq}
use server_client_app.Base.{
  ℕ, zero, suc, ◌+◌, ◌≤◌, ◌<◌, String, ◌≡◌, refl, Bool, true, false, Option, none, some, List, [],
  ◌∷◌, length, drop, drop-cons, drop-nil, arith, ◌==◌, if◌then◌else◌, inl, inr, Bool-cases, ==_iff,
}
use server_client_app.Server.Topic.{at, advance, compare_loop, compare_token_vectors}

-- The tokens behind the first one that is `after_star`.
unfoldable pub skip_to : String → List String → Option (List String)
skip_to after_star [] = none
skip_to after_star (n ∷ new_tokens) =
    if str_eq n after_star then some new_tokens else skip_to after_star new_tokens

abbrev pub resume : Option (List String) → (List String → Bool) → Bool
resume none go_on = false
resume (some rest) go_on = go_on rest

-- compare_token_vectors on the tokens that are left.
unfoldable pub greedy : List String → List String → Bool
unfolding skip_to
greedy [] [] = true
greedy [] (n ∷ ns) = false
greedy (o ∷ os) [] = false
greedy (o ∷ []) (n ∷ ns) =
    if str_eq o "*"
    then true
    else if str_eq o "+"
    then greedy [] ns
    else if str_eq o n
    then greedy [] ns
    else false
greedy (o ∷ a ∷ os) (n ∷ ns) =
    let literal = greedy (a ∷ os) ns in
    if str_eq o "*"
    then resume (skip_to a (n ∷ ns)) (greedy os)
    else if str_eq o "+"
    then literal
    else if str_eq o n
    then literal
    else false

at-drop :
    (i : ℕ) (xs : List String) {x : String} {rest : List String}
    → drop i xs ≡ x ∷ rest
    → at xs i ≡ x
at-drop i xs h = rw ((drop-cons i xs h).0, at)

ended : (i : ℕ) (xs : List String) → i ≤ length xs → drop i xs ≡ [] → (i == length xs) ≡ true
ended i xs le h = (==_iff i (length xs)).1 (drop-nil i xs le h)

not-ended :
    (i : ℕ) (xs : List String) {x : String} {rest : List String}
    → drop i xs ≡ x ∷ rest
    → (i == length xs) ≡ false
not-ended i xs h = ground (arith, drop-cons i xs h)

-- What the inner loop found, as the tokens behind it.
Found : List String → Option ℕ → Option (List String) → Type 0
Found new_tokens none none = Unit
Found new_tokens (some j) (some rest) =
    (drop (j + 1) new_tokens ≡ rest) × (j + 1 ≤ length new_tokens)
Found new_tokens _ _ = ⊥

advance-Found :
    (fuel : ℕ) (new_tokens : List String) (after_star : String) (j : ℕ) (ns : List String)
    → drop j new_tokens ≡ ns
    → j ≤ length new_tokens
    → length ns < fuel
    → Found new_tokens (advance fuel new_tokens after_star j) (skip_to after_star ns)
unfolding advance skip_to Found
advance-Found zero new_tokens a j ns d le f = absurd (omega arith)
advance-Found (suc fuel) new_tokens a j [] d le f = rw (ended j new_tokens le d) tt
advance-Found (suc fuel) new_tokens a j (n ∷ ns) d le f =
    let (_, next, size) = drop-cons j new_tokens d in
    let ih = advance-Found fuel new_tokens a (j + 1) ns next (omega arith) (omega arith) in
    rw (not-ended j new_tokens d) (
      rw (at-drop j new_tokens d)
        (elim (Bool-cases (str_eq n a)) [ inl e ↦ rw e (next, omega arith) | inr e ↦ rw e ih ]))

bridge :
    (new_tokens os : List String) (r : Option ℕ) (k : Option (List String)) (go_on : ℕ → Bool)
    → ((j : ℕ) (rest : List String)
        → drop (j + 1) new_tokens ≡ rest
        → j + 1 ≤ length new_tokens
        → go_on j ≡ greedy os rest)
    → Found new_tokens r k
    → (elim r [ none ↦ false | some j ↦ go_on j ]) ≡ resume k (greedy os)
unfolding Found
bridge new_tokens os none none go_on ih f = refl
bridge new_tokens os (some j) (some rest) go_on ih f = ih j rest f.0 f.1
bridge new_tokens os none (some rest) go_on ih f = absurd f
bridge new_tokens os (some j) none go_on ih f = absurd f

by_token :
    (plus same : Bool) {x y : Bool}
    → x ≡ y
    → (if plus then x else if same then x else false)
      ≡ (if plus then y else if same then y else false)
by_token true same h = h
by_token false true h = h
by_token false false h = refl

compare_loop-greedy :
    (fuel : ℕ) (old new : List String) (i j : ℕ) (os ns : List String)
    → drop i old ≡ os
    → drop j new ≡ ns
    → i ≤ length old
    → j ≤ length new
    → length os < fuel
    → compare_loop fuel old new i j ≡ greedy os ns
unfolding compare_loop greedy
compare_loop-greedy zero old new i j os ns d e le le' f = absurd (omega arith)
compare_loop-greedy (suc fuel) old new i j [] [] d e le le' f =
    rw (ended i old le d) (ended j new le' e)
compare_loop-greedy (suc fuel) old new i j [] (n ∷ ns) d e le le' f =
    rw (ended i old le d) (not-ended j new e)
compare_loop-greedy (suc fuel) old new i j (o ∷ []) [] d e le le' f =
    rw (not-ended i old d) (rw (ended j new le' e) refl)
compare_loop-greedy (suc fuel) old new i j (o ∷ a ∷ os) [] d e le le' f =
    rw (not-ended i old d) (rw (ended j new le' e) refl)
compare_loop-greedy (suc fuel) old new i j (o ∷ []) (n ∷ ns) d e le le' f =
    let (_, next, size) = drop-cons i old d in
    let (_, next', size') = drop-cons j new e in
    let ih =
      compare_loop-greedy fuel old new (i + 1) (j + 1) [] ns next next' (omega arith) (omega arith)
        (omega arith) in
    rw (not-ended i old d) (
      rw (not-ended j new e) (
        rw (at-drop i old d) (
          rw (at-drop j new e) (elim (Bool-cases (str_eq o "*")) [
            | inl star ↦ rw star (rw (ended (i + 1) old (omega arith) next) refl)
            | inr no_star ↦ rw no_star (by_token (str_eq o "+") (str_eq o n) ih)
          ]))))
compare_loop-greedy (suc fuel) old new i j (o ∷ a ∷ os) (n ∷ ns) d e le le' f =
    let (_, next, size) = drop-cons i old d in
    let (_, next', size') = drop-cons j new e in
    let (_, next₂, size₂) = drop-cons (i + 1) old next in
    let ih =
      compare_loop-greedy fuel old new (i + 1) (j + 1) (a ∷ os) ns next next' (omega arith)
        (omega arith) (omega arith) in
    let found = advance-Found (length new + 1) new a j (n ∷ ns) e le' (omega arith) in
    rw (not-ended i old d) (
      rw (not-ended j new e) (
        rw (at-drop i old d) (
          rw (at-drop j new e) (elim (Bool-cases (str_eq o "*")) [
            | inl star ↦ rw star (
                rw (not-ended (i + 1) old next) (
                  rw (at-drop (i + 1) old next) (
                    bridge new os (advance (length new + 1) new a j) (skip_to a (n ∷ ns))
                      (λ j'. compare_loop fuel old new (i + 1 + 1) (j' + 1))
                      (λ j' rest here within.
                        compare_loop-greedy fuel old new (i + 1 + 1) (j' + 1) os rest next₂ here
                          (omega arith) within (omega arith))
                      found)))
            | inr no_star ↦ rw no_star (by_token (str_eq o "+") (str_eq o n) ih)
          ]))))

-- The loops of compare_token_vectors over two iterators compute a recursion over the tokens
-- that are left.
pub compare-greedy :
    (old_tokens new_tokens : List String)
    → compare_token_vectors old_tokens new_tokens ≡ greedy old_tokens new_tokens
unfolding compare_token_vectors
compare-greedy old_tokens new_tokens =
    compare_loop-greedy (length old_tokens + 1) old_tokens new_tokens 0 0 old_tokens new_tokens refl
      refl (omega arith) (omega arith) (omega arith)
