-- ===== src/Server/Topic.antt =====
-- Server::tokenize_topic, compare_token_vectors and check_wildcard_topic.
--
-- A std::string is a text; a vector is a list, and an iterator an index into it.
pub mod Tokens
pub mod Loop
pub mod Meaning
pub mod Exact
use Prim.Native.Char.{code}
use Prim.Native.String.{[], ◌∷◌, ◌++◌}
use text.Mathlib.Text.{◌==◌ as str_eq}
use server_client_app.Base.{
  ℕ, zero, suc, ◌+◌, String, ◌≡◌, refl, Bool, true, false, ◌||◌, Option, none, some, List, length,
  get_elem?, ◌==◌, if◌then◌else◌,
}

-- What getline leaves at the end of the stream: a token, if any character was read.
unfoldable pub last_token : String → List String
last_token [] = List.[]
last_token (c ∷ t) = List.◌∷◌ (c ∷ t) List.[]

-- The loop of tokenize_topic; `token` is what getline has read so far.
unfoldable pub getline_loop : String → String → List String
unfolding last_token
getline_loop token [] = last_token token
getline_loop token (c ∷ s) =
    let split = List.◌∷◌ token (getline_loop [] s) in
    let longer = getline_loop (token ++ c ∷ []) s in if code c == 47 then split else longer

unfoldable pub tokenize_topic : String → List String
unfolding getline_loop
tokenize_topic topic = getline_loop [] topic

-- tokens[it], for an iterator within the vector
abbrev pub at : List String → ℕ → String
at tokens it = elim (get_elem? tokens it) [ none ↦ "" | some t ↦ t ]

-- The inner loop: the first place from `it_new` on that holds `after_star`, `none` if there is none.
unfoldable pub advance : ℕ → List String → String → ℕ → Option ℕ
advance zero new_tokens after_star it_new = none
advance (suc fuel) new_tokens after_star it_new =
    let rest = advance fuel new_tokens after_star (it_new + 1) in
    if it_new == length new_tokens
    then none
    else if str_eq (at new_tokens it_new) after_star
    then some it_new
    else rest

-- The outer loop, from the two iterators as they are after the increments.
unfoldable pub compare_loop : ℕ → List String → List String → ℕ → ℕ → Bool
unfolding advance
compare_loop zero old_tokens new_tokens it_old it_new = false
compare_loop (suc fuel) old_tokens new_tokens it_old it_new =
    let old_size = length old_tokens in
    let new_size = length new_tokens in
    let onward = λ (i j : ℕ). compare_loop fuel old_tokens new_tokens (i + 1) (j + 1) in
    if it_old == old_size || it_new == new_size
    then (if it_old == old_size then it_new == new_size else false)
    else if str_eq (at old_tokens it_old) "*"
    then (if it_old + 1 == old_size
        then true
        else elim (advance (length new_tokens + 1) new_tokens (at old_tokens (it_old + 1)) it_new) [
          | none ↦ false
          | some it_new' ↦ onward (it_old + 1) it_new'
        ])
    else if str_eq (at old_tokens it_old) "+"
    then onward it_old it_new
    else if str_eq (at old_tokens it_old) (at new_tokens it_new)
    then onward it_old it_new
    else false

unfoldable pub compare_token_vectors : List String → List String → Bool
unfolding compare_loop
compare_token_vectors old_tokens new_tokens =
    compare_loop (length old_tokens + 1) old_tokens new_tokens 0 0

-- The subscriptions of a client: each topic with its tokens.
abbrev pub Topics : Type 0
Topics = List (String × List String)

any_matches : List String → Topics → Bool
any_matches new_tokens List.[] = false
any_matches new_tokens (List.◌∷◌ (topic, tokens) rest) =
    compare_token_vectors tokens new_tokens || any_matches new_tokens rest

unfoldable pub check_wildcard_topic : String → Topics → Bool
unfolding any_matches
check_wildcard_topic topic subscr_topics = any_matches (tokenize_topic topic) subscr_topics

tokens_sample : tokenize_topic "upb//100/" ≡ List.◌∷◌ "upb" (List.◌∷◌ "" (List.◌∷◌ "100" List.[]))
unfolding tokenize_topic
tokens_sample = refl

match_sample :
    compare_token_vectors (tokenize_topic "*/100/+") (tokenize_topic "upb/precis/100/humidity")
    ≡ true
unfolding compare_token_vectors tokenize_topic
match_sample = refl
