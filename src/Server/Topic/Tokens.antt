-- ===== src/Server/Topic/Tokens.antt =====
-- Server::tokenize_topic undoes the joining of levels by "/".
use Prim.Native.Char.{Char, code}
use Prim.Native.String.{◌∷◌ as ◌◁◌, ◌++◌}
use text.Mathlib.TextLemmas.{append-nil, append_assoc, nil-append, cons-append}
use server_client_app.Base.{String, ◌≡◌, ◌≢◌, refl, sym, ap, ◌∙◌, false, List, [], ◌∷◌, ◌==◌}
use server_client_app.Server.Topic.{last_token, getline_loop, tokenize_topic}

abbrev slash : Char
slash = "/"

-- A level of a topic, which has no "/".
unfoldable pub IsLevel : String → Type 0
IsLevel Prim.Native.String.[] = Unit
IsLevel (c ◁ t) = ((code c == 47) ≡ false) × IsLevel t

-- Levels of which the last is not empty.
unfoldable pub Levels : List String → Type 0
Levels [] = Unit
Levels (t ∷ []) = IsLevel t × (t ≢ "")
Levels (t ∷ u ∷ ts) = IsLevel t × Levels (u ∷ ts)

unfoldable pub join_levels : List String → String
join_levels [] = ""
join_levels (t ∷ []) = t
join_levels (t ∷ u ∷ ts) = t ++ "/" ++ join_levels (u ∷ ts)

slash-append : (s : String) → "/" ++ s ≡ slash ◁ s
slash-append s = cons-append slash "" s ∙ ap (λ (x : String). slash ◁ x) (nil-append s)

shift : (token t : String) (c : Char) → (token ++ (c ◁ "")) ++ t ≡ token ++ (c ◁ t)
shift token t c =
    append_assoc token (c ◁ "") t
    ∙ ap (λ (x : String). token ++ x)
        (cons-append c "" t ∙ ap (λ (x : String). c ◁ x) (nil-append t))

slash_rest : (token s : String) → getline_loop token ("/" ++ s) ≡ token ∷ getline_loop "" s
unfolding getline_loop
slash_rest token s = rw (slash-append s) refl

getline-stop :
    (token t s : String)
    → IsLevel t
    → getline_loop token (t ++ ("/" ++ s)) ≡ (token ++ t) ∷ getline_loop "" s
unfolding getline_loop IsLevel
getline-stop token Prim.Native.String.[] s h =
    rw (nil-append ("/" ++ s)) (rw (append-nil token) (slash_rest token s))
getline-stop token (c ◁ t) s h = rw (cons-append c t ("/" ++ s)) (
    rw h.0 (
      getline-stop (token ++ (c ◁ "")) t s h.1
      ∙ ap (λ (x : String). x ∷ getline_loop "" s) (shift token t c)))

getline-end : (token t : String) → IsLevel t → getline_loop token t ≡ last_token (token ++ t)
unfolding getline_loop IsLevel
getline-end token Prim.Native.String.[] h = ap last_token (sym (append-nil token))
getline-end token (c ◁ t) h =
    rw h.0 (getline-end (token ++ (c ◁ "")) t h.1 ∙ ap last_token (shift token t c))

last_token-ne : (t : String) → t ≢ "" → last_token t ≡ t ∷ []
unfolding last_token
last_token-ne Prim.Native.String.[] h = absurd (h refl)
last_token-ne (c ◁ t) h = refl

-- Levels that are joined by "/" are the tokens of the topic, when no level has a "/" in it and
-- the last one is not empty.
pub tokenize-join :
    (levels : List String) → Levels levels → tokenize_topic (join_levels levels) ≡ levels
unfolding tokenize_topic join_levels Levels getline_loop last_token
tokenize-join [] h = refl
tokenize-join (t ∷ []) h = getline-end "" t h.0 ∙ ap last_token (nil-append t) ∙ last_token-ne t h.1
tokenize-join (t ∷ u ∷ ts) h =
    getline-stop "" t (join_levels (u ∷ ts)) h.0
    ∙ ap (λ (x : String). x ∷ getline_loop "" (join_levels (u ∷ ts))) (nil-append t)
    ∙ ap (λ (l : List String). t ∷ l) (tokenize-join (u ∷ ts) h.1)
