-- ===== src/Base/Text.antt =====
-- The operations of Python's `str` that the scripts use, over the native texts.
pub mod Heads
pub mod Scan
use Prim.Native.Nat.{ℕ, zero, suc, ◌+◌, ◌/◌, ◌%◌}
use Prim.Native.Char.{Char, code}
use Prim.Native.String.{String, [], ◌∷◌, ◌++◌}
use mathlib.Core.Bool.{Bool, true, false, ◌&&◌, ◌||◌}
use mathlib.Core.Option.{none, some}
use mathlib.Core.List.{List}
use mathlib.Core.Path.{◌≡◌, refl}
use server_client_app.Base.Tests.{◌==◌, leb, ltb, if◌then◌else◌}
use server_client_app.Base.Lists.{get_elem?}
use text.Mathlib.Text.{find?}

-- `needle in hay`
abbrev pub contains : String → String → Bool
contains hay needle = elim (find? hay needle) [ none ↦ false | some i ↦ true ]

-- str.isspace for ASCII
unfoldable pub is_space : Char → Bool
is_space c = let n = code c in n == 32 || leb 9 n && leb n 13 || leb 28 n && leb n 31

unfoldable pub cut_space : Char → String → String
unfolding is_space
cut_space c [] = if is_space c then [] else c ∷ []
cut_space c (d ∷ s) = c ∷ d ∷ s

-- s.rstrip()
unfoldable pub rstrip : String → String
unfolding cut_space
rstrip [] = []
rstrip (c ∷ s) = cut_space c (rstrip s)

-- s.lstrip()
unfoldable pub lstrip : String → String
unfolding is_space
lstrip [] = []
lstrip (c ∷ s) = let rest = lstrip s in if is_space c then rest else c ∷ s

flush : String → List String → List String
flush [] words = words
flush (c ∷ s) words = List.◌∷◌ (c ∷ s) words

words_from : String → String → List String
unfolding is_space flush
words_from current [] = flush current List.[]
words_from current (c ∷ s) =
    let after = flush current (words_from [] s) in
    let longer = words_from (current ++ c ∷ []) s in if is_space c then after else longer

-- s.split()
unfoldable pub split : String → List String
unfolding words_from
split s = words_from [] s

-- n copies of a text: `n * s`
unfoldable pub repeat : ℕ → String → String
repeat zero s = []
repeat (suc n) s = s ++ repeat n s

-- '\n'.join(lines)
unfoldable pub join_lines : List String → String
join_lines List.[] = []
join_lines (List.◌∷◌ s List.[]) = s
join_lines (List.◌∷◌ s (List.◌∷◌ t rest)) = s ++ "\n" ++ join_lines (List.◌∷◌ t rest)

abbrev digit_chars : List Char
digit_chars = List.◌∷◌ "0" (
    List.◌∷◌ "1" (
      List.◌∷◌ "2" (
        List.◌∷◌ "3" (
          List.◌∷◌ "4"
            (List.◌∷◌ "5" (List.◌∷◌ "6" (List.◌∷◌ "7" (List.◌∷◌ "8" (List.◌∷◌ "9" List.[])))))))))

unfoldable pub digit : ℕ → Char
digit d = elim (get_elem? digit_chars d) [ none ↦ "0" | some c ↦ c ]

unfoldable pub decimal : ℕ → ℕ → String
unfolding digit
decimal zero n = ""
decimal (suc fuel) n =
    let front = decimal fuel (n / 10) in
    if ltb n 10 then digit n ∷ [] else front ++ digit (n % 10) ∷ []

-- str(n)
unfoldable pub str : ℕ → String
unfolding decimal
str n = decimal (n + 1) n

str_year : str 2024 ≡ "2024"
unfolding str
str_year = refl

rstrip_line : rstrip "Client C1 disconnected. \n" ≡ "Client C1 disconnected."
unfolding rstrip
rstrip_line = refl

split_line :
    split " 4096\t131072  6291456\n"
    ≡ List.◌∷◌ "4096" (List.◌∷◌ "131072" (List.◌∷◌ "6291456" List.[]))
unfolding split
split_line = refl
