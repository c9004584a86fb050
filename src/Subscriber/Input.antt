-- ===== src/Subscriber/Input.antt =====
-- The calls of the C library by which Subscriber.cpp takes a line apart.
pub mod Laws
use Prim.Native.Char.{Char, code}
use Prim.Native.String.{◌∷◌ as ◌◁◌, len}
use server_client_app.Base.{
  ℕ, ◌+◌, String, Bool, true, false, Option, none, some, ◌||◌, ◌==◌, if◌then◌else◌,
}

-- strdup(s.c_str()): the text before the first null character
unfoldable pub c_str : String → String
c_str Prim.Native.String.[] = ""
c_str (c ◁ s) = let rest = c_str s in if code c == 0 then "" else c ◁ rest

-- strlen, in bytes
abbrev pub strlen : String → ℕ
strlen s = len s

-- The character is one of the delimiters.
unfoldable pub is_one_of : String → Char → Bool
is_one_of Prim.Native.String.[] c = false
is_one_of (d ◁ delims) c = code c == code d || is_one_of delims c

unfoldable pub skip : String → String → String
unfolding is_one_of
skip delims Prim.Native.String.[] = ""
skip delims (c ◁ s) = let rest = skip delims s in if is_one_of delims c then rest else c ◁ s

-- The text up to a delimiter, and the text behind it.
unfoldable pub cut : String → String → String × String
unfolding is_one_of
cut delims Prim.Native.String.[] = ("", "")
cut delims (c ◁ s) =
    let (token, rest) = cut delims s in if is_one_of delims c then ("", s) else (c ◁ token, rest)

unfoldable pub token_at : String → String → Option (String × String)
unfolding cut
token_at delims Prim.Native.String.[] = none
token_at delims (c ◁ s) = some (cut delims (c ◁ s))

-- strtok: the next token with the text that is left for the next call, or NULL
unfoldable pub strtok : String → String → Option (String × String)
unfolding skip token_at
strtok delims s = token_at delims (skip delims s)
