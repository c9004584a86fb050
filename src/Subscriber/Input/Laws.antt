-- ===== src/Subscriber/Input/Laws.antt =====
-- How strtok takes apart a command and a topic.
use Prim.Native.Char.{Char, code}
use Prim.Native.String.{◌∷◌ as ◌◁◌, ◌++◌}
use text.Mathlib.TextLemmas.{nil-append, cons-append}
use server_client_app.Base.{
  String, ◌≡◌, refl, ap, ◌∙◌, Bool, true, false, not, ◌&&◌, some, ◌==◌, arith,
}
use server_client_app.Subscriber.Input.{c_str, is_one_of, skip, cut, token_at, strtok}

-- No null character, space or line break.
unfoldable pub clean : String → Bool
unfolding is_one_of
clean Prim.Native.String.[] = true
clean (c ◁ s) = not (code c == 0) && not (is_one_of "\n " c) && clean s

abbrev pub IsNonempty : String → Type 0
IsNonempty Prim.Native.String.[] = ⊥
IsNonempty (c ◁ s) = Unit

record IsPlain (c : Char) : Type 0 where
  not_null : (code c == 0) ≡ false
  not_space : is_one_of " " c ≡ false
  not_break : is_one_of "\n " c ≡ false

IsPlain-head : (c : Char) (s : String) → clean (c ◁ s) ≡ true → IsPlain c
unfolding clean is_one_of
IsPlain-head c s h = record {
  not_null = ground (arith, h);
  not_space = ground (arith, h);
  not_break = ground (arith, h);
}

clean_tail : (c : Char) (s : String) → clean (c ◁ s) ≡ true → clean s ≡ true
unfolding clean
clean_tail c s h = ground (arith, h)

space_head : (s : String) → " " ++ s ≡ " " ◁ s
space_head s = cons-append " " "" s ∙ ap (λ (x : String). " " ◁ x) (nil-append s)

c_str-clean : (t : String) → clean t ≡ true → c_str t ≡ t
unfolding c_str
c_str-clean Prim.Native.String.[] h = refl
c_str-clean (c ◁ t) h =
    rw (IsPlain-head c t h).not_null (rw (c_str-clean t (clean_tail c t h)) refl)

c_str-line :
    (w t : String) → clean w ≡ true → clean t ≡ true → c_str (w ++ (" " ++ t)) ≡ w ++ (" " ++ t)
unfolding c_str
c_str-line Prim.Native.String.[] t h k =
    rw (nil-append (" " ++ t)) (rw (space_head t) (rw (c_str-clean t k) refl))
c_str-line (c ◁ w) t h k =
    rw (cons-append c w (" " ++ t))
      (rw (IsPlain-head c w h).not_null (rw (c_str-line w t (clean_tail c w h) k) refl))

cut-word : (w t : String) → clean w ≡ true → cut " " (w ++ (" " ++ t)) ≡ (w, t)
unfolding cut is_one_of
cut-word Prim.Native.String.[] t h = rw (nil-append (" " ++ t)) (rw (space_head t) refl)
cut-word (c ◁ w) t h =
    rw (cons-append c w (" " ++ t))
      (rw (IsPlain-head c w h).not_space (rw (cut-word w t (clean_tail c w h)) refl))

cut-last : (t : String) → clean t ≡ true → cut "\n " t ≡ (t, "")
unfolding cut
cut-last Prim.Native.String.[] h = refl
cut-last (c ◁ t) h = rw (IsPlain-head c t h).not_break (rw (cut-last t (clean_tail c t h)) refl)

-- The first word of a line.
pub strtok-word :
    (w t : String)
    → IsNonempty w
    → clean w ≡ true
    → clean t ≡ true
    → strtok " " (c_str (w ++ (" " ++ t))) ≡ some (w, t)
unfolding strtok skip token_at
strtok-word Prim.Native.String.[] t n h k = absurd n
strtok-word (c ◁ w) t n h k =
    ap (strtok " ") (c_str-line (c ◁ w) t h k)
    ∙ rw (cons-append c w (" " ++ t)) (
        rw (IsPlain-head c w h).not_space
          (ap some (rw (cons-append c w (" " ++ t)) at (cut-word (c ◁ w) t h))))

-- The only word that is left.
pub strtok-last : (t : String) → IsNonempty t → clean t ≡ true → strtok "\n " t ≡ some (t, "")
unfolding strtok skip token_at
strtok-last Prim.Native.String.[] n h = absurd n
strtok-last (c ◁ t) n h = rw (IsPlain-head c t h).not_break (ap some (cut-last (c ◁ t) h))
