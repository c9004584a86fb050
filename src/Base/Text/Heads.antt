-- ===== src/Base/Text/Heads.antt =====
-- Texts that differ in their first character.
use Prim.Native.Char.{Char, code}
use Prim.Native.String.{String, ◌∷◌ as ◌◁◌}
use text.Mathlib.Text.{◌==◌ as ◌is◌}
use text.Mathlib.TextEquality.{eq_iff}
use text.Mathlib.TextLemmas.{head-eq_of_cons-eq}
use mathlib.Core.Path.{◌≡◌, ap}
use mathlib.Core.Logic.{◌≢◌, inl, inr}
use mathlib.Core.Bool.{false}
use native.Mathlib.Omega.{arith}
use server_client_app.Base.Tests.{◌==◌, Bool-cases}

pub is-ne : (s t : String) → s ≢ t → (s is t) ≡ false
is-ne s t h = elim (Bool-cases (s is t)) [ inl e ↦ absurd (h ((eq_iff s t).0 e)) | inr e ↦ e ]

pub ne-head : (c d : Char) (s t : String) → (code c == code d) ≡ false → (c ◁ s) ≢ (d ◁ t)
ne-head c d s t h e =
    let p : code c ≡ code d = ap code (head-eq_of_cons-eq e) in ground (arith, h, p)
