-- ===== src/Base/Results.antt =====
-- A Python call returns a value or raises; the exceptions that the two scripts can meet.
use Prim.Native.String.{String}
use mathlib.Core.Option.{Option, none, some}

pub data Exn : Type 0 where
  file_not_found timeout_error timeout_expired broken_pipe os_error eof_error : Exn
  index_error binascii_error system_exit : Exn
  value_error : String → Exn

pub data Result {ℓ} (A : Type ℓ) : Type ℓ where
  ok : A → Result A
  raised : Exn → Result A

module _ {ℓ} {A : Type ℓ} where
  abbrev pub or_raise : Option A → Exn → Result A
  or_raise none e = raised e
  or_raise (some a) e = ok a

-- What a call returns that returns nothing.
abbrev pub ⊤ : Type 0
⊤ = Unit

module _ {ℓ κ} {A : Type ℓ} (P : A → Type κ) where
  -- Of a value that may be absent.
  abbrev pub Every : Option A → Type κ
  Every none = Unit
  Every (some a) = P a
