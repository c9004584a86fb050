-- ===== src/Harness/Effects.antt =====
-- Runs that leave `tests` as it is: every step of a test but its verdict.
pub mod Steps
pub mod Loops
pub mod Judges
pub mod Tidy
use server_client_app.Base.{
  String, ◌≡◌, ◌≢◌, refl, sym, ◌∙◌, ◌⊎◌, inl, inr, some, Bool, true, false, arith, if◌then◌else◌, ⊤,
  Exn, Result, ok, raised,
}
use server_client_app.Harness.Suite.{
  Event, Suite, Run, pure, raise, lift, except_timeout, finally, onward, ◌>>=◌, ◌>>◌, emit, do_call,
  ask_text, ask_flag, ask_handle, handle_timeout, attempt,
}
use server_client_app.Harness.Results.{lookup, pass_test, fail_test}
use server_client_app.Harness.Results.Lookup.{
  lookup-assign_self, lookup-assign_ne, keys, keys-assign,
}

pub record Quiet {A : Type 0} (m : Run A) : Type 0 where
  pub at : (s : Suite) → (m s).1.tests ≡ s.tests

pub Quiet-emit : (e : Event) → Quiet (emit e)
unfolding emit
Quiet-emit e = record { at = λ s. refl }

pub Quiet-do_call : (e : Event) → Quiet (do_call e)
unfolding do_call
Quiet-do_call e = record { at = λ s. refl }

pub Quiet-ask_text : (e : Event) → Quiet (ask_text e)
unfolding ask_text
Quiet-ask_text e = record { at = λ s. refl }

pub Quiet-ask_flag : (e : Event) → Quiet (ask_flag e)
unfolding ask_flag
Quiet-ask_flag e = record { at = λ s. refl }

pub Quiet-ask_handle : (e : Event) → Quiet (ask_handle e)
unfolding ask_handle
Quiet-ask_handle e = record { at = λ s. refl }

module _ {A : Type 0} where
  pub Quiet-pure : (a : A) → Quiet (pure a)
  unfolding pure
  Quiet-pure a = record { at = λ s. refl }

  pub Quiet-raise : (e : Exn) → Quiet (raise {A = A} e)
  unfolding raise
  Quiet-raise e = record { at = λ s. refl }

  pub Quiet-lift : (r : Result A) → Quiet (lift r)
  unfolding lift
  Quiet-lift r = record { at = λ s. refl }

  pub Quiet-if : (b : Bool) (m n : Run A) → Quiet m → Quiet n → Quiet (if b then m else n)
  Quiet-if true m n p q = p
  Quiet-if false m n p q = q

Quiet-onward :
    {A B : Type 0} (r : Result A) (f : A → Run B) → ((a : A) → Quiet (f a)) → Quiet (onward r f)
Quiet-onward (ok a) f q = q a
Quiet-onward (raised e) f q = record { at = λ s. refl }

pub Quiet-bind :
    {A B : Type 0} (m : Run A) (f : A → Run B) → Quiet m → ((a : A) → Quiet (f a)) → Quiet (m >>= f)
unfolding ◌>>=◌
Quiet-bind m f p q = record { at = λ s. let (r, s') = m s in (Quiet-onward r f q).at s' ∙ p.at s }

Quiet-handle : {A : Type 0} (r : Result A) (n : Run A) → Quiet n → Quiet (handle_timeout r n)
unfolding handle_timeout
Quiet-handle (raised Exn.timeout_error) n q = q
Quiet-handle (ok a) n q = record { at = λ s. refl }
Quiet-handle (raised _) n q = record { at = λ s. refl }

pub Quiet-except : {A : Type 0} (m n : Run A) → Quiet m → Quiet n → Quiet (except_timeout m n)
unfolding except_timeout
Quiet-except m n p q = record { at = λ s. let (r, s') = m s in (Quiet-handle r n q).at s' ∙ p.at s }

pub Quiet-finally : {A : Type 0} (m : Run A) (n : Run ⊤) → Quiet m → Quiet n → Quiet (finally m n)
unfolding finally
Quiet-finally m n p q = record { at = λ s. q.at (m s).1 ∙ p.at s }

pub Quiet-attempt : {A : Type 0} (m : Run A) → Quiet m → Quiet (attempt m)
unfolding attempt
Quiet-attempt m p = record { at = p.at }

pub ruleset quiet_rules = (
  Quiet-bind, Quiet-if, Quiet-pure, Quiet-raise, Quiet-lift, Quiet-emit, Quiet-do_call,
  Quiet-ask_text, Quiet-ask_flag, Quiet-ask_handle, Quiet-except, Quiet-finally, Quiet-attempt,
)
