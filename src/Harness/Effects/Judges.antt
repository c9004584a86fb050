-- ===== src/Harness/Effects/Judges.antt =====
-- Runs that write one test's mark: the contract of a whole test, and its rules.
use server_client_app.Base.{
  String, ◌≡◌, ◌≢◌, refl, ◌∙◌, ap, ◌⊎◌, inl, inr, Bool, true, false, if◌then◌else◌, Exn, Result, ok,
  raised,
}
use server_client_app.Harness.Suite.{Suite, Run, pure, onward, ◌>>=◌, ◌>>◌}
use server_client_app.Harness.Results.{assign, pass_test, fail_test}
use server_client_app.Harness.Results.Lookup.{assign-assign}
use server_client_app.Harness.Effects.{Quiet}

abbrev pub Returns : {A : Type 0} → Result A → Type 0
Returns r = (e : Exn) → r ≢ raised e

-- A run that leaves `tests` alone, or passes test `x` and returns.
pub record Judges (x : String) {A : Type 0} (m : Run A) : Type 0 where
  pub at :
      (s : Suite)
      → ((m s).1.tests ≡ s.tests) ⊎ (((m s).1.tests ≡ assign x "passed" s.tests) × Returns (m s).0)

-- A run that marks test `x` as failed, or as passed, and writes nothing else to `tests`. A run
-- that raises leaves its test failed.
pub record Verdict (x : String) {A : Type 0} (m : Run A) : Type 0 where
  pub at :
      (s : Suite)
      → ((m s).1.tests ≡ assign x "failed" s.tests)
        ⊎ (((m s).1.tests ≡ assign x "passed" s.tests) × Returns (m s).0)

module _ {x : String} {A : Type 0} where
  pub Judges-Quiet : (m : Run A) → Quiet m → Judges x m
  Judges-Quiet m q = record { at = λ s. inl (q.at s) }

  pub Judges-if : (b : Bool) (m n : Run A) → Judges x m → Judges x n → Judges x (if b then m else n)
  Judges-if true m n p q = p
  Judges-if false m n p q = q

pub Judges-pass : (x : String) → Judges x (pass_test x)
unfolding pass_test
Judges-pass x = record { at = λ s. inr (refl, λ e p. cc p) }

-- pass_test(x), then a value to return.
pub Judges-pass_pure : (x : String) {A : Type 0} (a : A) → Judges x (pass_test x >> pure a)
unfolding pass_test pure ◌>>=◌
Judges-pass_pure x a = record { at = λ s. inr (refl, λ e p. cc p) }

-- if b: pass_test(x), then a value to return.
pub Judges-when_pure :
    (x : String) {A : Type 0} (b : Bool) (a : A)
    → Judges x ((if b then pass_test x else pure tt) >> pure a)
unfolding pass_test pure ◌>>=◌
Judges-when_pure x true a = Judges-pass_pure x a
Judges-when_pure x false a = record { at = λ s. inl refl }

Judges-onward :
    {x : String} {A B : Type 0} (r : Result A) (f : A → Run B)
    → ((a : A) → Judges x (f a))
    → Judges x (onward r f)
Judges-onward (ok a) f q = q a
Judges-onward (raised e) f q = record { at = λ s. inl refl }

pub Judges-bind :
    {x : String} {A B : Type 0} (m : Run A) (f : A → Run B)
    → Quiet m
    → ((a : A) → Judges x (f a))
    → Judges x (m >>= f)
unfolding ◌>>=◌
Judges-bind {x} m f p q = record {
  at = λ s.
      let e = p.at s in
      elim ((Judges-onward (m s).0 f q).at (m s).1) [
        | inl same ↦ inl (same ∙ e)
        | inr (passed, returns) ↦ inr (passed ∙ ap (assign x "passed") e, returns)
      ];
}

-- A test marks itself as failed first.
pub Verdict-fail : {x : String} {A : Type 0} (m : Run A) → Judges x m → Verdict x (fail_test x >> m)
unfolding fail_test ◌>>=◌
Verdict-fail {x} m j = record {
  at = λ s. elim (j.at (fail_test x s).1) [
    | inl same ↦ inl same
    | inr (passed, returns) ↦ inr (passed ∙ assign-assign x "failed" "passed" s.tests, returns)
  ];
}

pub ruleset judge_rules =
    (Judges-pass, Judges-pass_pure, Judges-when_pure, Judges-bind, Judges-if, Judges-Quiet)
