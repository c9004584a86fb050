-- ===== src/Harness/Verdicts/Flow.antt =====
-- run_test_quick_flow, which restores the TCP buffer sizes after its verdict.
use server_client_app.Base.{
  String, ◌≡◌, refl, ◌∙◌, ap, ◌⊎◌, inl, inr, Bool, true, false, List, if◌then◌else◌, Result, ok,
  raised,
}
use server_client_app.Harness.Suite.{Suite, Run, onward, ◌>>=◌, ◌>>◌}
use server_client_app.Harness.Results.{assign, pass_test, fail_test}
use server_client_app.Harness.Results.Lookup.{assign-assign}
use server_client_app.Harness.Topics.{Topic}
use server_client_app.Harness.Process.{Process}
use server_client_app.Harness.Basic.{flow_checks, run_test_quick_flow}
use server_client_app.Harness.Effects.{Quiet}
use server_client_app.Harness.Effects.Loops.{loop_rules}

-- A run that leaves `tests` alone or passes test `x`, whether it returns or raises.
record Writes (x : String) {A : Type 0} (m : Run A) : Type 0 where
  at : (s : Suite) → ((m s).1.tests ≡ s.tests) ⊎ ((m s).1.tests ≡ assign x "passed" s.tests)

module _ {x : String} {A : Type 0} where
  Writes-Quiet : (m : Run A) → Quiet m → Writes x m
  Writes-Quiet m q = record { at = λ s. inl (q.at s) }

  Writes-if : (b : Bool) (m n : Run A) → Writes x m → Writes x n → Writes x (if b then m else n)
  Writes-if true m n p q = p
  Writes-if false m n p q = q

Writes-pass : (x : String) → Writes x (pass_test x)
unfolding pass_test
Writes-pass x = record { at = λ s. inr refl }

Writes-onward :
    {x : String} {A B : Type 0} (r : Result A) (f : A → Run B)
    → ((a : A) → Writes x (f a))
    → Writes x (onward r f)
Writes-onward (ok a) f q = q a
Writes-onward (raised e) f q = record { at = λ s. inl refl }

Writes-bind :
    {x : String} {A B : Type 0} (m : Run A) (f : A → Run B)
    → Quiet m
    → ((a : A) → Writes x (f a))
    → Writes x (m >>= f)
unfolding ◌>>=◌
Writes-bind {x} m f p q = record {
  at = λ s.
      let e = p.at s in
      elim ((Writes-onward (m s).0 f q).at (m s).1) [
        | inl same ↦ inl (same ∙ e)
        | inr passed ↦ inr (passed ∙ ap (assign x "passed") e)
      ];
}

Quiet-rest :
    {A B : Type 0} (r : Result A) (f : A → Run B) → ((a : A) → Quiet (f a)) → Quiet (onward r f)
Quiet-rest (ok a) f q = q a
Quiet-rest (raised e) f q = record { at = λ s. refl }

-- The verdict, and then runs that leave it.
Writes-then :
    {x : String} {A B : Type 0} (m : Run A) (f : A → Run B)
    → Writes x m
    → ((a : A) → Quiet (f a))
    → Writes x (m >>= f)
unfolding ◌>>=◌
Writes-then {x} m f p q = record {
  at = λ s.
      let e = (Quiet-rest (m s).0 f q).at (m s).1 in
      elim (p.at s) [ inl same ↦ inl (e ∙ same) | inr passed ↦ inr (e ∙ passed) ];
}

ruleset flow_rules = (Writes-pass, Writes-bind, Writes-if, Writes-Quiet, loop_rules)

after_fail :
    {x : String} {A : Type 0} (m : Run A) (s : Suite)
    → Writes x m
    → let s' = ((fail_test x >> m) s).1 in
      (s'.tests ≡ assign x "failed" s.tests) ⊎ (s'.tests ≡ assign x "passed" s.tests)
unfolding fail_test ◌>>=◌
after_fail {x} m s w = elim (w.at (fail_test x s).1) [
  | inl same ↦ inl same
  | inr passed ↦ inr (passed ∙ assign-assign x "failed" "passed" s.tests)
]

Writes-flow_checks :
    (c1 : Process) (topics : List Topic) (rmem wmem : List String)
    → Writes "quick_flow" (flow_checks c1 topics rmem wmem)
unfolding flow_checks
Writes-flow_checks c1 topics rmem wmem = Writes-bind _ _ (search loop_rules) λ _.
    Writes-bind _ _ (search loop_rules) λ _.
      Writes-bind _ _ (search loop_rules)
        λ success. Writes-then _ _ (search flow_rules) λ _. search loop_rules

-- The test quick_flow is failed or passed, and no other mark changes.
pub quick_flow-marks :
    (c1 : Process) (topics : List Topic) (s : Suite)
    → let s' = (run_test_quick_flow c1 topics s).1 in
      (s'.tests ≡ assign "quick_flow" "failed" s.tests)
      ⊎ (s'.tests ≡ assign "quick_flow" "passed" s.tests)
unfolding run_test_quick_flow
quick_flow-marks c1 topics s = after_fail _ s (search (flow_rules, Writes-flow_checks) depth 20)
