-- ===== src/Harness/Verdicts/Flags.antt =====
-- The flags that h2_test branches on are the verdicts of the tests that return them.
use server_client_app.Base.{
  String, ◌≡◌, refl, ◌∙◌, ap, Bool, true, false, ◌&&◌, if◌then◌else◌, Result, ok, raised,
}
use server_client_app.Harness.Suite.{Suite, Run, pure, onward, ◌>>=◌, ◌>>◌}
use server_client_app.Harness.Results.{assign, pass_test, fail_test}
use server_client_app.Harness.Results.Lookup.{assign-assign}
use server_client_app.Harness.Process.{Process}
use server_client_app.Harness.Checks.{when, start_test, start_and_check_client}
use server_client_app.Harness.Basic.{run_test_c1_stop}
use server_client_app.Harness.Effects.{Quiet}
use server_client_app.Harness.Effects.Loops.{loop_rules}

-- Where a run returns, it has passed test `x` if its flag is true, and has left `tests` otherwise.
record Flags (x : String) {A : Type 0} (flag : A → Bool) (m : Run A) : Type 0 where
  at :
      (s : Suite) (a : A)
      → (m s).0 ≡ ok a
      → (m s).1.tests ≡ (if flag a then assign x "passed" s.tests else s.tests)

Flags-onward :
    {x : String} {A B : Type 0} {flag : B → Bool} (r : Result A) (f : A → Run B)
    → ((a : A) → Flags x flag (f a))
    → Flags x flag (onward r f)
Flags-onward (ok a) f q = q a
Flags-onward (raised e) f q = record { at = λ s b h. cc h }

Flags-bind :
    {x : String} {A B : Type 0} {flag : B → Bool} (m : Run A) (f : A → Run B)
    → Quiet m
    → ((a : A) → Flags x flag (f a))
    → Flags x flag (m >>= f)
unfolding ◌>>=◌
Flags-bind {x} {flag = flag} m f p q = record {
  at = λ s b h.
      let e = p.at s in
      (Flags-onward (m s).0 f q).at (m s).1 b h
      ∙ ap (λ d. if flag b then assign x "passed" d else d) e;
}

abbrev snd : Process × Bool → Bool
snd (client, success) = success

abbrev self : Bool → Bool
self b = b

-- if success and test: pass_test(x); return client, success
Flags-start :
    (x : String) (client : Process) (success : Bool)
    → Flags x snd (when (success && true) (pass_test x) >> pure (client, success))
unfolding pass_test pure ◌>>=◌
Flags-start x client true = record { at = λ s r h. cc h }
Flags-start x client false = record { at = λ s r h. cc h }

Flags-stop :
    (x : String) (stopped : Bool)
    → Flags x self (if stopped then pass_test x >> pure true else pure false)
unfolding pass_test pure ◌>>=◌
Flags-stop x true = record { at = λ s r h. cc h }
Flags-stop x false = record { at = λ s r h. cc h }

after_fail :
    {x : String} {A : Type 0} {flag : A → Bool} (m : Run A) (s : Suite) (a : A)
    → Flags x flag m
    → ((fail_test x >> m) s).0 ≡ ok a
    → ((fail_test x >> m) s).1.tests ≡ assign x (if flag a then "passed" else "failed") s.tests
unfolding fail_test ◌>>=◌
after_fail {x} {flag = flag} m s a f h = f.at (fail_test x s).1 a h ∙ settle (flag a)
  where
    settle :
        (b : Bool)
        → (if b then assign x "passed" (assign x "failed" s.tests) else assign x "failed" s.tests)
          ≡ assign x (if b then "passed" else "failed") s.tests
    settle true = assign-assign x "failed" "passed" s.tests
    settle false = refl

-- Where the start of a client, run as a test, returns, its mark is "passed" if the flag that it
-- returns is true and "failed" otherwise, and no other mark changes: h2_test branches on the
-- verdict of the test.
pub start_and_check_client-flag :
    (server client : Process) (id : String) (restart success : Bool) (s : Suite)
    → (start_and_check_client server id restart true s).0 ≡ ok (client, success)
    → (start_and_check_client server id restart true s).1.tests
      ≡ assign (start_test id restart) (if success then "passed" else "failed") s.tests
unfolding start_and_check_client
start_and_check_client-flag server client id restart success s h =
    after_fail _ s (client, success)
      (Flags-bind _ _ (search loop_rules) λ _. Flags-bind _ _ (search loop_rules) λ client.
        Flags-bind _ _ (search loop_rules) λ outs. Flags-bind _ _ (search loop_rules) λ alive.
          Flags-bind _ _ (search loop_rules) λ _.
            Flags-bind _ _ (search loop_rules) λ _. Flags-start (start_test id restart) client _)
      h

-- Where the test c1_stop returns, its mark is "passed" if the flag that it returns is true and
-- "failed" otherwise, and no other mark changes.
pub c1_stop-flag :
    (server c1 : Process) (success : Bool) (s : Suite)
    → (run_test_c1_stop server c1 s).0 ≡ ok success
    → (run_test_c1_stop server c1 s).1.tests
      ≡ assign "c1_stop" (if success then "passed" else "failed") s.tests
unfolding run_test_c1_stop
c1_stop-flag server c1 success s =
    after_fail _ s success
      (Flags-bind _ _ (search loop_rules) λ stopped. Flags-stop "c1_stop" stopped)
