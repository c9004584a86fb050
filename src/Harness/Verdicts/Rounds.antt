-- ===== src/Harness/Verdicts/Rounds.antt =====
-- What run_test_quick_flow has read when it passes.
use mathlib.Core.List.{◌++◌ as append}
use mathlib.Core.Bool.{false≢true}
use text.Mathlib.TextEquality.{eq_iff}
use server_client_app.Base.{
  ℕ, zero, suc, String, ◌≡◌, refl, sym, ◌∙◌, ap, Bool, true, false, if◌then◌else◌, List, [], some,
  ⊤, Result, ok, raised,
}
use server_client_app.Harness.Suite.{Dict, Suite, Run, pure, onward, ◌>>=◌, ◌>>◌, emit, print}
use server_client_app.Harness.Results.{lookup, pass_test, fail_test}
use server_client_app.Harness.Results.Lookup.{lookup-assign_self}
use server_client_app.Harness.Topics.{Topic}
use server_client_app.Harness.Process.{Process}
use server_client_app.Harness.Checks.{when}
use server_client_app.Harness.Helpers.{set_procfs_values}
use server_client_app.Harness.Basic.{send_rounds, check_rounds, flow_checks, run_test_quick_flow}
use server_client_app.Harness.Effects.{Quiet}
use server_client_app.Harness.Effects.Loops.{loop_rules, Quiet-send_rounds, Quiet-check_rounds}
use server_client_app.Harness.Verdicts.Heard.{Heard, all_heard, check_all-then, status}

-- So many rounds over the topics.
unfoldable pub times : ℕ → List Topic → List Topic
times zero topics = []
times (suc n) topics = append topics (times n topics)

check_rounds-Heard :
    (n : ℕ) (c : Process) (topics : List Topic) (b : Bool) (s : Suite)
    → (check_rounds n c topics b s).0 ≡ ok true
    → (b ≡ true) × Heard c (times n topics) s
unfolding check_rounds times pure
check_rounds-Heard zero c topics b s h = (cc h, all_heard)
check_rounds-Heard (suc n) c topics b s h =
    check_all-then c "1" topics (times n topics) (check_rounds n c topics)
      (check_rounds-Heard n c topics) b s h

failed_not :
    (d : Dict) → lookup "quick_flow" d ≡ some "failed" → lookup "quick_flow" d ≡ some "passed" → ⊥
failed_not d f p = false≢true ((eq_iff "failed" "passed").1 (ap status (sym f ∙ p)))

-- The test has failed so far.
HasFailed : Suite → Type 0
HasFailed s = lookup "quick_flow" s.tests ≡ some "failed"

HasPassed : Suite → Type 0
HasPassed s = lookup "quick_flow" s.tests ≡ some "passed"

-- A run that ends in flow_checks where the test has passed after it.
record Earns (c1 : Process) (topics : List Topic) (m : Run ⊤) : Type 0 where
  at :
      (s : Suite)
      → HasFailed s
      → HasPassed (m s).1
      → (rmem wmem : List String) × (t : Suite) × HasFailed t
        × (m s ≡ flow_checks c1 topics rmem wmem t)

module _ (c1 : Process) (topics : List Topic) where
  Earns-flow_checks : (rmem wmem : List String) → Earns c1 topics (flow_checks c1 topics rmem wmem)
  Earns-flow_checks rmem wmem = record { at = λ s f p. (rmem, wmem, s, f, refl) }

  Earns-Quiet : (m : Run ⊤) → Quiet m → Earns c1 topics m
  unfolding HasFailed HasPassed
  Earns-Quiet m q = record {
    at = λ s f p. absurd (failed_not _ f (ap (lookup "quick_flow") (sym (q.at s)) ∙ p));
  }

  Earns-if :
      (b : Bool) (m n : Run ⊤)
      → Earns c1 topics m
      → Earns c1 topics n
      → Earns c1 topics (if b then m else n)
  Earns-if true m n p q = p
  Earns-if false m n p q = q

  Earns-onward :
      {A : Type 0} (r : Result A) (f : A → Run ⊤)
      → ((a : A) → Earns c1 topics (f a))
      → Earns c1 topics (onward r f)
  unfolding HasFailed HasPassed
  Earns-onward (ok a) f q = q a
  Earns-onward (raised e) f q = record { at = λ s f p. absurd (failed_not _ f p) }

  Earns-bind :
      {A : Type 0} (m : Run A) (f : A → Run ⊤)
      → Quiet m
      → ((a : A) → Earns c1 topics (f a))
      → Earns c1 topics (m >>= f)
  unfolding ◌>>=◌ HasFailed
  Earns-bind m f q p = record {
    at = λ s h. (Earns-onward (m s).0 f p).at (m s).1 (ap (lookup "quick_flow") (q.at s) ∙ h);
  }

-- After the checks: only a success passes the test.
after_checks :
    (c1 : Process) (topics : List Topic) (rmem wmem : List String) (r : Result Bool) (u : Suite)
    → HasFailed u
    → HasPassed
        (onward r
          (λ success.
            when success (pass_test "quick_flow")
            >> (set_procfs_values true rmem >> (set_procfs_values false wmem >> pure tt)))
          u).1
    → r ≡ ok true
unfolding HasFailed HasPassed
after_checks c1 topics rmem wmem (ok true) u f p = refl
after_checks c1 topics rmem wmem (raised e) u f p = absurd (failed_not _ f p)
after_checks c1 topics rmem wmem (ok false) u f p =
    let quiet : Quiet
        (pure tt >> (set_procfs_values true rmem >> (set_procfs_values false wmem >> pure tt))) =
      search loop_rules in
    absurd (failed_not _ f (ap (lookup "quick_flow") (sym (quiet.at u)) ∙ p))

-- What flow_checks does before it reads.
unfoldable pub sending : Run ⊤
sending = print "Generating one message for each topic 30 times in a row" >> send_rounds 30

after_sending :
    (c1 : Process) (topics : List Topic) (rmem wmem : List String) (r : Result ⊤) (u : Suite)
    → HasFailed u
    → HasPassed
        (onward r
          (λ _. check_rounds 30 c1 topics true >>= λ success.
            when success (pass_test "quick_flow")
            >> (set_procfs_values true rmem >> (set_procfs_values false wmem >> pure tt)))
          u).1
    → Heard c1 (times 30 topics) u
unfolding HasFailed HasPassed ◌>>=◌
after_sending c1 topics rmem wmem (raised e) u f p = absurd (failed_not _ f p)
after_sending c1 topics rmem wmem (ok a) u f p =
    let v = (check_rounds 30 c1 topics true u).1 in
    let quiet = (Quiet-check_rounds 30 c1 topics true).at u in
    let true_end =
      after_checks c1 topics rmem wmem (check_rounds 30 c1 topics true u).0 v
        (ap (lookup "quick_flow") quiet ∙ f) p in
    (check_rounds-Heard 30 c1 topics true u true_end).1

flow_checks-Heard :
    (c1 : Process) (topics : List Topic) (rmem wmem : List String) (s : Suite)
    → HasFailed s
    → HasPassed (flow_checks c1 topics rmem wmem s).1
    → Heard c1 (times 30 topics) (sending s).1
unfolding flow_checks sending HasFailed print emit ◌>>=◌
flow_checks-Heard c1 topics rmem wmem s f p =
    let begun = (print "Generating one message for each topic 30 times in a row" s).1 in
    after_sending c1 topics rmem wmem (send_rounds 30 begun).0 (send_rounds 30 begun).1
      (ap (lookup "quick_flow") ((Quiet-send_rounds 30).at begun) ∙ f) p

ruleset earn_rules = (Earns-bind, Earns-if, Earns-flow_checks, Earns-Quiet, loop_rules)

after_fail :
    (c1 : Process) (topics : List Topic) (m : Run ⊤) (s : Suite)
    → Earns c1 topics m
    → HasPassed ((fail_test "quick_flow" >> m) s).1
    → (rmem wmem : List String) × (t : Suite) × ((fail_test "quick_flow" >> m) s
        ≡ flow_checks c1 topics rmem wmem t)
      × Heard c1 (times 30 topics) (sending t).1
unfolding fail_test HasFailed HasPassed ◌>>=◌
after_fail c1 topics m s earns p =
    let (rmem, wmem, t, failed, path) =
      earns.at (fail_test "quick_flow" s).1 (lookup-assign_self "quick_flow" "failed" s.tests) p in
    (
      rmem,
      wmem,
      t,
      path,
      flow_checks-Heard c1 topics rmem wmem t failed
          (ap (λ (q : Result ⊤ × Suite). lookup "quick_flow" q.1.tests) (sym path) ∙ p),
    )

-- When the test quick_flow is marked as passed, it has run as flow_checks from some state on,
-- and the next outputs that were read from the subscriber, after the messages were generated 30
-- times, were 30 rounds of one for each topic in the order of the topics, each of which
-- contained the expected text of its topic.
pub quick_flow-Heard :
    (c1 : Process) (topics : List Topic) (s : Suite)
    → lookup "quick_flow" (run_test_quick_flow c1 topics s).1.tests ≡ some "passed"
    → (rmem wmem : List String) × (t : Suite) × (run_test_quick_flow c1 topics s
        ≡ flow_checks c1 topics rmem wmem t)
      × Heard c1 (times 30 topics) (sending t).1
unfolding run_test_quick_flow HasPassed
quick_flow-Heard c1 topics s p = after_fail c1 topics _ s (search earn_rules depth 20) p
