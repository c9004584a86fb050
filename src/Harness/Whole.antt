-- ===== src/Harness/Whole.antt =====
-- h2_test as a whole: whatever the processes do, the results that it prints are a table of its own
-- nineteen tests, one line of 60 characters each.
mod Tests
pub mod Report
use server_client_app.Base.{
  String, ◌≡◌, refl, sym, ◌∙◌, ap, Bool, true, false, List, [], ◌∷◌, ⊤, Result, ok, raised, Exn,
}
use server_client_app.Harness.Suite.{Dict, Suite, Run, pure, onward, ◌>>=◌, ◌>>◌}
use server_client_app.Harness.Results.{print_test_results}
use server_client_app.Harness.Topics.{Topic}
use server_client_app.Harness.Process.{Process}
use server_client_app.Harness.Main.{
  run_c2_tests, run_restarted_tests, run_stopped_tests, run_c1_tests, h2_test,
}
use server_client_app.Harness.Effects.Tidy.{Tidy, KeepsTidy, KeepsTidy-bind}
use Tests.{tidy_tests}

c2_tests-KeepsTidy :
    (server c2 : Process) (topics wildcard_topics : List Topic)
    → KeepsTidy (run_c2_tests server c2 topics wildcard_topics)
unfolding run_c2_tests
c2_tests-KeepsTidy server c2 topics wildcard_topics = search (tidy_tests) depth 20

restarted-KeepsTidy :
    (server c1 : Process) (topics wildcard_topics : List Topic)
    → KeepsTidy (run_restarted_tests server c1 topics wildcard_topics)
unfolding run_restarted_tests
restarted-KeepsTidy server c1 topics wildcard_topics =
    search (tidy_tests, c2_tests-KeepsTidy) depth 20

stopped-KeepsTidy :
    (server : Process) (topics wildcard_topics : List Topic)
    → KeepsTidy (run_stopped_tests server topics wildcard_topics)
unfolding run_stopped_tests
stopped-KeepsTidy server topics wildcard_topics = search (tidy_tests, restarted-KeepsTidy) depth 20

c1_tests-KeepsTidy :
    (server c1 : Process) (topics wildcard_topics : List Topic)
    → KeepsTidy (run_c1_tests server c1 topics wildcard_topics)
unfolding run_c1_tests
c1_tests-KeepsTidy server c1 topics wildcard_topics =
    search (tidy_tests, stopped-KeepsTidy) depth 20

-- Whether it ends, quits or raises, h2_test leaves in `tests` its own tests in their order, each
-- with one of the four statuses.
pub h2_test-KeepsTidy : KeepsTidy h2_test
unfolding h2_test
h2_test-KeepsTidy = search (tidy_tests, c1_tests-KeepsTidy) depth 20

-- Where a run returns, its last step was `n`.
pub record Ends (n : Run ⊤) {A : Type 0} (m : Run A) : Type 0 where
  pub at : (s : Suite) {a : A} → (m s).0 ≡ ok a → (t : Suite) × ((m s).1 ≡ (n t).1)

module _ {n : Run ⊤} where
  Ends-last : Ends n n
  Ends-last = record { at = λ s e. (s, refl) }

  Ends-onward :
      {A B : Type 0} (r : Result A) (f : A → Run B) (s : Suite) {b : B}
      → ((a : A) → Ends n (f a))
      → (onward r f s).0 ≡ ok b
      → (t : Suite) × ((onward r f s).1 ≡ (n t).1)
  Ends-onward (ok a) f s q e = (q a).at s e
  Ends-onward (raised x) f s q e = cc e

  Ends-bind :
      {A B : Type 0} (m : Run A) (f : A → Run B) → ((a : A) → Ends n (f a)) → Ends n (m >>= f)
  unfolding ◌>>=◌
  Ends-bind m f q = record { at = λ s e. Ends-onward (m s).0 f (m s).1 q e }

pub h2_test-Ends : Ends print_test_results h2_test
unfolding h2_test
h2_test-Ends = search (Ends-bind, Ends-last) depth 20
