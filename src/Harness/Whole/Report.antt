-- ===== src/Harness/Whole/Report.antt =====
-- What h2_test prints last.
use Prim.Native.String.{◌++◌, count}
use mathlib.Core.Path.{subst}
use server_client_app.Base.{◌≤◌, String, ◌≡◌, sym, ◌∙◌, ap, [], ◌∷◌, All, arith, ok}
use server_client_app.Harness.Suite.{Dict, Suite}
use server_client_app.Harness.Results.{test_output_line_size, initial_tests}
use server_client_app.Harness.Results.Lookup.{keys}
use server_client_app.Harness.Results.Printing.{
  output, result_line, result_lines, heading, count-result_line, output-print_test_results,
}
use server_client_app.Harness.Main.{h2_test}
use server_client_app.Harness.Effects.Loops.{Quiet-print_test_results}
use server_client_app.Harness.Effects.Tidy.{Status, not_executed, skipped, failed, passed, Tidy}
use server_client_app.Harness.Whole.{h2_test-KeepsTidy, h2_test-Ends}

abbrev pub IsLine : String × String → Type 0
IsLine (test, status) = count (result_line test status) ≡ test_output_line_size

count-Status : {v : String} → Status v → count v ≤ 12
count-Status (not_executed e) = rw e (omega arith)
count-Status (skipped e) = rw e (omega arith)
count-Status (failed e) = rw e (omega arith)
count-Status (passed e) = rw e (omega arith)

lines_of : (d : Dict) → All (λ k. count k ≤ 48) (keys d) → All (λ (k, v). Status v) d → All IsLine d
lines_of [] h a = tt
lines_of ((k, v) ∷ d) h a =
    (count-result_line k v (omega (arith, count-Status a.0, h.0)), lines_of d h.1 a.1)

short_names : All (λ k. count k ≤ 48) (keys initial_tests)
short_names = omega arith

Tidy-lines : {d : Dict} → Tidy d → All IsLine d
Tidy-lines {d} t = lines_of d (subst (All (λ k. count k ≤ 48)) (sym t.names) short_names) t.statuses

-- Whether it returns, quits or raises, h2_test leaves in `tests` its own nineteen tests in
-- their order, each "not executed", "skipped", "failed" or "passed", when it starts with such a
-- table.
pub h2_test-Tidy : (s : Suite) → Tidy s.tests → Tidy (h2_test s).1.tests
h2_test-Tidy s h = h2_test-KeepsTidy.at s h

-- When h2_test starts with a table of its tests and returns, what it printed ends in the
-- heading and one line for each of its tests, with the final statuses, each line of 60
-- characters.
pub h2_test-report :
    (s : Suite)
    → Tidy s.tests
    → (h2_test s).0 ≡ ok tt
    → (before : String) × (output (h2_test s).1.trace
        ≡ before ++ heading ++ result_lines (h2_test s).1.tests)
      × (keys (h2_test s).1.tests ≡ keys initial_tests)
      × All IsLine (h2_test s).1.tests
h2_test-report s h e =
    let (t, last) = h2_test-Ends.at s e in
    let tidy = h2_test-KeepsTidy.at s h in
    let same = ap (λ (u : Suite). u.tests) last ∙ Quiet-print_test_results.at t in
    (
      output t.trace,
      ap (λ (u : Suite). output u.trace) last
          ∙ output-print_test_results t
          ∙ ap (λ (d : Dict). output t.trace ++ heading ++ result_lines d) (sym same),
      tidy.names,
      Tidy-lines tidy,
    )
