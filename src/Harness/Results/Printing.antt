-- ===== src/Harness/Results/Printing.antt =====
-- What print_test_results writes: the heading, then one line of 60 characters for each test.
use Prim.Native.String.{◌++◌, count}
use text.Mathlib.TextLemmas.{length-append, append-nil, append_assoc}
use server_client_app.Base.{
  ℕ, zero, suc, ◌+◌, ◌-◌, ◌≤◌, String, ◌≡◌, refl, sym, ap, ◌∙◌, List, [], ◌∷◌, arith,
}
use server_client_app.Base.Text.{repeat}
use server_client_app.Harness.Suite.{
  Dict, Event, print_event, Suite, pure, ◌>>=◌, emit, print, print_bare,
}
use server_client_app.Harness.Results.{
  test_output_line_size, dotted, print_lines, print_test_results,
}

-- All that was printed, in order, from a history that has the newest event first.
unfoldable pub output : List Event → String
output [] = ""
output (print_event t ∷ es) = output es ++ t
output (_ ∷ es) = output es

-- The line of one test, without its end.
pub result_line : String → String → String
result_line test status = test ++ (dotted test status ++ status)

pub result_lines : Dict → String
result_lines [] = ""
result_lines ((test, status) ∷ rest) = result_line test status ++ "\n" ++ result_lines rest

count-repeat_dot : (n : ℕ) → count (repeat n ".") ≡ n
unfolding repeat
count-repeat_dot zero = refl
count-repeat_dot (suc n) = omega (arith, length-append "." (repeat n "."), count-repeat_dot n)

-- A name and a status that fit make a line of 60 characters.
pub count-result_line :
    (test status : String)
    → count test + count status ≤ test_output_line_size
    → count (result_line test status) ≡ test_output_line_size
unfolding result_line dotted
count-result_line test status h = omega (
  arith,
  length-append test (dotted test status ++ status),
  length-append (dotted test status) status,
  count-repeat_dot (test_output_line_size - count test - count status),
)

output-print_lines :
    (d : Dict) (s : Suite) → output (print_lines d s).1.trace ≡ output s.trace ++ result_lines d
unfolding print_lines print print_bare pure ◌>>=◌ emit output result_lines result_line
output-print_lines [] s = sym (append-nil (output s.trace))
output-print_lines ((test, status) ∷ d) s =
    output-print_lines d (record s {
      trace =
          print_event (status ++ "\n")
          ∷ print_event (dotted test status)
          ∷ print_event test
          ∷ s.trace;
    })
    ∙ simp append_assoc

abbrev pub heading : String
heading = "\nRESULTS\n-------\n"

heading_split : (r : String) → "\n" ++ "RESULTS\n" ++ "-------\n" ++ r ≡ heading ++ r
heading_split r = sym (
    append_assoc "\n" ("RESULTS\n" ++ "-------\n") r
    ∙ ap (λ (t : String). "\n" ++ t) (append_assoc "RESULTS\n" "-------\n" r))

-- print_test_results prints the heading and the lines of the results after what was printed
-- before, and nothing else.
pub output-print_test_results :
    (s : Suite)
    → output (print_test_results s).1.trace ≡ output s.trace ++ heading ++ result_lines s.tests
unfolding print_test_results print print_bare pure ◌>>=◌ emit output
output-print_test_results s =
    output-print_lines s.tests (record s {
      trace = print_event "-------\n" ∷ print_event "RESULTS\n" ∷ print_event "\n" ∷ s.trace;
    })
    ∙ simp append_assoc
        (ap (λ (t : String). output s.trace ++ t) (heading_split (result_lines s.tests)))
