-- ===== src/Harness/Results.antt =====
-- test.py: the dictionary of the tests' results, and its printing.
pub mod Lookup
pub mod Printing
use Prim.Native.String.{count}
use text.Mathlib.Text.{◌==◌}
use server_client_app.Base.{ℕ, ◌-◌, String, Option, none, some, [], ◌∷◌, if◌then◌else◌, ⊤, ok}
use server_client_app.Base.Text.{repeat}
use server_client_app.Harness.Suite.{Dict, Run, pure, ◌>>◌, print, print_bare}

abbrev pub test_output_line_size : ℕ
test_output_line_size = 60

-- The dictionary at the start of the script.
abbrev pub initial_tests : Dict
initial_tests =
    ("compile", "not executed")
    ∷ ("server_start", "not executed")
    ∷ ("c1_start", "not executed")
    ∷ ("data_unsubscribed", "not executed")
    ∷ ("c1_subscribe_all", "not executed")
    ∷ ("data_subscribed", "not executed")
    ∷ ("c1_stop", "not executed")
    ∷ ("c1_restart", "not executed")
    ∷ ("data_no_clients", "not executed")
    ∷ ("same_id", "not executed")
    ∷ ("c2_start", "not executed")
    ∷ ("c2_subscribe", "not executed")
    ∷ ("c2_stop", "skipped")
    ∷ ("c2_subscribe_plus_wildcard", "not executed")
    ∷ ("c2_subscribe_star_wildcard", "not executed")
    ∷ ("c2_subscribe_compound_wildcard", "not executed")
    ∷ ("c2_subscribe_wildcard_set_inclusion", "not executed")
    ∷ ("quick_flow", "not executed")
    ∷ ("server_stop", "not executed")
    ∷ []

-- tests.get(key)
unfoldable pub lookup : String → Dict → Option String
lookup key [] = none
lookup key ((k, v) ∷ rest) = if k == key then some v else lookup key rest

-- tests[key] = value: in place, or at the end for a new key.
unfoldable pub assign : String → String → Dict → Dict
assign key value [] = (key, value) ∷ []
assign key value ((k, v) ∷ rest) =
    if k == key then (k, value) ∷ rest else (k, v) ∷ assign key value rest

set_status : String → String → Run ⊤
unfolding assign
set_status test status s = (ok tt, record s { tests = assign test status s.tests })

unfoldable pub pass_test : String → Run ⊤
unfolding set_status
pass_test test = set_status test "passed"

unfoldable pub fail_test : String → Run ⊤
unfolding set_status
fail_test test = set_status test "failed"

-- '.' * dots is empty for a negative number, as the difference here.
unfoldable pub dotted : String → String → String
unfolding repeat
dotted test status = repeat (test_output_line_size - count test - count status) "."

unfoldable pub print_lines : Dict → Run ⊤
print_lines [] = pure tt
print_lines ((test, status) ∷ rest) = do
  print_bare test
  print_bare (dotted test status)
  print status
  print_lines rest

unfoldable pub report : Dict → Run ⊤
unfolding print_lines
report tests = do print ""; print "RESULTS"; print "-------"; print_lines tests

unfoldable pub print_test_results : Run ⊤
unfolding report
print_test_results s = report s.tests s
