-- ===== src/Harness/Samples.antt =====
-- test.py on small concrete environments.
use server_client_app.Base.{
  List, String, ◌≡◌, refl, true, [], ℕ, false, ◌∷◌, ◌⊎◌, length, All, ⊤, ok, some,
}
use server_client_app.Harness.Suite.{
  Env, Suite, handle_timeout, except_timeout, finally, attempt, ◌>>=◌, ◌>>◌, emit, do_call,
  ask_text, ask_flag, ask_handle, print, print_bare, sleep,
}
use server_client_app.Harness.Results.{
  initial_tests, lookup, assign, pass_test, fail_test, dotted, print_lines, report,
  print_test_results,
}
use server_client_app.Harness.Process.{
  Process, finish, new_process, timeout, recover_start, start, send_input, get_output_timeout,
  is_alive,
}
use server_client_app.Harness.Helpers.{make_target, make_clean, exit_if_condition}
use server_client_app.Harness.Checks.{
  run_udp_client, run_udp_all, read_lines, run_udp_client_default, check_subscriber_output,
  start_and_check_client, check_subscriber_stop,
}
use server_client_app.Harness.Basic.{
  check_all, run_test_compile, run_test_server_start, run_test_c1_start, run_test_server_stop,
  run_test_data_unsubscribed, run_test_c1_subscribe_all, run_test_data_subscribed, run_test_c1_stop,
  run_test_data_no_clients, run_test_same_id, run_test_c2_start, run_test_c2_subscribe,
  run_test_c2_stop, run_test_quick_flow,
}
use server_client_app.Harness.Main.{h2_test}
use server_client_app.Harness.Effects.Tidy.{Tidy, initial-Tidy}
use server_client_app.Harness.Whole.Report.{IsLine, h2_test-Tidy, h2_test-report}
use server_client_app.Harness.Results.Lookup.{keys}
use server_client_app.Harness.Results.Printing.{
  output, heading, result_lines, output-print_test_results,
}
use Prim.Native.String.{◌++◌}
use server_client_app.Base.Text.{split}
use server_client_app.Harness.Helpers.{get_procfs_values, item, set_procfs_values}
use server_client_app.Harness.Basic.{flow_checks}
use server_client_app.Harness.Verdicts.Rounds.{times, sending, quick_flow-Heard}
use server_client_app.Harness.Verdicts.Heard.{Heard, data_subscribed-Heard}
use server_client_app.Base.Text.{rstrip}
use server_client_app.Harness.Verdicts.Flags.{start_and_check_client-flag, c1_stop-flag}
use server_client_app.Harness.Topics.{Topic, topic, show, generate_topics}
use server_client_app.Harness.Effects.Judges.{Verdict}
use server_client_app.Harness.Verdicts.Every.{every_test-Verdict}
use server_client_app.Harness.Verdicts.Flow.{quick_flow-marks}
use server_client_app.Harness.Wildcards.{
  run_test_c2_subscribe_plus_wildcard, run_test_c2_subscribe_star_wildcard,
  run_test_c2_subscribe_compound_wildcard, run_test_c2_subscribe_wildcard_set_inclusion,
}

-- Every call returns; no process prints anything, and all of them stay alive.
abbrev mute : Env
mute = record {
  acks = λ es. ok tt;
  texts = λ es. ok "";
  flags = λ es. ok true;
  handles = λ es. ok (length es);
}

abbrev begin : Env → Suite
begin env = record { tests = initial_tests; trace = []; env = env }

-- What a run computes with.
runs : ⊤
unfolding h2_test make_clean do_call ◌>>=◌ run_test_compile fail_test print emit make_target
    ask_flag exit_if_condition pass_test run_test_server_start start attempt ask_handle
    recover_start sleep is_alive run_test_c1_start start_and_check_client get_output_timeout timeout
    except_timeout finally ask_text handle_timeout run_test_server_stop send_input
    print_test_results report print_lines print_bare lookup assign dotted
runs = tt

-- The server never greets the first subscriber, so only the last test runs, and the server does not stop.
mute_run : (h2_test (begin mute)).0 ≡ ok tt
unfolding runs
mute_run = refl

mute_server_stop : lookup "server_stop" (h2_test (begin mute)).1.tests ≡ some "failed"
unfolding runs
mute_server_stop = refl

h2_test-report_example :
    (before : String) × (output (h2_test (begin mute)).1.trace
      ≡ before ++ heading ++ result_lines (h2_test (begin mute)).1.tests)
    × (keys (h2_test (begin mute)).1.tests ≡ keys initial_tests)
    × All IsLine (h2_test (begin mute)).1.tests
h2_test-report_example = h2_test-report (begin mute) initial-Tidy mute_run

h2_test-Tidy_example : Tidy (h2_test (begin mute)).1.tests
h2_test-Tidy_example = h2_test-Tidy (begin mute) initial-Tidy

abbrev started : ℕ → Process
started pid = record (new_process ("./subscriber" ∷ []) "") { started = true; proc = pid }

every_test-Verdict_example :
    Verdict "compile" run_test_compile
    × Verdict "server_start" run_test_server_start
    × Verdict "c1_start" (run_test_c1_start (started 0))
    × Verdict "data_unsubscribed" (run_test_data_unsubscribed (started 0) (started 1))
    × Verdict "c1_subscribe_all"
        (run_test_c1_subscribe_all (started 0) (started 1) (generate_topics false))
    × Verdict "data_subscribed"
        (run_test_data_subscribed (started 0) (started 1) (generate_topics false))
    × Verdict "c1_stop" (run_test_c1_stop (started 0) (started 1))
    × Verdict "data_no_clients" (run_test_data_no_clients (started 1))
    × Verdict "same_id" (run_test_same_id (started 0))
    × Verdict "c2_start" (run_test_c2_start (started 0))
    × Verdict "c2_subscribe" (run_test_c2_subscribe (started 2) (generate_topics false))
    × Verdict "c2_stop" (run_test_c2_stop (started 0) (started 2))
    × Verdict "server_stop" (run_test_server_stop (started 0) (started 1))
    × Verdict "c2_subscribe_plus_wildcard"
        (run_test_c2_subscribe_plus_wildcard (started 2) (generate_topics true))
    × Verdict "c2_subscribe_star_wildcard"
        (run_test_c2_subscribe_star_wildcard (started 2) (generate_topics true))
    × Verdict "c2_subscribe_compound_wildcard"
        (run_test_c2_subscribe_compound_wildcard (started 2) (generate_topics true))
    × Verdict "c2_subscribe_wildcard_set_inclusion"
        (run_test_c2_subscribe_wildcard_set_inclusion (started 2) (generate_topics true))
every_test-Verdict_example =
    every_test-Verdict (started 0) (started 1) (started 2) (generate_topics false)
      (generate_topics true)

quick_flow-marks_sample :
    let s' = (run_test_quick_flow (started 1) (generate_topics false) (begin mute)).1 in
    (s'.tests ≡ assign "quick_flow" "failed" initial_tests)
    ⊎ (s'.tests ≡ assign "quick_flow" "passed" initial_tests)
quick_flow-marks_sample = quick_flow-marks (started 1) (generate_topics false) (begin mute)

output-print_test_results_sample :
    output (print_test_results (begin mute)).1.trace ≡ "" ++ heading ++ result_lines initial_tests
unfolding output
output-print_test_results_sample = output-print_test_results (begin mute)

-- The server greets the client, which is up.
abbrev greeting : Env
greeting = record mute { texts = λ es. ok "New client C1 connected from 127.0.0.1:4001.\n" }

abbrev greeted : Process
greeted = record (new_process ("./subscriber" ∷ "C1" ∷ "127.0.0.1" ∷ "12345" ∷ []) "") {
  started = true;
  proc = 2;
}

greeted_run :
    (start_and_check_client (started 0) "1" false true (begin greeting)).0 ≡ ok (greeted, true)
unfolding runs
greeted_run = refl

start_and_check_client-flag_example :
    (start_and_check_client (started 0) "1" false true (begin greeting)).1.tests
    ≡ assign "c1_start" "passed" initial_tests
start_and_check_client-flag_example =
    start_and_check_client-flag (started 0) greeted "1" false true (begin greeting) greeted_run

refused_run : (run_test_c1_stop (started 0) (started 1) (begin mute)).0 ≡ ok false
unfolding runs run_test_c1_stop check_subscriber_stop rstrip
refused_run = refl

c1_stop-flag_sample :
    (run_test_c1_stop (started 0) (started 1) (begin mute)).1.tests
    ≡ assign "c1_stop" "failed" initial_tests
c1_stop-flag_sample = c1_stop-flag (started 0) (started 1) false (begin mute) refused_run

-- Every line that is read is the one of the topic.
abbrev forwarding : Env
forwarding = record mute { texts = λ es. ok "10.0.0.1:4000 - a_value - INT - 10\n" }

abbrev one_topic : List Topic
one_topic = topic "a_value" "INT" "10" ∷ []

forwarded :
    lookup "data_subscribed"
      (run_test_data_subscribed (started 0) (started 1) one_topic (begin forwarding)).1.tests
    ≡ some "passed"
unfolding runs run_test_data_subscribed run_udp_client run_udp_all read_lines finish check_all
    check_subscriber_output show
forwarded = refl

data_subscribed-Heard_example :
    let sending =
      fail_test "data_subscribed"
      >> print "Generating one message for each topic"
      >> run_udp_client_default in
    Heard (started 1) one_topic (sending (begin forwarding)).1
data_subscribed-Heard_example =
    data_subscribed-Heard (started 0) (started 1) one_topic (begin forwarding) forwarded

flow_passed :
    lookup "quick_flow" (run_test_quick_flow (started 1) one_topic (begin forwarding)).1.tests
    ≡ some "passed"
unfolding runs run_test_quick_flow flow_checks get_procfs_values split item set_procfs_values
    run_udp_client finish check_subscriber_output show
flow_passed = refl

quick_flow-Heard_example :
    (rmem wmem : List String) × (t : Suite) × (run_test_quick_flow
        (started 1)
        one_topic
        (begin forwarding)
      ≡ flow_checks (started 1) one_topic rmem wmem t)
    × Heard (started 1) (times 30 one_topic) (sending t).1
quick_flow-Heard_example = quick_flow-Heard (started 1) one_topic (begin forwarding) flow_passed
