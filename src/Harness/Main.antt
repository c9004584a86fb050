-- ===== src/Harness/Main.antt =====
-- test.py: h2_test, which runs all the tests.
use server_client_app.Base.{true, false, List, if◌then◌else◌, ⊤}
use server_client_app.Harness.Suite.{Run, pure, ◌>>=◌, ◌>>◌}
use server_client_app.Harness.Results.{print_test_results}
use server_client_app.Harness.Topics.{Topic, generate_topics}
use server_client_app.Harness.Process.{Process}
use server_client_app.Harness.Helpers.{make_clean}
use server_client_app.Harness.Basic.{
  run_test_compile, run_test_server_start, run_test_c1_start, run_test_data_unsubscribed,
  run_test_c1_subscribe_all, run_test_data_subscribed, run_test_c1_stop, run_test_c1_restart,
  run_test_data_no_clients, run_test_same_id, run_test_c2_start, run_test_c2_subscribe,
  run_test_c2_stop, run_test_quick_flow, run_test_server_stop,
}
use server_client_app.Harness.Checks.{when}
use server_client_app.Harness.Wildcards.{
  run_test_c2_subscribe_plus_wildcard, run_test_c2_subscribe_star_wildcard,
  run_test_c2_subscribe_compound_wildcard, run_test_c2_subscribe_wildcard_set_inclusion,
}

-- The block under the success of the second subscriber's start.
unfoldable pub run_c2_tests : Process → Process → List Topic → List Topic → Run ⊤
run_c2_tests server c2 topics wildcard_topics = do
  run_test_c2_subscribe c2 topics
  run_test_c2_subscribe_plus_wildcard c2 wildcard_topics
  run_test_c2_subscribe_star_wildcard c2 wildcard_topics
  run_test_c2_subscribe_compound_wildcard c2 wildcard_topics
  run_test_c2_subscribe_wildcard_set_inclusion c2 wildcard_topics
  run_test_c2_stop server c2
  pure tt

-- The block under the success of the first subscriber's restart.
unfoldable pub run_restarted_tests : Process → Process → List Topic → List Topic → Run ⊤
run_restarted_tests server c1 topics wildcard_topics = do
  run_test_data_no_clients c1
  run_test_same_id server
  (c2, success) ← run_test_c2_start server
  when success (run_c2_tests server c2 topics wildcard_topics)

-- The block under the success of the first subscriber's stop; the subscriber is the restarted one from here on.
unfoldable pub run_stopped_tests : Process → List Topic → List Topic → Run Process
run_stopped_tests server topics wildcard_topics = do
  (c1, success) ← run_test_c1_restart server
  when success (run_restarted_tests server c1 topics wildcard_topics)
  pure c1

-- The block under the success of the first subscriber's start.
unfoldable pub run_c1_tests : Process → Process → List Topic → List Topic → Run Process
run_c1_tests server c1 topics wildcard_topics = do
  run_test_data_unsubscribed server c1
  run_test_c1_subscribe_all server c1 topics
  run_test_data_subscribed server c1 topics
  success ← run_test_c1_stop server c1
  c1' ← if success then run_stopped_tests server topics wildcard_topics else pure c1
  run_test_quick_flow c1' topics
  pure c1'

unfoldable pub h2_test : Run ⊤
h2_test = do
  make_clean
  let topics = generate_topics false
  let wildcard_topics = generate_topics true
  run_test_compile
  server ← run_test_server_start
  (c1, success) ← run_test_c1_start server
  c1' ← if success then run_c1_tests server c1 topics wildcard_topics else pure c1
  run_test_server_stop server c1'
  make_clean
  print_test_results
