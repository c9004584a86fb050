-- ===== src/Harness/Verdicts/Every.antt =====
-- The verdicts of all the tests of h2_test that write their mark last.
use server_client_app.Base.{false, List}
use server_client_app.Harness.Topics.{Topic}
use server_client_app.Harness.Process.{Process}
use server_client_app.Harness.Basic.{
  run_test_compile, run_test_server_start, run_test_c1_start, run_test_data_unsubscribed,
  run_test_c1_subscribe_all, run_test_data_subscribed, run_test_c1_stop, run_test_data_no_clients,
  run_test_same_id, run_test_c2_start, run_test_c2_subscribe, run_test_c2_stop,
  run_test_server_stop,
}
use server_client_app.Harness.Wildcards.{
  run_test_c2_subscribe_plus_wildcard, run_test_c2_subscribe_star_wildcard,
  run_test_c2_subscribe_compound_wildcard, run_test_c2_subscribe_wildcard_set_inclusion,
}
use server_client_app.Harness.Effects.Judges.{Verdict}
use server_client_app.Harness.Verdicts.{
  start-Verdict, same_id-Verdict, compile-Verdict, server_start-Verdict, data_unsubscribed-Verdict,
  c1_subscribe_all-Verdict, data_subscribed-Verdict, c1_stop-Verdict, data_no_clients-Verdict,
  c2_subscribe-Verdict, c2_stop-Verdict, server_stop-Verdict,
}
use server_client_app.Harness.Verdicts.Wildcards.{
  plus_wildcard-Verdict, star_wildcard-Verdict, compound_wildcard-Verdict,
  wildcard_set_inclusion-Verdict,
}

c1_start-Verdict : (server : Process) → Verdict "c1_start" (run_test_c1_start server)
unfolding run_test_c1_start
c1_start-Verdict server = start-Verdict server "1" false

c2_start-Verdict : (server : Process) → Verdict "c2_start" (run_test_c2_start server)
unfolding run_test_c2_start
c2_start-Verdict server = start-Verdict server "2" false

-- Each of seventeen tests marks itself, and writes no other mark: "failed", or "passed", and
-- then it returns. In particular a test that raises is marked as failed. This holds whatever
-- the processes answer.
pub every_test-Verdict :
    (server c1 c2 : Process) (topics wildcard_topics : List Topic)
    → Verdict "compile" run_test_compile
      × Verdict "server_start" run_test_server_start
      × Verdict "c1_start" (run_test_c1_start server)
      × Verdict "data_unsubscribed" (run_test_data_unsubscribed server c1)
      × Verdict "c1_subscribe_all" (run_test_c1_subscribe_all server c1 topics)
      × Verdict "data_subscribed" (run_test_data_subscribed server c1 topics)
      × Verdict "c1_stop" (run_test_c1_stop server c1)
      × Verdict "data_no_clients" (run_test_data_no_clients c1)
      × Verdict "same_id" (run_test_same_id server)
      × Verdict "c2_start" (run_test_c2_start server)
      × Verdict "c2_subscribe" (run_test_c2_subscribe c2 topics)
      × Verdict "c2_stop" (run_test_c2_stop server c2)
      × Verdict "server_stop" (run_test_server_stop server c1)
      × Verdict "c2_subscribe_plus_wildcard"
          (run_test_c2_subscribe_plus_wildcard c2 wildcard_topics)
      × Verdict "c2_subscribe_star_wildcard"
          (run_test_c2_subscribe_star_wildcard c2 wildcard_topics)
      × Verdict "c2_subscribe_compound_wildcard"
          (run_test_c2_subscribe_compound_wildcard c2 wildcard_topics)
      × Verdict "c2_subscribe_wildcard_set_inclusion"
          (run_test_c2_subscribe_wildcard_set_inclusion c2 wildcard_topics)
every_test-Verdict server c1 c2 topics wildcard_topics = (
  compile-Verdict,
  server_start-Verdict,
  c1_start-Verdict server,
  data_unsubscribed-Verdict server c1,
  c1_subscribe_all-Verdict server c1 topics,
  data_subscribed-Verdict server c1 topics,
  c1_stop-Verdict server c1,
  data_no_clients-Verdict c1,
  same_id-Verdict server,
  c2_start-Verdict server,
  c2_subscribe-Verdict c2 topics,
  c2_stop-Verdict server c2,
  server_stop-Verdict server c1,
  plus_wildcard-Verdict c2 wildcard_topics,
  star_wildcard-Verdict c2 wildcard_topics,
  compound_wildcard-Verdict c2 wildcard_topics,
  wildcard_set_inclusion-Verdict c2 wildcard_topics,
)
