-- ===== src/Harness/Whole/Tests.antt =====
-- Each test keeps the shape of the results.
use server_client_app.Base.{refl, inl, inr, true, false, List}
use server_client_app.Harness.Topics.{Topic}
use server_client_app.Harness.Process.{Process}
use server_client_app.Harness.Basic.{
  run_test_c1_start, run_test_c1_restart, run_test_c2_start, run_test_quick_flow, run_test_same_id,
  run_test_compile, run_test_server_start, run_test_data_unsubscribed, run_test_c1_subscribe_all,
  run_test_data_subscribed, run_test_c1_stop, run_test_data_no_clients, run_test_c2_subscribe,
  run_test_c2_stop, run_test_server_stop,
}
use server_client_app.Harness.Wildcards.{
  run_test_c2_subscribe_plus_wildcard, run_test_c2_subscribe_star_wildcard,
  run_test_c2_subscribe_compound_wildcard, run_test_c2_subscribe_wildcard_set_inclusion,
}
use server_client_app.Harness.Effects.Loops.{loop_rules}
use server_client_app.Harness.Effects.Tidy.{
  KeepsTidy, KeepsTidy-Verdict, KeepsTidy-bind, tidy_rules, insert_key, Tidy-assign, failed, passed,
}
use server_client_app.Harness.Verdicts.{
  start-Verdict, same_id-Verdict, compile-Verdict, server_start-Verdict, data_unsubscribed-Verdict,
  c1_subscribe_all-Verdict, data_subscribed-Verdict, c1_stop-Verdict, data_no_clients-Verdict,
  c2_subscribe-Verdict, c2_stop-Verdict, server_stop-Verdict,
}
use server_client_app.Harness.Verdicts.Wildcards.{
  plus_wildcard-Verdict, star_wildcard-Verdict, compound_wildcard-Verdict,
  wildcard_set_inclusion-Verdict,
}
use server_client_app.Harness.Verdicts.Flow.{quick_flow-marks}

pub same_id-KeepsTidy : (server : Process) → KeepsTidy (run_test_same_id server)
unfolding insert_key
same_id-KeepsTidy server = KeepsTidy-Verdict _ refl (same_id-Verdict server)

pub compile-KeepsTidy : KeepsTidy run_test_compile
unfolding insert_key
compile-KeepsTidy = KeepsTidy-Verdict _ refl compile-Verdict

pub server_start-KeepsTidy : KeepsTidy run_test_server_start
unfolding insert_key
server_start-KeepsTidy = KeepsTidy-Verdict _ refl server_start-Verdict

pub data_unsubscribed-KeepsTidy :
    (server : Process) (c1 : Process) → KeepsTidy (run_test_data_unsubscribed server c1)
unfolding insert_key
data_unsubscribed-KeepsTidy server c1 =
    KeepsTidy-Verdict _ refl (data_unsubscribed-Verdict server c1)

pub c1_subscribe_all-KeepsTidy :
    (server : Process) (c1 : Process) (topics : List Topic)
    → KeepsTidy (run_test_c1_subscribe_all server c1 topics)
unfolding insert_key
c1_subscribe_all-KeepsTidy server c1 topics =
    KeepsTidy-Verdict _ refl (c1_subscribe_all-Verdict server c1 topics)

pub data_subscribed-KeepsTidy :
    (server : Process) (c1 : Process) (topics : List Topic)
    → KeepsTidy (run_test_data_subscribed server c1 topics)
unfolding insert_key
data_subscribed-KeepsTidy server c1 topics =
    KeepsTidy-Verdict _ refl (data_subscribed-Verdict server c1 topics)

pub c1_stop-KeepsTidy : (server : Process) (c1 : Process) → KeepsTidy (run_test_c1_stop server c1)
unfolding insert_key
c1_stop-KeepsTidy server c1 = KeepsTidy-Verdict _ refl (c1_stop-Verdict server c1)

pub data_no_clients-KeepsTidy : (c1 : Process) → KeepsTidy (run_test_data_no_clients c1)
unfolding insert_key
data_no_clients-KeepsTidy c1 = KeepsTidy-Verdict _ refl (data_no_clients-Verdict c1)

pub c2_subscribe-KeepsTidy :
    (c2 : Process) (topics : List Topic) → KeepsTidy (run_test_c2_subscribe c2 topics)
unfolding insert_key
c2_subscribe-KeepsTidy c2 topics = KeepsTidy-Verdict _ refl (c2_subscribe-Verdict c2 topics)

pub c2_stop-KeepsTidy : (server : Process) (c2 : Process) → KeepsTidy (run_test_c2_stop server c2)
unfolding insert_key
c2_stop-KeepsTidy server c2 = KeepsTidy-Verdict _ refl (c2_stop-Verdict server c2)

pub server_stop-KeepsTidy :
    (server : Process) (c1 : Process) → KeepsTidy (run_test_server_stop server c1)
unfolding insert_key
server_stop-KeepsTidy server c1 = KeepsTidy-Verdict _ refl (server_stop-Verdict server c1)

pub plus_wildcard-KeepsTidy :
    (c2 : Process) (topics : List Topic) → KeepsTidy (run_test_c2_subscribe_plus_wildcard c2 topics)
unfolding insert_key
plus_wildcard-KeepsTidy c2 topics = KeepsTidy-Verdict _ refl (plus_wildcard-Verdict c2 topics)

pub star_wildcard-KeepsTidy :
    (c2 : Process) (topics : List Topic) → KeepsTidy (run_test_c2_subscribe_star_wildcard c2 topics)
unfolding insert_key
star_wildcard-KeepsTidy c2 topics = KeepsTidy-Verdict _ refl (star_wildcard-Verdict c2 topics)

pub compound_wildcard-KeepsTidy :
    (c2 : Process) (topics : List Topic)
    → KeepsTidy (run_test_c2_subscribe_compound_wildcard c2 topics)
unfolding insert_key
compound_wildcard-KeepsTidy c2 topics =
    KeepsTidy-Verdict _ refl (compound_wildcard-Verdict c2 topics)

pub wildcard_set_inclusion-KeepsTidy :
    (c2 : Process) (topics : List Topic)
    → KeepsTidy (run_test_c2_subscribe_wildcard_set_inclusion c2 topics)
unfolding insert_key
wildcard_set_inclusion-KeepsTidy c2 topics =
    KeepsTidy-Verdict _ refl (wildcard_set_inclusion-Verdict c2 topics)

pub quick_flow-KeepsTidy :
    (c1 : Process) (topics : List Topic) → KeepsTidy (run_test_quick_flow c1 topics)
unfolding insert_key
quick_flow-KeepsTidy c1 topics = record {
  at = λ s h. elim (quick_flow-marks c1 topics s) [
    | inl e ↦ rw e (Tidy-assign "quick_flow" "failed" s.tests refl (failed refl) h)
    | inr e ↦ rw e (Tidy-assign "quick_flow" "passed" s.tests refl (passed refl) h)
  ];
}

pub c1_start-KeepsTidy : (server : Process) → KeepsTidy (run_test_c1_start server)
unfolding run_test_c1_start insert_key
c1_start-KeepsTidy server = KeepsTidy-Verdict _ refl (start-Verdict server "1" false)

pub c2_start-KeepsTidy : (server : Process) → KeepsTidy (run_test_c2_start server)
unfolding run_test_c2_start insert_key
c2_start-KeepsTidy server = KeepsTidy-Verdict _ refl (start-Verdict server "2" false)

pub c1_restart-KeepsTidy : (server : Process) → KeepsTidy (run_test_c1_restart server)
unfolding run_test_c1_restart insert_key
c1_restart-KeepsTidy server = KeepsTidy-bind _ _ (search (tidy_rules, loop_rules)) λ _.
    KeepsTidy-bind _ _ (search (tidy_rules, loop_rules)) λ _.
      KeepsTidy-bind _ _ (search (tidy_rules, loop_rules))
        λ _. KeepsTidy-Verdict _ refl (start-Verdict server "1" true)

pub ruleset tidy_tests = (
  tidy_rules, loop_rules, quick_flow-KeepsTidy, c1_start-KeepsTidy, c2_start-KeepsTidy,
  c1_restart-KeepsTidy, compile-KeepsTidy, same_id-KeepsTidy, server_start-KeepsTidy,
  data_unsubscribed-KeepsTidy, c1_subscribe_all-KeepsTidy, data_subscribed-KeepsTidy,
  c1_stop-KeepsTidy, data_no_clients-KeepsTidy, c2_subscribe-KeepsTidy, c2_stop-KeepsTidy,
  server_stop-KeepsTidy, plus_wildcard-KeepsTidy, star_wildcard-KeepsTidy,
  compound_wildcard-KeepsTidy, wildcard_set_inclusion-KeepsTidy,
)
