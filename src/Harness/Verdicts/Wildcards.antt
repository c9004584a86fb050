-- ===== src/Harness/Verdicts/Wildcards.antt =====
-- The verdicts of the wildcard tests.
use server_client_app.Base.{List}
use server_client_app.Harness.Topics.{Topic}
use server_client_app.Harness.Process.{Process}
use server_client_app.Harness.Wildcards.{
  run_test_c2_subscribe_plus_wildcard, run_test_c2_subscribe_star_wildcard,
  run_test_c2_subscribe_compound_wildcard, run_test_c2_subscribe_wildcard_set_inclusion,
}
use server_client_app.Harness.Effects.{Quiet-if, Quiet-pure}
use server_client_app.Harness.Effects.Steps.{Quiet-run_udp_client}
use server_client_app.Harness.Effects.Loops.{
  Quiet-check_all, Quiet-check_topic, Quiet-check_silence, Quiet-start_wildcard,
  Quiet-stop_wildcard,
}
use server_client_app.Harness.Effects.Judges.{
  Verdict, Verdict-fail, Judges-pass, Judges-bind, Judges-if, Judges-Quiet,
}

ruleset wildcard_rules = (
  Judges-pass, Judges-bind, Judges-if, Judges-Quiet, Quiet-if, Quiet-pure, Quiet-run_udp_client,
  Quiet-check_all, Quiet-check_topic, Quiet-check_silence, Quiet-start_wildcard,
  Quiet-stop_wildcard,
)

pub plus_wildcard-Verdict :
    (c2 : Process) (topics : List Topic)
    → Verdict "c2_subscribe_plus_wildcard" (run_test_c2_subscribe_plus_wildcard c2 topics)
unfolding run_test_c2_subscribe_plus_wildcard
plus_wildcard-Verdict c2 topics = Verdict-fail _ (search wildcard_rules depth 100 fits 20000)

pub star_wildcard-Verdict :
    (c2 : Process) (topics : List Topic)
    → Verdict "c2_subscribe_star_wildcard" (run_test_c2_subscribe_star_wildcard c2 topics)
unfolding run_test_c2_subscribe_star_wildcard
star_wildcard-Verdict c2 topics = Verdict-fail _ (search wildcard_rules depth 100 fits 20000)

pub compound_wildcard-Verdict :
    (c2 : Process) (topics : List Topic)
    → Verdict "c2_subscribe_compound_wildcard" (run_test_c2_subscribe_compound_wildcard c2 topics)
unfolding run_test_c2_subscribe_compound_wildcard
compound_wildcard-Verdict c2 topics = Verdict-fail _ (search wildcard_rules depth 100 fits 20000)

pub wildcard_set_inclusion-Verdict :
    (c2 : Process) (topics : List Topic)
    → Verdict "c2_subscribe_wildcard_set_inclusion"
        (run_test_c2_subscribe_wildcard_set_inclusion c2 topics)
unfolding run_test_c2_subscribe_wildcard_set_inclusion
wildcard_set_inclusion-Verdict c2 topics =
    Verdict-fail _ (search wildcard_rules depth 100 fits 20000)
