-- ===== src/Harness/Verdicts.antt =====
-- test.py: every test marks itself, and nothing but itself.
pub mod Flow
pub mod Wildcards
pub mod Every
pub mod Flags
pub mod Heard
pub mod Rounds
use server_client_app.Base.{ℕ, zero, suc, String, Bool, true, false, List, [], ◌∷◌, if◌then◌else◌}
use server_client_app.Harness.Suite.{Dict, Run, pure, ◌>>=◌, ◌>>◌}
use server_client_app.Harness.Results.{print_lines, print_test_results, pass_test, fail_test}
use server_client_app.Harness.Topics.{Topic}
use server_client_app.Harness.Process.{Process}
use server_client_app.Harness.Helpers.{exit_if_condition}
use server_client_app.Harness.Checks.{start_and_check_client, start_test}
use server_client_app.Harness.Basic.{
  subscribe_all, check_all, run_test_compile, run_test_server_start, run_test_data_unsubscribed,
  run_test_c1_subscribe_all, run_test_data_subscribed, run_test_c1_stop, run_test_data_no_clients,
  run_test_same_id, run_test_c2_subscribe, run_test_c2_stop, run_test_server_stop,
}
use server_client_app.Harness.Effects.{Quiet, Quiet-bind}
use server_client_app.Harness.Effects.Loops.{loop_rules}
use server_client_app.Harness.Effects.Judges.{Judges, Verdict, Verdict-fail, judge_rules}

pub start-Verdict :
    (server : Process) (id : String) (restart : Bool)
    → Verdict (start_test id restart) (start_and_check_client server id restart true)
unfolding start_and_check_client
start-Verdict server id restart = Verdict-fail _ (search (judge_rules, loop_rules) depth 40)

pub same_id-Verdict : (server : Process) → Verdict "same_id" (run_test_same_id server)
unfolding run_test_same_id
same_id-Verdict server = Verdict-fail _ (search (judge_rules, loop_rules) depth 40)

pub compile-Verdict : Verdict "compile" run_test_compile
unfolding run_test_compile
compile-Verdict = Verdict-fail _ (search (judge_rules, loop_rules) depth 40)

pub server_start-Verdict : Verdict "server_start" run_test_server_start
unfolding run_test_server_start
server_start-Verdict = Verdict-fail _ (search (judge_rules, loop_rules) depth 40)

pub data_unsubscribed-Verdict :
    (server : Process) (c1 : Process)
    → Verdict "data_unsubscribed" (run_test_data_unsubscribed server c1)
unfolding run_test_data_unsubscribed
data_unsubscribed-Verdict server c1 = Verdict-fail _ (search (judge_rules, loop_rules) depth 40)

pub c1_subscribe_all-Verdict :
    (server : Process) (c1 : Process) (topics : List Topic)
    → Verdict "c1_subscribe_all" (run_test_c1_subscribe_all server c1 topics)
unfolding run_test_c1_subscribe_all
c1_subscribe_all-Verdict server c1 topics =
    Verdict-fail _ (search (judge_rules, loop_rules) depth 40)

pub data_subscribed-Verdict :
    (server : Process) (c1 : Process) (topics : List Topic)
    → Verdict "data_subscribed" (run_test_data_subscribed server c1 topics)
unfolding run_test_data_subscribed
data_subscribed-Verdict server c1 topics =
    Verdict-fail _ (search (judge_rules, loop_rules) depth 40)

pub c1_stop-Verdict :
    (server : Process) (c1 : Process) → Verdict "c1_stop" (run_test_c1_stop server c1)
unfolding run_test_c1_stop
c1_stop-Verdict server c1 = Verdict-fail _ (search (judge_rules, loop_rules) depth 40)

pub data_no_clients-Verdict :
    (c1 : Process) → Verdict "data_no_clients" (run_test_data_no_clients c1)
unfolding run_test_data_no_clients
data_no_clients-Verdict c1 = Verdict-fail _ (search (judge_rules, loop_rules) depth 40)

pub c2_subscribe-Verdict :
    (c2 : Process) (topics : List Topic) → Verdict "c2_subscribe" (run_test_c2_subscribe c2 topics)
unfolding run_test_c2_subscribe
c2_subscribe-Verdict c2 topics = Verdict-fail _ (search (judge_rules, loop_rules) depth 40)

pub c2_stop-Verdict :
    (server : Process) (c2 : Process) → Verdict "c2_stop" (run_test_c2_stop server c2)
unfolding run_test_c2_stop
c2_stop-Verdict server c2 = Verdict-fail _ (search (judge_rules, loop_rules) depth 40)

pub server_stop-Verdict :
    (server : Process) (c1 : Process) → Verdict "server_stop" (run_test_server_stop server c1)
unfolding run_test_server_stop
server_stop-Verdict server c1 = Verdict-fail _ (search (judge_rules, loop_rules) depth 40)
