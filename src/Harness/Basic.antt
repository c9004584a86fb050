-- ===== src/Harness/Basic.antt =====
-- test.py: the tests but those of wildcards.
use Prim.Native.String.{◌++◌}
use text.Mathlib.Text.{starts_with, ◌==◌}
use server_client_app.Base.{
  ℕ, zero, suc, String, Bool, true, false, not, ◌&&◌, ◌||◌, List, [], ◌∷◌, if◌then◌else◌, ⊤,
}
use server_client_app.Base.Text.{rstrip}
use server_client_app.Harness.Suite.{Run, pure, ◌>>=◌, ◌>>◌, print, sleep}
use server_client_app.Harness.Results.{pass_test, fail_test}
use server_client_app.Harness.Topics.{Topic, show}
use server_client_app.Harness.Process.{
  Process, new_process, start, send_input, get_output_timeout, is_alive,
}
use server_client_app.Harness.Helpers.{
  make_target, exit_if_condition, get_procfs_values, set_procfs_values, item,
}
use server_client_app.Harness.Checks.{
  port, ip, when, then_and, run_udp_client_default, start_and_check_client, check_subscriber_output,
  check_subscriber_stop,
}

-- if condition: return, and then the rest
abbrev pub unless : Bool → Run ⊤ → Run ⊤
unless condition rest = if condition then pure tt else rest

unfoldable pub run_test_compile : Run ⊤
run_test_compile = do
  fail_test "compile"
  print "Compiling"
  server ← make_target "server"
  exit_if_condition (not server) "Error: server could not be built"
  subscriber ← make_target "subscriber"
  exit_if_condition (not subscriber) "Error: subscriber could not be built"
  pass_test "compile"

unfoldable pub run_test_server_start : Run Process
run_test_server_start = do
  fail_test "server_start"
  print "Starting the server"
  server ← start (new_process ("./server" ∷ port ∷ []) "")
  sleep 1
  alive ← is_alive server
  exit_if_condition (not alive) "Error: server is not up"
  pass_test "server_start"
  pure server

unfoldable pub run_test_c1_start : Process → Run (Process × Bool)
run_test_c1_start server = start_and_check_client server "1" false true

unfoldable pub run_test_data_unsubscribed : Process → Process → Run ⊤
run_test_data_unsubscribed server c1 = do
  fail_test "data_unsubscribed"
  print "Generating one message for each topic"
  run_udp_client_default
  outs ← get_output_timeout server 1
  outc1 ← get_output_timeout c1 1
  let server_prints = not (outs == "timeout")
  when server_prints (print ("Error: server printing [" ++ rstrip outs ++ "]"))
  let c1_prints = not (outc1 == "timeout")
  when c1_prints (print ("Error: C1 printing [" ++ rstrip outc1 ++ "]"))
  let failed = server_prints || c1_prints
  when (not failed) (pass_test "data_unsubscribed")

-- The loop of run_test_c1_subscribe_all, which stops at the first failure; true if there was one.
unfoldable pub subscribe_all : Process → List Topic → Run Bool
subscribe_all c1 [] = pure false
subscribe_all c1 (topic ∷ topics) = do
  send_input c1 ("subscribe " ++ topic.name)
  outc1 ← get_output_timeout c1 1
  if not (starts_with outc1 "Subscribed to topic")
      then (do print "Error: C1 not subscribed to all topics"; pure true)
      else subscribe_all c1 topics

unfoldable pub run_test_c1_subscribe_all : Process → Process → List Topic → Run ⊤
unfolding subscribe_all
run_test_c1_subscribe_all server c1 topics = do
  fail_test "c1_subscribe_all"
  print "Subscribing C1 to all topics"
  failed ← subscribe_all c1 topics
  when (not failed) (pass_test "c1_subscribe_all")

-- for topic in topics: success = check_subscriber_output(c, id, topic.print()) and success
unfoldable pub check_all : Process → String → List Topic → Bool → Run Bool
check_all c id [] success = pure success
check_all c id (topic ∷ topics) success = do
  success' ← then_and (check_subscriber_output c id (show topic)) success
  check_all c id topics success'

unfoldable pub run_test_data_subscribed : Process → Process → List Topic → Run ⊤
run_test_data_subscribed server c1 topics = do
  fail_test "data_subscribed"
  print "Generating one message for each topic"
  run_udp_client_default
  success ← check_all c1 "1" topics true
  when success (pass_test "data_subscribed")

unfoldable pub run_test_c1_stop : Process → Process → Run Bool
run_test_c1_stop server c1 = do
  fail_test "c1_stop"
  stopped ← check_subscriber_stop server c1 "1"
  if stopped then pass_test "c1_stop" >> pure true else pure false

unfoldable pub run_test_c1_restart : Process → Run (Process × Bool)
run_test_c1_restart server = do
  print "Generating one message for each topic"
  run_udp_client_default
  sleep 1
  start_and_check_client server "1" true true

unfoldable pub run_test_data_no_clients : Process → Run ⊤
run_test_data_no_clients c1 = do
  fail_test "data_no_clients"
  outc1 ← get_output_timeout c1 1
  when (outc1 == "timeout") (pass_test "data_no_clients")

unfoldable pub run_test_same_id : Process → Run ⊤
run_test_same_id server = do
  fail_test "same_id"
  print "Starting another subscriber with ID C1"
  c1bis ← start (new_process ("./subscriber" ∷ "C1" ∷ ip ∷ port ∷ []) "")
  sleep 1
  outs ← get_output_timeout server 2
  alive ← is_alive c1bis
  when alive (print "Error: second subscriber C1 is up")
  let refused = starts_with outs "Client C1 already connected."
  when (not refused) (print "Error: server did not print that C1 is already connected")
  let success = not alive && refused
  when success (pass_test "same_id")

unfoldable pub run_test_c2_start : Process → Run (Process × Bool)
run_test_c2_start server = start_and_check_client server "2" false true

unfoldable pub run_test_c2_subscribe : Process → List Topic → Run ⊤
run_test_c2_subscribe c2 topics = do
  fail_test "c2_subscribe"
  topic ← item topics 0
  print ("Subscribing C2 to topic " ++ topic.name)
  send_input c2 ("subscribe " ++ topic.name)
  outc2 ← get_output_timeout c2 1
  if not (starts_with outc2 "Subscribed to topic")
      then print ("Error: C2 not subscribed to topic " ++ topic.name)
      else pass_test "c2_subscribe"

unfoldable pub run_test_c2_stop : Process → Process → Run Bool
run_test_c2_stop server c2 = do
  fail_test "c2_stop"
  stopped ← check_subscriber_stop server c2 "2"
  if stopped then pass_test "c2_stop" >> pure true else pure false

-- for i in range(rounds): m
unfoldable pub send_rounds : ℕ → Run ⊤
send_rounds zero = pure tt
send_rounds (suc rounds) = run_udp_client_default >> send_rounds rounds

unfoldable pub check_rounds : ℕ → Process → List Topic → Bool → Run Bool
unfolding check_all
check_rounds zero c1 topics success = pure success
check_rounds (suc rounds) c1 topics success = do
  success' ← check_all c1 "1" topics success
  check_rounds rounds c1 topics success'

abbrev tiny : List String
tiny = "5" ∷ "5" ∷ "5" ∷ []

-- What run_test_quick_flow does once the buffers are tiny.
unfoldable pub flow_checks : Process → List Topic → List String → List String → Run ⊤
unfolding send_rounds check_rounds
flow_checks c1 topics rmem wmem = do
  print "Generating one message for each topic 30 times in a row"
  send_rounds 30
  success ← check_rounds 30 c1 topics true
  when success (pass_test "quick_flow")
  set_procfs_values true rmem
  set_procfs_values false wmem
  pure tt

unfoldable pub run_test_quick_flow : Process → List Topic → Run ⊤
unfolding flow_checks
run_test_quick_flow c1 topics = do
  fail_test "quick_flow"
  rmem ← get_procfs_values true
  wmem ← get_procfs_values false
  rmem0 ← item rmem 0
  bad ← if rmem0 == "error" then pure true else (do w ← item wmem 0; pure (w == "error"))
  unless bad do
    done ← set_procfs_values true tiny
    unless (not done) do
      done' ← set_procfs_values false tiny
      if not done' then set_procfs_values true rmem >> pure tt else flow_checks c1 topics rmem wmem

unfoldable pub run_test_server_stop : Process → Process → Run ⊤
run_test_server_stop server c1 = do
  fail_test "server_stop"
  print "Stopping the server"
  send_input server "exit"
  sleep 1
  server_up ← is_alive server
  when server_up (print "Error: server is still up")
  c1_up ← is_alive c1
  when c1_up (print "Error: C1 is still up")
  let success = not server_up && not c1_up
  when success (pass_test "server_stop")
