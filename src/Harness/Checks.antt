-- ===== src/Harness/Checks.antt =====
-- test.py: the steps that the tests share.
use Prim.Native.String.{◌++◌}
use text.Mathlib.Text.{starts_with, ◌==◌}
use server_client_app.Base.{
  ℕ, zero, suc, String, Bool, true, false, not, ◌&&◌, List, [], ◌∷◌, if◌then◌else◌, ⊤,
}
use server_client_app.Base.Text.{contains, rstrip, str}
use server_client_app.Harness.Suite.{Run, pure, ◌>>=◌, ◌>>◌, print, sleep}
use server_client_app.Harness.Results.{pass_test, fail_test}
use server_client_app.Harness.Topics.{Topic, show}
use server_client_app.Harness.Process.{
  Process, new_process, start, finish, send_input, get_output_timeout, is_alive,
}
use server_client_app.Harness.Helpers.{item}

abbrev pub port : String
port = "12345"

abbrev pub ip : String
ip = "127.0.0.1"

abbrev pub udp_client_path : String
udp_client_path = "pcom_hw2_udp_client"

-- if condition: m
abbrev pub when : Bool → Run ⊤ → Run ⊤
when condition m = if condition then m else pure tt

-- success and m, which does not run m after a failure
abbrev pub and_then : Bool → Run Bool → Run Bool
and_then success m = if success then m else pure false

-- m and success, which runs m in any case
abbrev pub then_and : Run Bool → Bool → Run Bool
then_and m success = do r ← m; pure (r && success)

-- for i in range(rounds): p.get_output_timeout(1)
unfoldable pub read_lines : ℕ → Process → Run ⊤
read_lines zero p = pure tt
read_lines (suc rounds) p = get_output_timeout p 1 >> read_lines rounds p

unfoldable pub send_types : Process → List String → Run ⊤
send_types p [] = pure tt
send_types p (type ∷ types) = do send_input p type; sleep 1; send_types p types

unfoldable pub run_udp_all : String → Run ⊤
unfolding read_lines
run_udp_all input_file = do
  udpcl ← start (
      new_process ("python3" ∷ "udp_client.py" ∷ "--input_file" ∷ input_file ∷ ip ∷ port ∷ [])
        udp_client_path)
  read_lines 19 udpcl
  finish udpcl
  pure tt

unfoldable pub run_udp_manual : List String → String → Run ⊤
unfolding send_types
run_udp_manual types input_file = do
  udpcl ← start (
      new_process
        ("python3" ∷ "udp_client.py" ∷ "--mode" ∷ "manual" ∷ "--input_file" ∷ input_file ∷ ip ∷ port
          ∷ [])
        udp_client_path)
  sleep 1
  send_types udpcl types
  send_input udpcl "exit"
  finish udpcl
  pure tt

unfoldable pub run_udp_client : Bool → List String → String → Run ⊤
unfolding run_udp_all run_udp_manual
run_udp_client mode types input_file =
    if mode then run_udp_all input_file else run_udp_manual types input_file

-- run_udp_client(), with its defaults
abbrev pub run_udp_client_default : Run ⊤
run_udp_client_default = run_udp_client true ("0" ∷ []) "sample_payloads.json"

-- The name of the test that start_and_check_client belongs to.
abbrev pub start_test : String → Bool → String
start_test id restart = "c" ++ id ++ (if restart then "_restart" else "_start")

unfoldable pub start_and_check_client : Process → String → Bool → Bool → Run (Process × Bool)
start_and_check_client server id restart test = do
  when test (fail_test (start_test id restart))
  print ("Starting subscriber C" ++ id)
  client ← start (new_process ("./subscriber" ∷ ("C" ++ id) ∷ ip ∷ port ∷ []) "")
  outs ← get_output_timeout server 2
  alive ← is_alive client
  when (not alive) (print ("Error: subscriber C" ++ id ++ " is not up"))
  let greeted = starts_with outs ("New client C" ++ id ++ " connected from")
  when (not greeted) (print ("Error: server did not print that C" ++ id ++ " is connected"))
  let success = alive && greeted
  when (success && test) (pass_test (start_test id restart))
  pure (client, success)

unfoldable pub check_subscriber_output : Process → String → String → Run Bool
check_subscriber_output c client_id target = do
  outc ← get_output_timeout c 1
  if not (contains outc target)
      then (do
        print (
            "Error: C"
            ++ client_id
            ++ " output should contain ["
            ++ target
            ++ "], is actually ["
            ++ rstrip outc
            ++ "]")
        pure false)
      else pure true

-- `or` asks whether the client is alive only if the line is the expected one.
unfoldable pub check_subscriber_stop : Process → Process → String → Run Bool
check_subscriber_stop server c id = do
  print ("Disconnecting subscriber C" ++ id)
  send_input c "exit"
  sleep 1
  outs ← get_output_timeout server 1
  bad ← if rstrip outs == "Client C" ++ id ++ " disconnected." then is_alive c else pure true
  if bad then (do print ("Error: client C" ++ id ++ " not disconnected"); pure false) else pure true

unfoldable pub check_two_subscribers : Process → Process → List Topic → ℕ → Run Bool
check_two_subscribers c1 c2 topics topic_id = do
  topic ← item topics topic_id
  print ("Generating one message for topic " ++ topic.name)
  run_udp_client false (str topic_id ∷ []) "sample_payloads.json"
  let target = show topic
  success ← check_subscriber_output c1 "1" target
  then_and (check_subscriber_output c2 "2" target) success

-- True where the source returns -1; the source returns None otherwise.
unfoldable pub subscribe_to_topic : Process → String → String → Run Bool
subscribe_to_topic c topic_name wildcard = do
  send_input c ("subscribe " ++ topic_name ++ wildcard)
  outc ← get_output_timeout c 1
  if not (starts_with outc "Subscribed to topic")
      then (do print ("Error: C not subscribed to topic " ++ wildcard); pure true)
      else pure false
