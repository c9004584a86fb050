-- ===== src/Harness/Wildcards.antt =====
-- test.py: the tests of wildcards.
use Prim.Native.String.{◌++◌}
use server_client_app.Base.{ℕ, String, Bool, true, false, List, [], ◌∷◌, ⊤}
use server_client_app.Harness.Suite.{Run, pure, ◌>>=◌, ◌>>◌, print}
use server_client_app.Harness.Results.{pass_test, fail_test}
use server_client_app.Harness.Topics.{Topic, show}
use server_client_app.Harness.Process.{Process, send_input, get_output_timeout}
use server_client_app.Harness.Helpers.{item}
use server_client_app.Harness.Checks.{
  when, and_then, run_udp_client, check_subscriber_output, subscribe_to_topic,
}
use server_client_app.Harness.Basic.{unless, check_all}

abbrev payloads : String
payloads = "sample_wildcard_payloads.json"

-- check_subscriber_output(c2, "2", topics[i].print())
unfoldable pub check_topic : Process → List Topic → ℕ → Run Bool
check_topic c2 topics i = do topic ← item topics i; check_subscriber_output c2 "2" (show topic)

-- check_subscriber_output(c2, "2", "timeout")
unfoldable pub check_silence : Process → Run Bool
check_silence c2 = check_subscriber_output c2 "2" "timeout"

-- print and subscribe; true where the test returns early
unfoldable pub start_wildcard : Process → String → Run Bool
start_wildcard c2 wildcard = do
  print ("Subscribing C2 to topics " ++ wildcard)
  subscribe_to_topic c2 "" wildcard

-- c2.send_input("unsubscribe " + wildcard); c2.get_output_timeout(1)
unfoldable pub stop_wildcard : Process → String → Run ⊤
stop_wildcard c2 wildcard = do
  send_input c2 ("unsubscribe " ++ wildcard)
  get_output_timeout c2 1
  pure tt

unfoldable pub run_test_c2_subscribe_plus_wildcard : Process → List Topic → Run ⊤
unfolding check_topic check_silence start_wildcard stop_wildcard
run_test_c2_subscribe_plus_wildcard c2 topics = do
  fail_test "c2_subscribe_plus_wildcard"
  failed ← start_wildcard c2 "+/ec/100/pressure"
  unless failed do
    run_udp_client false ("8" ∷ "9" ∷ []) payloads
    success ← check_topic c2 topics 8
    success ← and_then success (check_silence c2)
    stop_wildcard c2 "+/ec/100/pressure"
    failed ← start_wildcard c2 "upb/+/100/pressure"
    unless failed do
      run_udp_client false ("8" ∷ "9" ∷ []) payloads
      success ← and_then success (check_topic c2 topics 8)
      success ← and_then success (check_topic c2 topics 9)
      stop_wildcard c2 "upb/+/100/pressure"
      failed ← start_wildcard c2 "upb/ec/100/+"
      unless failed do
        run_udp_client false ("6" ∷ "7" ∷ "5" ∷ []) payloads
        success ← and_then success (check_topic c2 topics 6)
        success ← and_then success (check_topic c2 topics 7)
        success ← and_then success (check_silence c2)
        stop_wildcard c2 "upb/ec/100/+"
        when success (pass_test "c2_subscribe_plus_wildcard")

unfoldable pub run_test_c2_subscribe_star_wildcard : Process → List Topic → Run ⊤
unfolding check_topic check_silence start_wildcard stop_wildcard
run_test_c2_subscribe_star_wildcard c2 topics = do
  fail_test "c2_subscribe_star_wildcard"
  failed ← start_wildcard c2 "*/pressure"
  unless failed do
    run_udp_client false ("8" ∷ "9" ∷ "7" ∷ []) payloads
    success ← check_topic c2 topics 8
    success ← and_then success (check_topic c2 topics 9)
    success ← check_silence c2
    stop_wildcard c2 "*/pressure"
    failed ← start_wildcard c2 "upb/precis/elevator/*/floor"
    unless failed do
      run_udp_client false ("1" ∷ "3" ∷ "2" ∷ []) payloads
      success ← and_then success (check_topic c2 topics 1)
      success ← and_then success (check_topic c2 topics 3)
      success ← and_then success (check_silence c2)
      stop_wildcard c2 "upb/precis/elevator/*/floor"
      failed ← start_wildcard c2 "upb/precis/*"
      unless failed do
        run_udp_client false ("1" ∷ "4" ∷ "6" ∷ []) payloads
        success ← and_then success (check_topic c2 topics 1)
        success ← and_then success (check_topic c2 topics 4)
        success ← and_then success (check_silence c2)
        stop_wildcard c2 "upb/precis/*"
        failed ← start_wildcard c2 "*"
        unless failed do
          run_udp_client true ("0" ∷ []) payloads
          success ← check_all c2 "2" topics success
          stop_wildcard c2 "*"
          when success (pass_test "c2_subscribe_star_wildcard")

unfoldable pub run_test_c2_subscribe_compound_wildcard : Process → List Topic → Run ⊤
unfolding check_topic check_silence start_wildcard stop_wildcard
run_test_c2_subscribe_compound_wildcard c2 topics = do
  fail_test "c2_subscribe_compound_wildcard"
  failed ← start_wildcard c2 "upb/+/100/+"
  unless failed do
    run_udp_client false ("4" ∷ "5" ∷ "10" ∷ []) payloads
    success ← check_topic c2 topics 4
    success ← and_then success (check_topic c2 topics 5)
    success ← and_then success (check_silence c2)
    stop_wildcard c2 "upb/+/100/+"
    failed ← start_wildcard c2 "upb/+/100/*"
    unless failed do
      run_udp_client false ("9" ∷ "10" ∷ "0" ∷ []) payloads
      success ← and_then success (check_topic c2 topics 9)
      success ← and_then success (check_topic c2 topics 10)
      success ← and_then success (check_silence c2)
      stop_wildcard c2 "upb/+/100/*"
      failed ← start_wildcard c2 "*/100/+"
      unless failed do
        run_udp_client false ("4" ∷ "5" ∷ "10" ∷ "0" ∷ []) payloads
        success ← and_then success (check_topic c2 topics 4)
        success ← and_then success (check_topic c2 topics 5)
        success ← and_then success (check_silence c2)
        success ← and_then success (check_silence c2)
        stop_wildcard c2 "*/100/+"
        failed ← start_wildcard c2 "*/100/*"
        unless failed do
          run_udp_client false ("4" ∷ "5" ∷ "10" ∷ "0" ∷ []) payloads
          success ← and_then success (check_topic c2 topics 4)
          success ← and_then success (check_topic c2 topics 5)
          success ← and_then success (check_topic c2 topics 10)
          success ← and_then success (check_silence c2)
          stop_wildcard c2 "*/100/*"
          when success (pass_test "c2_subscribe_compound_wildcard")

unfoldable pub run_test_c2_subscribe_wildcard_set_inclusion : Process → List Topic → Run ⊤
unfolding check_topic check_silence start_wildcard stop_wildcard
run_test_c2_subscribe_wildcard_set_inclusion c2 topics = do
  fail_test "c2_subscribe_wildcard_set_inclusion"
  failed ← start_wildcard c2 "upb/precis/100/+"
  unless failed do
    failed ← start_wildcard c2 "upb/precis/100/*"
    unless failed do
      run_udp_client false ("4" ∷ []) payloads
      success ← check_topic c2 topics 4
      success ← and_then success (check_silence c2)
      stop_wildcard c2 "upb/precis/100/+"
      stop_wildcard c2 "upb/precis/100/*"
      when success (pass_test "c2_subscribe_wildcard_set_inclusion")
