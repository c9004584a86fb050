-- ===== src/Harness/Verdicts/Heard.antt =====
-- What run_test_data_subscribed has read when it passes.
use Prim.Native.String.{◌++◌}
use mathlib.Core.List.{◌++◌ as append, append-nil}
use mathlib.Core.Bool.{false≢true}
use text.Mathlib.TextEquality.{eq_iff}
use server_client_app.Base.{
  String, ◌≡◌, refl, sym, ◌∙◌, ap, inl, inr, Bool-cases, Bool, true, false, ◌&&◌, not,
  if◌then◌else◌, List, [], ◌∷◌, some, none, Option, ⊤, Result, ok, raised,
}
use server_client_app.Base.Text.{contains, rstrip}
use server_client_app.Harness.Suite.{Dict, Suite, Run, pure, onward, ◌>>=◌, ◌>>◌, emit, print}
use server_client_app.Harness.Results.{assign, lookup, pass_test, fail_test}
use server_client_app.Harness.Results.Lookup.{lookup-assign_self}
use server_client_app.Harness.Topics.{Topic, show}
use server_client_app.Harness.Process.{Process, get_output_timeout}
use server_client_app.Harness.Checks.{when, run_udp_client_default, check_subscriber_output}
use server_client_app.Harness.Basic.{check_all, run_test_data_subscribed}
use server_client_app.Harness.Effects.Steps.{Quiet-run_udp_client}
use server_client_app.Harness.Effects.Loops.{Quiet-check_all}

-- From this state on, the outputs that are read from the process, one after the other, contain the
-- texts of the topics, in their order.
pub data Heard (c : Process) : List Topic → Suite → Type 0 where
  all_heard : {s : Suite} → Heard c [] s
  heard :
      {t : Topic} {ts : List Topic} {s : Suite} (out : String)
      → (get_output_timeout c 1 s).0 ≡ ok out
      → contains out (show t) ≡ true
      → Heard c ts (get_output_timeout c 1 s).1
      → Heard c (t ∷ ts) s

given : {A : Type 0} → Result A → Suite → Run A
given r u s = (r, u)

judge : String → String → String → Run Bool
judge id target outc =
    if not (contains outc target)
    then (do
      print (
          "Error: C"
          ++ id
          ++ " output should contain ["
          ++ target
          ++ "], is actually ["
          ++ rstrip outc
          ++ "]")
      pure false)
    else pure true

-- One line that was read, the checks behind it, and what comes after them.
after_line :
    (c : Process) (t : Topic) (ts : List Topic) (id : String) (b : Bool) (s : Suite)
    (r : Result String) (u : Suite) (check f : Bool → Run Bool)
    → ((v : Bool) (w : Suite) → ((check v >>= f) w).0 ≡ ok true → (v ≡ true) × Heard c ts w)
    → let m = (((given r u >>= judge id (show t)) >>= λ x. pure (x && b)) >>= λ x. check x) >>= f in
      (m s).0 ≡ ok true
      → (b ≡ true) × (out : String) × (r ≡ ok out) × (contains out (show t) ≡ true) × Heard c ts u
unfolding given judge ◌>>=◌ pure print emit
after_line c t ts id b s (raised e) u check f ih h = cc h
after_line c t ts id b s (ok out) u check f ih h = elim (Bool-cases (contains out (show t))) [
  | inl e ↦ let (same, rest) = ih b u (rw e at h) in (same, out, refl, e, rest)
  | inr e ↦ absurd (false≢true (ih false _ (rw e at h)).0)
]

pub check_all-then :
    (c : Process) (id : String) (topics more : List Topic) (f : Bool → Run Bool)
    → ((v : Bool) (w : Suite) → (f v w).0 ≡ ok true → (v ≡ true) × Heard c more w)
    → (b : Bool) (s : Suite) → ((check_all c id topics b >>= f) s).0 ≡ ok true
    → (b ≡ true) × Heard c (append topics more) s
unfolding check_all check_subscriber_output pure given judge ◌>>=◌
check_all-then c id [] more f ih b s h = ih b s h
check_all-then c id (t ∷ ts) more f ih b s h =
    let (r, u) = get_output_timeout c 1 s in
    let (same, out, read, found, rest) =
      after_line c t (append ts more) id b s r u (check_all c id ts) f
        (check_all-then c id ts more f ih) h in
    (same, heard out read found rest)

check_all-Heard :
    (c : Process) (id : String) (topics : List Topic) (s : Suite)
    → (check_all c id topics true s).0 ≡ ok true
    → Heard c topics s
unfolding pure ◌>>=◌
check_all-Heard c id topics s h =
    let (same, all) =
      check_all-then c id topics [] pure (λ v w e. (cc e, all_heard)) true s (rw h refl) in
    rw append-nil at all

abbrev pub status : Option String → String
status none = ""
status (some v) = v

failed_not :
    (d : Dict) → lookup "data_subscribed" (assign "data_subscribed" "failed" d) ≡ some "passed" → ⊥
failed_not d h =
    let e = ap status (sym (lookup-assign_self "data_subscribed" "failed" d) ∙ h) in
    false≢true ((eq_iff "failed" "passed").1 e)

after_checks :
    (d : Dict) (r : Result Bool) (v : Suite)
    → v.tests ≡ assign "data_subscribed" "failed" d
    → lookup "data_subscribed"
        (onward r (λ success. when success (pass_test "data_subscribed")) v).1.tests
      ≡ some "passed"
    → r ≡ ok true
unfolding pure
after_checks d (raised e) v f h = absurd (failed_not d (ap (lookup "data_subscribed") (sym f) ∙ h))
after_checks d (ok true) v f h = refl
after_checks d (ok false) v f h = absurd (failed_not d (ap (lookup "data_subscribed") (sym f) ∙ h))

after_sending :
    (d : Dict) (c1 : Process) (topics : List Topic) (r : Result ⊤) (u : Suite)
    → u.tests ≡ assign "data_subscribed" "failed" d
    → lookup "data_subscribed"
        (onward r
          (λ _.
            check_all c1 "1" topics true >>= λ success. when success (pass_test "data_subscribed"))
          u).1.tests
      ≡ some "passed"
    → Heard c1 topics u
unfolding ◌>>=◌
after_sending d c1 topics (raised e) u f h =
    absurd (failed_not d (ap (lookup "data_subscribed") (sym f) ∙ h))
after_sending d c1 topics (ok a) u f h =
    let v = (check_all c1 "1" topics true u).1 in
    let quiet = (Quiet-check_all c1 "1" topics true).at u in
    let true_end = after_checks d (check_all c1 "1" topics true u).0 v (quiet ∙ f) h in
    check_all-Heard c1 "1" topics u true_end

-- When the test data_subscribed is marked as passed, the next outputs that were read from the
-- subscriber, after the datagrams were sent, were one for each topic in the order of the
-- topics, and each contained the expected text of its topic.
pub data_subscribed-Heard :
    (server c1 : Process) (topics : List Topic) (s : Suite)
    → lookup "data_subscribed" (run_test_data_subscribed server c1 topics s).1.tests ≡ some "passed"
    → let sending =
        fail_test "data_subscribed"
        >> print "Generating one message for each topic"
        >> run_udp_client_default in
      Heard c1 topics (sending s).1
unfolding run_test_data_subscribed fail_test print emit ◌>>=◌
data_subscribed-Heard server c1 topics s h =
    let begun =
      (print "Generating one message for each topic" (fail_test "data_subscribed" s).1).1 in
    after_sending s.tests c1 topics (run_udp_client_default begun).0
      (run_udp_client_default begun).1
      ((Quiet-run_udp_client true ("0" ∷ []) "sample_payloads.json").at begun) h
