-- ===== src/Harness/Effects/Loops.antt =====
-- The loops of the tests leave `tests` alone.
use text.Mathlib.Text.{starts_with}
use server_client_app.Base.{ℕ, zero, suc, String, Bool, true, not, List, [], ◌∷◌}
use server_client_app.Harness.Suite.{Dict, pure, ◌>>◌, print, print_bare}
use server_client_app.Harness.Results.{print_lines, report, print_test_results}
use server_client_app.Harness.Topics.{Topic}
use server_client_app.Harness.Process.{Process}
use server_client_app.Harness.Helpers.{exit_if_condition}
use server_client_app.Harness.Basic.{subscribe_all, check_all, send_rounds, check_rounds}
use server_client_app.Harness.Wildcards.{check_topic, check_silence, start_wildcard, stop_wildcard}
use server_client_app.Harness.Effects.{Quiet, Quiet-bind, Quiet-if}
use server_client_app.Harness.Effects.Steps.{step_rules}

pub Quiet-print_lines : (d : Dict) → Quiet (print_lines d)
unfolding print_lines print_bare
Quiet-print_lines [] = search step_rules
Quiet-print_lines ((t, v) ∷ d) = Quiet-bind _ _ (search step_rules) (λ _.
    Quiet-bind _ _ (search step_rules)
      (λ _. Quiet-bind _ _ (search step_rules) (λ _. Quiet-print_lines d)))

Quiet-report : (d : Dict) → Quiet (report d)
unfolding report
Quiet-report d = search (step_rules, Quiet-print_lines) depth 12

-- The results that are printed are those at the start.
pub Quiet-print_test_results : Quiet print_test_results
unfolding print_test_results
Quiet-print_test_results = record { at = λ s. (Quiet-report s.tests).at s }

pub Quiet-exit : (b : Bool) (message : String) → Quiet (exit_if_condition b message)
unfolding exit_if_condition
Quiet-exit b message = search (step_rules, Quiet-print_test_results) depth 20

pub Quiet-subscribe_all : (c1 : Process) (topics : List Topic) → Quiet (subscribe_all c1 topics)
unfolding subscribe_all
Quiet-subscribe_all c1 [] = search step_rules
Quiet-subscribe_all c1 (t ∷ topics) = Quiet-bind _ _ (search step_rules) (λ _.
    Quiet-bind _ _ (search step_rules) (λ outc1.
      Quiet-if (not (starts_with outc1 "Subscribed to topic"))
        (print "Error: C1 not subscribed to all topics" >> pure true) _ (search step_rules)
        (Quiet-subscribe_all c1 topics)))

pub Quiet-check_all :
    (c : Process) (id : String) (topics : List Topic) (b : Bool) → Quiet (check_all c id topics b)
unfolding check_all
Quiet-check_all c id [] b = search step_rules
Quiet-check_all c id (t ∷ topics) b =
    Quiet-bind _ _ (search step_rules) (λ b'. Quiet-check_all c id topics b')

pub Quiet-send_rounds : (n : ℕ) → Quiet (send_rounds n)
unfolding send_rounds
Quiet-send_rounds zero = search step_rules
Quiet-send_rounds (suc n) = Quiet-bind _ _ (search step_rules) (λ _. Quiet-send_rounds n)

pub Quiet-check_rounds :
    (n : ℕ) (c : Process) (topics : List Topic) (b : Bool) → Quiet (check_rounds n c topics b)
unfolding check_rounds
Quiet-check_rounds zero c topics b = search step_rules
Quiet-check_rounds (suc n) c topics b =
    Quiet-bind _ _ (Quiet-check_all c "1" topics b) (λ b'. Quiet-check_rounds n c topics b')

pub Quiet-check_topic : (c : Process) (topics : List Topic) (i : ℕ) → Quiet (check_topic c topics i)
unfolding check_topic
Quiet-check_topic c topics i = search step_rules

pub Quiet-check_silence : (c : Process) → Quiet (check_silence c)
unfolding check_silence
Quiet-check_silence c = search step_rules

pub Quiet-start_wildcard : (c : Process) (w : String) → Quiet (start_wildcard c w)
unfolding start_wildcard
Quiet-start_wildcard c w = search step_rules

pub Quiet-stop_wildcard : (c : Process) (w : String) → Quiet (stop_wildcard c w)
unfolding stop_wildcard
Quiet-stop_wildcard c w = search step_rules depth 12

pub ruleset loop_rules = (
  step_rules, Quiet-print_test_results, Quiet-exit, Quiet-subscribe_all, Quiet-check_all,
  Quiet-send_rounds, Quiet-check_rounds, Quiet-check_topic, Quiet-check_silence,
  Quiet-start_wildcard, Quiet-stop_wildcard,
)
