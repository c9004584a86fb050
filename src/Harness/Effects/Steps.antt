-- ===== src/Harness/Effects/Steps.antt =====
-- The steps of the tests leave `tests` alone.
use server_client_app.Base.{
  ℕ, zero, suc, String, Bool, true, false, List, [], ◌∷◌, Exn, Result, ok, raised,
}
use server_client_app.Harness.Suite.{print, sleep}
use server_client_app.Harness.Process.{
  Process, recover_start, start, finish, send_input, get_output_timeout, is_alive, timeout,
}
use server_client_app.Harness.Helpers.{
  make_target, make_clean, get_procfs_values, set_procfs_values, item,
}
use server_client_app.Harness.Checks.{
  read_lines, send_types, run_udp_client, check_subscriber_output, check_subscriber_stop,
  subscribe_to_topic,
}
use server_client_app.Harness.Effects.{Quiet, Quiet-bind, quiet_rules}

pub Quiet-print : (t : String) → Quiet (print t)
unfolding print
Quiet-print t = search quiet_rules

pub Quiet-sleep : (n : ℕ) → Quiet (sleep n)
unfolding sleep
Quiet-sleep n = search quiet_rules

pub ruleset base_rules = (quiet_rules, Quiet-print, Quiet-sleep)

pub Quiet-recover_start : (p : Process) (r : Result ℕ) → Quiet (recover_start p r)
unfolding recover_start
Quiet-recover_start p (ok h) = search quiet_rules
Quiet-recover_start p (raised Exn.file_not_found) = search quiet_rules
Quiet-recover_start p (raised _) = search quiet_rules

pub Quiet-start : (p : Process) → Quiet (start p)
unfolding start
Quiet-start p = search (quiet_rules, Quiet-recover_start)

pub Quiet-finish : (p : Process) → Quiet (finish p)
unfolding finish
Quiet-finish p = search quiet_rules depth 12

pub Quiet-send_input : (p : Process) (t : String) → Quiet (send_input p t)
unfolding send_input
Quiet-send_input p t = search quiet_rules

pub Quiet-get_output_timeout : (p : Process) (n : ℕ) → Quiet (get_output_timeout p n)
unfolding get_output_timeout timeout
Quiet-get_output_timeout p n = search quiet_rules depth 12

pub Quiet-is_alive : (p : Process) → Quiet (is_alive p)
unfolding is_alive
Quiet-is_alive p = search quiet_rules

pub Quiet-make_target : (t : String) → Quiet (make_target t)
unfolding make_target
Quiet-make_target t = search quiet_rules

pub Quiet-make_clean : Quiet make_clean
unfolding make_clean
Quiet-make_clean = search quiet_rules

pub Quiet-item : {A : Type 0} (l : List A) (i : ℕ) → Quiet (item l i)
unfolding item
Quiet-item l i = search quiet_rules

pub ruleset process_rules = (
  base_rules, Quiet-start, Quiet-finish, Quiet-send_input, Quiet-get_output_timeout, Quiet-is_alive,
  Quiet-make_target, Quiet-make_clean, Quiet-item,
)

pub Quiet-get_procfs_values : (rmem : Bool) → Quiet (get_procfs_values rmem)
unfolding get_procfs_values
Quiet-get_procfs_values rmem = search process_rules depth 20

pub Quiet-set_procfs_values : (rmem : Bool) (l : List String) → Quiet (set_procfs_values rmem l)
unfolding set_procfs_values
Quiet-set_procfs_values rmem l = search process_rules depth 20

pub Quiet-read_lines : (n : ℕ) (p : Process) → Quiet (read_lines n p)
unfolding read_lines
Quiet-read_lines zero p = search process_rules
Quiet-read_lines (suc n) p = Quiet-bind _ _ (search process_rules) (λ _. Quiet-read_lines n p)

pub Quiet-send_types : (p : Process) (l : List String) → Quiet (send_types p l)
unfolding send_types
Quiet-send_types p [] = search process_rules
Quiet-send_types p (t ∷ l) =
    Quiet-bind _ _ (search process_rules)
      (λ _. Quiet-bind _ _ (search process_rules) (λ _. Quiet-send_types p l))

pub Quiet-run_udp_client : (b : Bool) (l : List String) (f : String) → Quiet (run_udp_client b l f)
unfolding run_udp_client
Quiet-run_udp_client true l f = search (process_rules, Quiet-read_lines) depth 20
Quiet-run_udp_client false l f = search (process_rules, Quiet-send_types) depth 20

pub Quiet-check_subscriber_output :
    (p : Process) (id target : String) → Quiet (check_subscriber_output p id target)
unfolding check_subscriber_output
Quiet-check_subscriber_output p id target = search process_rules depth 20

pub Quiet-check_subscriber_stop :
    (server c : Process) (id : String) → Quiet (check_subscriber_stop server c id)
unfolding check_subscriber_stop
Quiet-check_subscriber_stop server c id = search process_rules depth 20

pub Quiet-subscribe_to_topic : (c : Process) (t w : String) → Quiet (subscribe_to_topic c t w)
unfolding subscribe_to_topic
Quiet-subscribe_to_topic c t w = search process_rules depth 20

pub ruleset step_rules = (
  process_rules, Quiet-get_procfs_values, Quiet-set_procfs_values, Quiet-run_udp_client,
  Quiet-check_subscriber_output, Quiet-check_subscriber_stop, Quiet-subscribe_to_topic,
)
