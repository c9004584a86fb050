-- ===== src/Harness/Process.antt =====
-- test.py: class Process, and the alarm behind its reads with a timeout.
--
-- An object is a value here: after `start` only `finish` writes to it, and the script uses no
-- object after its `finish`. `proc` is read only where `started` holds.
use Prim.Native.String.{◌++◌}
use server_client_app.Base.{
  ℕ, String, Bool, true, false, List, if◌then◌else◌, ⊤, Exn, Result, ok, raised,
}
use server_client_app.Harness.Suite.{
  print_exn_event, popen_event, terminate_event, wait_event, write_event, flush_event,
  read_out_event, read_err_event, poll_event, alarm_event, ignore_alarm_event, Run, pure, raise,
  attempt, except_timeout, finally, ◌>>=◌, ◌>>◌, emit, do_call, ask_text, ask_flag, ask_handle,
}

pub record Process : Type 0 where
  pub command : List String
  pub started : Bool
  pub cwd : String
  pub proc : ℕ

-- Process(command, cwd=cwd)
abbrev pub new_process : List String → String → Process
new_process command cwd = record { command = command; started = false; cwd = cwd; proc = 0 }

-- with timeout(seconds): body; the context manager drops a TimeoutError of its own body, so the
-- function that holds it then returns None, which is the empty text here.
unfoldable pub timeout : ℕ → Run String → Run String
timeout seconds body =
    emit (alarm_event seconds) >> finally (except_timeout body (pure "")) (emit ignore_alarm_event)

-- print(e) and quit(), which raises SystemExit
unfoldable pub recover_start : Process → Result ℕ → Run Process
recover_start p (ok handle) = pure (record p { started = true; proc = handle })
recover_start p (raised Exn.file_not_found) =
    emit (print_exn_event Exn.file_not_found) >> raise Exn.system_exit
recover_start p (raised e) = raise e

unfoldable pub start : Process → Run Process
unfolding recover_start
start p = attempt (ask_handle (popen_event p.command p.cwd)) >>= recover_start p

unfoldable pub finish : Process → Run Process
finish p =
    if p.started
    then (do
      do_call (terminate_event p.proc)
      do_call (wait_event p.proc 1)
      pure (record p { started = false }))
    else pure p

unfoldable pub send_input : Process → String → Run ⊤
send_input p proc_in =
    if p.started
    then (do do_call (write_event p.proc (proc_in ++ "\n")); do_call (flush_event p.proc))
    else pure tt

unfoldable pub get_output : Process → Run String
get_output p = if p.started then ask_text (read_out_event p.proc) else pure ""

unfoldable pub get_output_timeout : Process → ℕ → Run String
unfolding timeout
get_output_timeout p tout =
    if p.started
    then timeout tout (except_timeout (ask_text (read_out_event p.proc)) (pure "timeout"))
    else pure ""

unfoldable pub get_error : Process → Run String
get_error p = if p.started then ask_text (read_err_event p.proc) else pure ""

unfoldable pub get_error_timeout : Process → ℕ → Run String
unfolding timeout
get_error_timeout p tout =
    if p.started
    then timeout tout (except_timeout (ask_text (read_err_event p.proc)) (pure "timeout"))
    else pure ""

-- `poll() is None`
unfoldable pub is_alive : Process → Run Bool
is_alive p = if p.started then ask_flag (poll_event p.proc) else pure false
