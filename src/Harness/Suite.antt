-- ===== src/Harness/Suite.antt =====
-- The state of test.py and its calls of the operating system.
--
-- What the script calls (the processes, their pipes, the clock, the files) is an argument of the
-- model: `Env` answers each call from the calls made so far, so a theorem that holds for every
-- `Env` holds whatever the server, the subscribers and the scheduler do. A call may raise.
use Prim.Native.String.{◌++◌}
use server_client_app.Base.{ℕ, String, Bool, List, ◌∷◌, ⊤, Exn, Result, ok, raised}

pub data Event : Type 0 where
  -- print(text, end=end) writes text ++ end
  print_event : String → Event
  -- print(e) for an exception
  print_exn_event : Exn → Event
  sleep_event : ℕ → Event
  -- subprocess.run([command], shell=True)
  shell_event : String → Event
  path_exists_event can_write_event open_read_event read_file_event open_write_event :
      String → Event
  write_file_event : String → String → Event
  -- Popen(command, cwd=cwd); no cwd is ""
  popen_event : List String → String → Event
  terminate_event : ℕ → Event
  wait_event : ℕ → ℕ → Event
  write_event : ℕ → String → Event
  flush_event read_out_event read_err_event poll_event : ℕ → Event
  -- signal.signal(SIGALRM, raise_timeout); signal.alarm(seconds)
  alarm_event : ℕ → Event
  -- signal.signal(SIGALRM, SIG_IGN)
  ignore_alarm_event : Event

-- The answers, by what the call returns. The list holds the calls, the newest first.
pub record Env : Type 0 where
  pub acks : List Event → Result ⊤
  pub texts : List Event → Result String
  pub flags : List Event → Result Bool
  pub handles : List Event → Result ℕ

-- The module's `tests` dictionary, in its order.
abbrev pub Dict : Type 0
Dict = List (String × String)

pub record Suite : Type 0 where
  pub tests : Dict
  pub trace : List Event
  pub env : Env

abbrev pub Run : Type 0 → Type 0
Run A = Suite → Result A × Suite

module _ {A : Type 0} where
  unfoldable pub pure : A → Run A
  pure a s = (ok a, s)

  unfoldable pub raise : Exn → Run A
  raise e s = (raised e, s)

  unfoldable pub lift : Result A → Run A
  lift r s = (r, s)

  unfoldable pub handle_timeout : Result A → Run A → Run A
  handle_timeout (raised Exn.timeout_error) n s = n s
  handle_timeout r n s = (r, s)

  -- try: m except TimeoutError: n
  unfoldable pub except_timeout : Run A → Run A → Run A
  unfolding handle_timeout
  except_timeout m n s = let (r, s') = m s in handle_timeout r n s'

  -- try: m finally: n, where n does not raise
  unfoldable pub finally : Run A → Run ⊤ → Run A
  finally m n s = let (r, s') = m s in (r, (n s').1)

-- try: m except e: the rest reads how m ended.
unfoldable pub attempt : {A : Type 0} → Run A → Run (Result A)
attempt m s = let (r, s') = m s in (ok r, s')

-- The rest of a run, after a call that returned or raised.
abbrev pub onward : {A B : Type 0} → Result A → (A → Run B) → Run B
onward (ok a) f s = f a s
onward (raised e) f s = (raised e, s)

infixl 5 ◌>>=◌ ◌>>◌
unfoldable pub ◌>>=◌ : {A B : Type 0} → Run A → (A → Run B) → Run B
unfolding pure raise lift
◌>>=◌ m f s = let (r, s') = m s in onward r f s'

abbrev pub ◌>>◌ : {A B : Type 0} → Run A → Run B → Run B
m >> n = m >>= λ _. n

log : Event → Suite → Suite
log e s = record s { trace = e ∷ s.trace }

-- Calls that do not fail: print, sleep and the setting of the alarm.
unfoldable pub emit : Event → Run ⊤
unfolding log
emit e s = (ok tt, log e s)

-- The other calls, by the kind of the answer.
unfoldable pub do_call : Event → Run ⊤
unfolding log
do_call e s = let t = log e s in (t.env.acks t.trace, t)

unfoldable pub ask_text : Event → Run String
unfolding log
ask_text e s = let t = log e s in (t.env.texts t.trace, t)

unfoldable pub ask_flag : Event → Run Bool
unfolding log
ask_flag e s = let t = log e s in (t.env.flags t.trace, t)

unfoldable pub ask_handle : Event → Run ℕ
unfolding log
ask_handle e s = let t = log e s in (t.env.handles t.trace, t)

-- print(text)
unfoldable pub print : String → Run ⊤
unfolding emit
print text = emit (print_event (text ++ "\n"))

-- print(text, end="")
unfoldable pub print_bare : String → Run ⊤
unfolding emit
print_bare text = emit (print_event text)

unfoldable pub sleep : ℕ → Run ⊤
unfolding emit
sleep n = emit (sleep_event n)
