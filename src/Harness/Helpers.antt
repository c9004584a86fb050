-- ===== src/Harness/Helpers.antt =====
-- test.py: the alarm, make, the early exit and the TCP buffer sizes.
use Prim.Native.String.{◌++◌}
use server_client_app.Base.{
  ℕ, String, Bool, true, false, not, List, [], ◌∷◌, length, get_elem?, ltb, if◌then◌else◌, ⊤, Exn,
  or_raise,
}
use server_client_app.Base.Text.{split}
use server_client_app.Harness.Suite.{
  shell_event, path_exists_event, can_write_event, open_read_event, read_file_event,
  open_write_event, write_file_event, Run, pure, raise, lift, ◌>>=◌, ◌>>◌, do_call, ask_text,
  ask_flag, print,
}
use server_client_app.Harness.Results.{print_test_results}

unfoldable pub make_target : String → Run Bool
make_target target =
    do_call (shell_event ("make " ++ target)) >> ask_flag (path_exists_event target)

unfoldable pub make_clean : Run ⊤
make_clean = do_call (shell_event "make clean")

-- quit() raises SystemExit
unfoldable pub exit_if_condition : Bool → String → Run ⊤
exit_if_condition condition message =
    if condition
    then (do print message; make_clean; print_test_results; raise Exn.system_exit)
    else pure tt

unfoldable pub procfs_path : Bool → String
procfs_path rmem = "/proc/sys/net/ipv4/tcp_" ++ (if rmem then "rmem" else "wmem")

unfoldable pub get_procfs_values : Bool → Run (List String)
unfolding procfs_path
get_procfs_values rmem = do
  let path = procfs_path rmem
  do_call (open_read_event path)
  line ← ask_text (read_file_event path)
  let values = split line
  if ltb (length values) 3
      then print "Error: could not read correctly from procfs" >> pure ("error" ∷ [])
      else pure values

-- values[i]
unfoldable pub item : {A : Type 0} → List A → ℕ → Run A
item values i = lift (or_raise (get_elem? values i) Exn.index_error)

unfoldable pub set_procfs_values : Bool → List String → Run Bool
unfolding procfs_path
set_procfs_values rmem values = do
  let path = procfs_path rmem
  writable ← ask_flag (can_write_event path)
  if not writable
      then print "Error: not enough permissions to write to procfs" >> pure false
      else (do
        do_call (open_write_event path)
        v0 ← item values 0
        v1 ← item values 1
        v2 ← item values 2
        do_call (write_file_event path (v0 ++ " " ++ v1 ++ " " ++ v2))
        pure true)
