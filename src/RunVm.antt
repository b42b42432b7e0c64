-- ===== src/RunVm.antt =====
-- src/utils/runvm.cpp: starting, stopping and copying. `fork` is seen from the parent.
use colo_manage_tools.Prelude.{
  ℤ, pos, minus_one, is_negative, is_minus_one, is_positive, not, String, Bool, Option, none, some,
  List, [], ◌∷◌, if◌then◌else◌,
}
use colo_manage_tools.Config.{save_file}
use colo_manage_tools.Platform.{Yaml, Os, ShellCommand, at}
use colo_manage_tools.World.{M, pure, ◌>>=◌, on_option, lift, gets, sys, load_file}
use colo_manage_tools.SaveFile.{save_domain_pid, remove_domain_pid}
use colo_manage_tools.SaveFile.Document.{pid_loop, path_loop}

-- The array that `execvp` is given: the arguments, and a null pointer at the end.
unfoldable pub strlist : List String → List (Option String)
strlist [] = none ∷ []
strlist (s ∷ ss) = some s ∷ strlist ss

-- What the child of a fork runs: `execvp(cmd.binaryPath, strlist(cmd.args))`.
unfoldable pub child_exec : ShellCommand → String × List (Option String)
unfolding strlist
child_exec cmd = (cmd.binary_path, strlist cmd.args)

module _ ⦃Y : Yaml⦄ ⦃O : Os⦄ where
  -- get_domain_pid and get_domain_config_file_path of src/utils/domain.cpp; `none` is -1
  unfoldable pub get_domain_pid : String → M (Option ℤ)
  get_domain_pid name = do
    sf ← load_file save_file
    doms ← lift (at sf "domains")
    found ← lift (pid_loop name (Y.items doms))
    pure (elim found [ none ↦ none | some p ↦ if is_minus_one p then none else some p ])

  unfoldable pub get_domain_config_file_path : String → M (Option String)
  get_domain_config_file_path name = do
    sf ← load_file save_file
    doms ← lift (at sf "domains")
    lift (path_loop name (Y.items doms))

  unfoldable pub run_shell_command_async : ShellCommand → M ℤ
  run_shell_command_async cmd = do
    pid ← sys (λ s. O.fork_exec s cmd)
    pure (if is_minus_one pid then minus_one else pid)

  unfoldable pub run_shell_command_sync : ShellCommand → M ℤ
  run_shell_command_sync cmd = do
    pid ← sys (λ s. O.fork_exec s cmd)
    if is_minus_one pid
        then pure minus_one
        else (if not (is_positive pid) then pure pid else do
          finished ← sys (λ s. O.wait_process s pid)
          pure (if finished then pid else minus_one))

  unfoldable pub run_new_vm : String → ShellCommand → M ℤ
  unfolding run_shell_command_async
  run_new_vm domain_name cmd = do
    pid ← run_shell_command_async cmd
    if is_minus_one pid
        then pure minus_one
        else (if not (is_positive pid)
            then pure pid
            else do r ← save_domain_pid domain_name pid; pure pid)

  -- kill(pid, 0) < 0
  abbrev pub is_gone : ℤ → M Bool
  is_gone pid = gets λ w. not (O.exists_process w.os pid)

  -- What `destroy_domain` does with the pid that the save file had.
  unfoldable pub kill_domain : String → ℤ → M ℤ
  kill_domain domain_name pid = do
    r ← remove_domain_pid domain_name
    if is_negative r then pure minus_one else do
      gone ← is_gone pid
      if gone then pure minus_one else do
        killed ← sys (λ s. O.kill_process s pid)
        pure (if killed then pos 0 else minus_one)

  unfoldable pub destroy_domain : String → M ℤ
  unfolding kill_domain
  destroy_domain domain_name = do
    found ← get_domain_pid domain_name
    on_option found (pure minus_one) (λ pid. kill_domain domain_name pid)

  unfoldable pub transfer_file : String → String → M ℤ
  unfolding run_shell_command_sync
  transfer_file src dst = do
    pid ←
        run_shell_command_sync
          (record { binary_path = "scp"; args = "scp" ∷ src ∷ dst ∷ []; nargs = 3 })
    pure (if is_minus_one pid then minus_one else pos 0)
