-- ===== src/Service/Start.antt =====
-- `colod_start`, in parts, and `peer_colod_start_domain`.
pub mod Outcome
pub mod Running
use colo_manage_tools.Prelude.{is_negative, not, String, ◌<>◌, Bool, true, [], if◌then◌else◌}
use colo_manage_tools.Config.{
  DomainStatus, ColoDomainStatus, ColoStatus, is_shut_off, is_primary, is_secondary,
}
use colo_manage_tools.Platform.{
  Yaml, Os, RetVal, ShellCommand, peer_start_domain, peer_send_qmpcmds,
}
use colo_manage_tools.World.{
  M, ◌>>=◌, ◌>>◌, gets, fail, succeed, domain_at, set_domain, remote_call,
}
use colo_manage_tools.QmpSocket.{send_qmp_cmds}
use colo_manage_tools.RunVm.{run_new_vm}
use colo_manage_tools.Domain.{Domain}
use colo_manage_tools.Domain.Files.{get_domain}
use colo_manage_tools.Domain.Command.{generate_vm_cmd, generate_pvm_cmd, generate_svm_cmd}
use colo_manage_tools.Domain.Qmp.{generate_pvm_qmpcmd, generate_svm_qmpcmd}
use colo_manage_tools.Service.Status.{unless_refused, with_domain, test_domain_status}

-- `shell_command cmd;`. Its `nargs` is not initialised in the code; it is counted, and read nowhere.
abbrev pub new_command : ShellCommand
new_command = record { binary_path = ""; args = []; nargs = 0 }

-- The command of a domain in a role. The code drops the return values of the generators.
unfoldable pub colo_cmd : ColoDomainStatus → Domain → ColoStatus → ShellCommand
colo_cmd cds d cs =
    if is_primary cds
    then (generate_pvm_cmd d cs new_command).1
    else if is_secondary cds
    then (generate_svm_cmd d cs new_command).1
    else new_command

module _ ⦃Y : Yaml⦄ ⦃O : Os⦄ where
  -- The branch `!colo_enable`. A fork that failed is not looked at.
  unfoldable pub start_plain : String → Domain → M RetVal
  start_plain domain_name d = do
    let cmd = (generate_vm_cmd d new_command).1
    pid ← run_new_vm d.name cmd
    set_domain domain_name (λ ds. record ds { pid = pid; status = DomainStatus.running })
    succeed ("domain " <> domain_name <> " start.")

  -- The start of the local machine, in `colod_start` and in `peer_colod_start_domain`.
  unfoldable pub start_here : String → Domain → ColoDomainStatus → M RetVal → M RetVal
  start_here domain_name d cds k = do
    cs ← gets (λ w. w.current_status)
    pid ← run_new_vm d.name (colo_cmd cds d cs)
    if is_negative pid then fail ("colo domain " <> domain_name <> " start failed.") else do
      set_domain domain_name (λ ds. record ds { pid = pid; status = DomainStatus.colo_enabled })
      k

  unfoldable pub started : String → M RetVal
  started domain_name = succeed ("colo domain " <> domain_name <> " start.")

  -- `colod_start` after the start of the machine, on the primary.
  unfoldable pub pair_as_primary : String → Domain → M RetVal
  pair_as_primary domain_name d = do
    reply ← remote_call (peer_send_qmpcmds domain_name ColoDomainStatus.secondary)
    unless_refused reply
        ("colo domain " <> domain_name <> " start failed :  secondary send qmpcmd failed.")
        (do
          cs ← gets (λ w. w.current_status)
          ds ← domain_at domain_name
          r ← send_qmp_cmds (generate_pvm_qmpcmd d cs ds)
          if is_negative r
              then fail
                  ("colo domain " <> domain_name <> " start failed : primary send qmp cmds failed.")
              else started domain_name)

  -- The same on the secondary.
  unfoldable pub pair_as_secondary : String → Domain → M RetVal
  pair_as_secondary domain_name d = do
    cs ← gets (λ w. w.current_status)
    ds ← domain_at domain_name
    r ← send_qmp_cmds (generate_svm_qmpcmd d cs ds)
    if is_negative r
        then fail
            ("colo domain " <> domain_name <> " start failed : secondary send snd qmp cmds failed.")
        else (do
          reply ← remote_call (peer_send_qmpcmds domain_name ColoDomainStatus.primary)
          unless_refused reply
              ("colo domain " <> domain_name <> " start failed :  primary send qmpcmd failed.")
              (started domain_name))

  unfoldable pub pair : ColoDomainStatus → String → Domain → M RetVal
  pair cur_status domain_name d =
      if is_primary cur_status
      then pair_as_primary domain_name d
      else if is_secondary cur_status
      then pair_as_secondary domain_name d
      else started domain_name

  -- The branch `colo_enable`.
  unfoldable pub start_colo : String → Domain → ColoDomainStatus → M RetVal
  start_colo domain_name d cur_status = do
    ds ← domain_at domain_name
    if not ds.colo_enable then succeed ("domain " <> domain_name <> " is not colo enable.") else (do
      reply ← remote_call (peer_start_domain domain_name true)
      unless_refused reply ("colo domain " <> domain_name <> " secondary start failed.")
          (start_here domain_name d cur_status (pair cur_status domain_name d)))

  unfoldable pub colod_start : String → Bool → M RetVal
  colod_start domain_name colo_enable = do
    cur ← domain_at domain_name
    s ← test_domain_status domain_name
    if not (is_shut_off s) then fail "domain is already running." else do
      found ← get_domain domain_name
      with_domain found λ d.
          if not colo_enable
          then start_plain domain_name d
          else start_colo domain_name d cur.colo_status

  unfoldable pub peer_colod_start_domain : String → Bool → M RetVal
  peer_colod_start_domain domain_name colo_enable =
      if not colo_enable then fail "peer colod can only start colo vm." else do
        ds ← domain_at domain_name
        if not ds.colo_enable then fail "please run colo enable first." else do
          found ← get_domain domain_name
          with_domain found λ d. do
            ds' ← domain_at domain_name
            start_here domain_name d ds'.colo_status (succeed "peer colod start domain success.")
