-- ===== src/Service/Failover.antt =====
-- `colod_set_params`, `colod_do_failover` and `peer_colod_send_qmpcmds`.
pub mod Stuck
pub mod Params
pub mod Progress
pub mod Degrade
use colo_manage_tools.Prelude.{
  ℤ, is_negative, not, String, ◌<>◌, Option, none, some, List, [], ◌∷◌, ◌==◌, if◌then◌else◌,
}
use colo_manage_tools.Prelude.Decimal.{to_string}
use colo_manage_tools.Config.{DomainStatus, ColoDomainStatus, is_shut_off, is_primary, is_secondary}
use colo_manage_tools.Platform.{Yaml, Os, RetVal}
use colo_manage_tools.World.{M, ◌>>=◌, ◌>>◌, gets, fail, succeed, on_option, domain_at, set_domain}
use colo_manage_tools.QmpSocket.{send_qmp_cmds}
use colo_manage_tools.Domain.Files.{get_domain}
use colo_manage_tools.Domain.Qmp.{qmp_capabilities, generate_pvm_qmpcmd, generate_svm_qmpcmd}
use colo_manage_tools.Service.Status.{with_domain, test_domain_status}

-- The command of `colod_set_params` for a property.
unfoldable pub param_cmd : String → ℤ → Option String
param_cmd property value =
    if property == "checkpoint-time"
    then some (
        "{'execute': 'migrate-set-parameters' , 'arguments':{ 'x-checkpoint-delay': "
        <> to_string value
        <> " } }")
    else if property == "compare-timeout"
    then some (
        "{ 'execute': 'qom-set','arguments': { 'path': '/objects/comp0','property': 'compare_timeout','value': "
        <> to_string value
        <> "} }")
    else if property == "max-queue-size"
    then some (
        "{ 'execute': 'qom-set','arguments': { 'path': '/objects/comp0','property': 'max_queue_size','value': "
        <> to_string value
        <> "} }")
    else none

abbrev pub secondary_failover_cmds : List String
secondary_failover_cmds =
    qmp_capabilities ∷ "{'exec-oob': 'colo-enable-teardown' }" ∷ "{'execute': 'nbd-server-stop'}"
    ∷ "{'execute': 'x-colo-lost-heartbeat'}" ∷ "{'execute': 'query-status'}"
    ∷ "{'execute': 'object-del', 'arguments':{ 'id': 'f2' } }"
    ∷ "{'execute': 'object-del', 'arguments':{ 'id': 'f1' } }"
    ∷ "{'execute': 'chardev-remove', 'arguments':{ 'id': 'red1' } }"
    ∷ "{'execute': 'chardev-remove', 'arguments':{ 'id': 'red0' } }" ∷ []

abbrev pub primary_failover_cmds : List String
primary_failover_cmds =
    qmp_capabilities ∷ "{'exec-oob': 'colo-enable-teardown' }"
    ∷ "{'execute': 'x-blockdev-change', 'arguments':{ 'parent': 'colo-disk0', 'child': 'children.1'} }"
    ∷ "{'execute': 'human-monitor-command', 'arguments':{ 'command-line': 'drive_del replication0' } }"
    ∷ "{'execute': 'x-colo-lost-heartbeat' }"
    ∷ "{'execute': 'object-del', 'arguments':{ 'id': 'm0' } }"
    ∷ "{'execute': 'object-del', 'arguments':{ 'id': 'redire0' } }"
    ∷ "{'execute': 'object-del', 'arguments':{ 'id': 'redire1' } }"
    ∷ "{'execute': 'object-del', 'arguments':{ 'id': 'iothread1' } }"
    ∷ "{'execute': 'object-del', 'arguments':{ 'id': 'comp0' } }"
    ∷ "{'execute': 'chardev-remove', 'arguments':{ 'id': 'mirror0' } }"
    ∷ "{'execute': 'chardev-remove', 'arguments':{ 'id': 'compare1' } }"
    ∷ "{'execute': 'chardev-remove', 'arguments':{ 'id': 'compare0' } }"
    ∷ "{'execute': 'chardev-remove', 'arguments':{ 'id': 'compare0-0' } }"
    ∷ "{'execute': 'chardev-remove', 'arguments':{ 'id': 'compare_out' } }"
    ∷ "{'execute': 'chardev-remove', 'arguments':{ 'id': 'compare_out0' } }" ∷ []

module _ ⦃Y : Yaml⦄ ⦃O : Os⦄ where
  -- What is left of `colod_set_params` for a known property.
  unfoldable pub send_param : String → String → M RetVal
  send_param domain_name cmd = do
    r ← send_qmp_cmds (qmp_capabilities ∷ cmd ∷ [])
    if is_negative r
        then fail ("colo domain " <> domain_name <> " set params failed : send qmp cmds failed.")
        else succeed "set params success."

  unfoldable pub colod_set_params : String → String → ℤ → M RetVal
  colod_set_params domain_name property value = do
    ds ← domain_at domain_name
    if is_shut_off ds.status then fail "can not set params for a shutoff domain." else do
      ds' ← domain_at domain_name
      if not ds'.colo_enable
          then fail "can not set params for a colo-disabled domain."
          else on_option (param_cmd property value)
              (fail ("can not find property : " <> property <> "."))
              (λ cmd. send_param domain_name cmd)

  -- The commands of a failover, and what follows them.
  unfoldable pub tear_down : String → List String → String → M RetVal
  tear_down domain_name cmds done = do
    r ← send_qmp_cmds cmds
    if is_negative r
        then fail ("colo domain " <> domain_name <> " set params failed : send qmp cmds failed.")
        else (do
          set_domain domain_name (λ d. record d {
            status = DomainStatus.running;
            colo_status = ColoDomainStatus.degrade;
          })
          succeed done)

  unfoldable pub colod_do_failover : String → M RetVal
  colod_do_failover domain_name = do
    ds ← domain_at domain_name
    if is_shut_off ds.status
        then fail "can not do failover for a shutoff domain."
        else (if not ds.colo_enable
            then fail "can not do failover for a colo-disabled domain."
            else (if is_secondary ds.colo_status
                then (do
                  set_domain domain_name (λ d. record d { colo_status = ColoDomainStatus.failover })
                  tear_down domain_name secondary_failover_cmds "Primary vm crash and do failover.")
                else (if is_primary ds.colo_status
                    then tear_down domain_name primary_failover_cmds
                        "Secondary vm crash and do failover."
                    else fail "can not do failover in wrong colo status.")))

  -- What `peer_colod_send_qmpcmds` does with the commands of a secondary.
  unfoldable pub send_secondary : String → List String → M RetVal
  send_secondary domain_name cmds = do
    r ← send_qmp_cmds cmds
    if is_negative r
        then fail
            ("colo domain " <> domain_name <> " start failed : sencondary send qmp cmds failed.")
        else succeed "send colo qmp success."

  -- For a primary the commands are generated and logged, and not sent.
  unfoldable pub peer_colod_send_qmpcmds : String → ColoDomainStatus → M RetVal
  peer_colod_send_qmpcmds domain_name cds = do
    s ← test_domain_status domain_name
    if is_shut_off s then fail "remote domain is shutoff." else do
      found ← get_domain domain_name
      with_domain found λ d. do
        cs ← gets (λ w. w.current_status)
        if is_primary cds
            then (do
              ds ← domain_at domain_name
              let cmds = generate_pvm_qmpcmd d cs ds
              succeed "send colo qmp success.")
            else (if is_secondary cds
                then (do
                  ds ← domain_at domain_name
                  send_secondary domain_name (generate_svm_qmpcmd d cs ds))
                else fail ("colo domain " <> domain_name <> " peer send qmp failed."))
