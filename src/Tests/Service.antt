-- ===== src/Tests/Service.antt =====
-- Sample runs of the handlers of one node.
use mathlib.Core.Option
use colo_manage_tools.Prelude.{
  ℤ, pos, minus_one, true, false, String, [], ◌∷◌, ◌≡◌, ◌⊎◌, inl, refl, is_negative, is_minus_one,
}
use colo_manage_tools.Config.{DomainStatus, ColoDomainStatus, is_shut_off, is_primary, is_secondary}
use colo_manage_tools.Platform.{ColodDomainStatus, at}
use colo_manage_tools.Platform.Sample.{sample_yaml}
use colo_manage_tools.Platform.Sample.Machine.{sample_os, Machine}
use colo_manage_tools.Domains
use colo_manage_tools.World.{World, returned, ◌>>=◌, load_file, write_file, domain_at, set_domain}
use colo_manage_tools.World.Keeps.{final}
use colo_manage_tools.QmpSocket.{
  send_qmp_cmds, qmp_connect, qmp_recv, qmp_send, qmp_close, send_loop, throw,
}
use colo_manage_tools.QmpSocket.Exchange.{Exchange, send_qmp_cmds-exchanged}
use colo_manage_tools.RunVm.{destroy_domain, get_domain_pid, kill_domain}
use colo_manage_tools.SaveFile.{remove_domain_pid, write_domains}
use colo_manage_tools.SaveFile.Document.{pid_loop, string_at, int_at, mark_loop}
use colo_manage_tools.Service.Status.{test_domain_status}
use colo_manage_tools.Service.Status.Alive.{observed, test_domain_status-observed}
use colo_manage_tools.Service.Destroy.{colod_destroy, destroy_here}
use colo_manage_tools.Service.Destroy.Stopped.{IsKilled, stopped, colod_destroy-stopped}
use colo_manage_tools.Service.Failover.{tear_down, colod_do_failover, colod_set_params}
use colo_manage_tools.Service.Failover.Degrade.{
  AreSent, failover_cmds, degraded, colod_do_failover-degraded,
}
use colo_manage_tools.Service.Failover.Stuck.{failed_over, colod_do_failover-stuck}
use colo_manage_tools.Service.Failover.Params.{colod_set_params-refused}
use colo_manage_tools.Tests.Data.{node, machine, vm_record, value, no_answer}

abbrev off_vm : ColodDomainStatus
off_vm = vm_record DomainStatus.shut_off ColoDomainStatus.primary

abbrev running_vm : ColodDomainStatus
running_vm = vm_record DomainStatus.running ColoDomainStatus.none

abbrev colo_vm : ColoDomainStatus → ColodDomainStatus
colo_vm role = vm_record DomainStatus.colo_enabled role

abbrev off_world : World
off_world = node "shutoff" machine off_vm

abbrev running_world : World
running_world = node "running" machine running_vm

abbrev secondary_world : World
secondary_world = node "running" machine (colo_vm ColoDomainStatus.secondary)

-- A monitor that refuses what is sent to it.
abbrev deaf_world : World
deaf_world =
    node "running" (record machine { send_result = minus_one }) (colo_vm ColoDomainStatus.secondary)

test_run :
    test_domain_status "vm" running_world
    ≡ returned DomainStatus.running (final (test_domain_status "vm" running_world))
unfolding test_domain_status ◌>>=◌ colo_manage_tools.World.domain_at Domains.lookup
test_run = refl

test_domain_status-observed_example :
    (DomainStatus.running ≡ (observed running_world running_vm).status)
    × (Domains.get "vm" (final (test_domain_status "vm" running_world)).domains
        ≡ observed running_world running_vm)
unfolding Domains.lookup
test_domain_status-observed_example =
    test_domain_status-observed "vm" running_world (final (test_domain_status "vm" running_world))
      DomainStatus.running test_run

destroy_run :
    (colod_destroy "vm" running_world
      ≡ returned
          (value no_answer (colod_destroy "vm" running_world))
          (final (colod_destroy "vm" running_world)))
    × (is_negative (value no_answer (colod_destroy "vm" running_world)).code ≡ false)
unfolding colod_destroy ◌>>=◌ test_domain_status Domains.lookup Domains.insert destroy_here
    destroy_domain get_domain_pid load_file Option.bind at pid_loop string_at int_at
    remove_domain_pid mark_loop write_file kill_domain write_domains domain_at set_domain
destroy_run = (refl, refl)

colod_destroy-stopped_example :
    (Domains.get "vm" (final (colod_destroy "vm" running_world)).domains ≡ stopped running_vm)
    × (is_minus_one running_vm.pid ≡ false)
    × (sample_os.exists_process running_world.os running_vm.pid ≡ true)
    × IsKilled (final (colod_destroy "vm" running_world))
unfolding Domains.lookup
colod_destroy-stopped_example =
    colod_destroy-stopped "vm" running_world (final (colod_destroy "vm" running_world))
      (value no_answer (colod_destroy "vm" running_world)) destroy_run.0 destroy_run.1

failover_run :
    (colod_do_failover "vm" secondary_world
      ≡ returned
          (value no_answer (colod_do_failover "vm" secondary_world))
          (final (colod_do_failover "vm" secondary_world)))
    × (is_negative (value no_answer (colod_do_failover "vm" secondary_world)).code ≡ false)
unfolding colod_do_failover ◌>>=◌ domain_at Domains.lookup Domains.insert tear_down send_qmp_cmds
    qmp_connect qmp_recv qmp_send qmp_close send_loop set_domain throw
failover_run = (refl, refl)

colod_do_failover-degraded_example :
    (Domains.get "vm" (final (colod_do_failover "vm" secondary_world)).domains
      ≡ degraded (colo_vm ColoDomainStatus.secondary))
    × (is_shut_off DomainStatus.colo_enabled ≡ false)
    × (true ≡ true)
    × ((is_primary ColoDomainStatus.secondary ≡ true)
        ⊎ (is_secondary ColoDomainStatus.secondary ≡ true))
    × AreSent
        (failover_cmds ColoDomainStatus.secondary)
        secondary_world.os
        (final (colod_do_failover "vm" secondary_world)).os
unfolding Domains.lookup
colod_do_failover-degraded_example =
    colod_do_failover-degraded "vm" secondary_world (final (colod_do_failover "vm" secondary_world))
      (value no_answer (colod_do_failover "vm" secondary_world)) failover_run.0 failover_run.1

deaf_run :
    (colod_do_failover "vm" deaf_world
      ≡ returned
          (value no_answer (colod_do_failover "vm" deaf_world))
          (final (colod_do_failover "vm" deaf_world)))
    × (is_negative (value no_answer (colod_do_failover "vm" deaf_world)).code ≡ true)
unfolding colod_do_failover ◌>>=◌ domain_at Domains.lookup Domains.insert tear_down send_qmp_cmds
    qmp_connect qmp_recv qmp_send qmp_close send_loop set_domain throw
deaf_run = (refl, refl)

colod_do_failover-stuck_example :
    (Domains.get "vm" (final (colod_do_failover "vm" deaf_world)).domains
      ≡ failed_over (colo_vm ColoDomainStatus.secondary))
    × ((v : World)
        → v.domains ≡ (final (colod_do_failover "vm" deaf_world)).domains
        → colod_do_failover "vm" v
          ≡ returned
              (record { code = minus_one; msg = "can not do failover in wrong colo status." })
              (record v { domains = Domains.insert "vm" (Domains.get "vm" v.domains) v.domains }))
unfolding Domains.lookup
colod_do_failover-stuck_example =
    colod_do_failover-stuck "vm" deaf_world (final (colod_do_failover "vm" deaf_world))
      (value no_answer (colod_do_failover "vm" deaf_world)) deaf_run.0 deaf_run.1 refl refl refl

colod_set_params-refused_example :
    (msg : String) × (ds : Domains.Domains) × (colod_set_params "vm" "checkpoint-time"
        (pos 5)
        off_world
      ≡ returned (record { code = minus_one; msg = msg }) (record off_world { domains = ds }))
unfolding Domains.lookup
colod_set_params-refused_example =
    colod_set_params-refused "vm" "checkpoint-time" (pos 5) off_world (inl refl)

qmp_run :
    send_qmp_cmds ("a" ∷ "b" ∷ []) running_world
    ≡ returned (pos 0) (final (send_qmp_cmds ("a" ∷ "b" ∷ []) running_world))
unfolding send_qmp_cmds ◌>>=◌ colo_manage_tools.QmpSocket.qmp_connect
    colo_manage_tools.QmpSocket.qmp_recv colo_manage_tools.QmpSocket.send_loop
    colo_manage_tools.QmpSocket.qmp_send colo_manage_tools.QmpSocket.qmp_close
qmp_run = refl

send_qmp_cmds-exchanged_example :
    (fd : ℤ) × (s t : Machine) × (sample_os.socket machine ≡ (fd, s))
    × (is_negative (sample_os.connect s fd "127.0.0.1" 4444).0 ≡ false)
    × (is_negative (sample_os.recv (sample_os.connect s fd "127.0.0.1" 4444).1 fd).0 ≡ false)
    × Exchange fd
        (sample_os.recv (sample_os.connect s fd "127.0.0.1" 4444).1 fd).2
        ("a" ∷ "b" ∷ [])
        t
    × ((final (send_qmp_cmds ("a" ∷ "b" ∷ []) running_world)).os ≡ sample_os.close t fd)
send_qmp_cmds-exchanged_example =
    send_qmp_cmds-exchanged ("a" ∷ "b" ∷ []) running_world
      (final (send_qmp_cmds ("a" ∷ "b" ∷ []) running_world)) (pos 0) qmp_run refl
