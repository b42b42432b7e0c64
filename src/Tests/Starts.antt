-- ===== src/Tests/Starts.antt =====
-- Sample runs of the handlers that define, start and enable a domain.
use mathlib.Core.Option
use colo_manage_tools.Prelude.{
  ℤ, pos, minus_one, true, false, not, some, none, ◌≡◌, ◌⊎◌, refl, is_negative,
}
use colo_manage_tools.Config.{DomainStatus, ColoDomainStatus, NodeStatus}
use colo_manage_tools.Platform.{ColodDomainStatus, at}
use colo_manage_tools.Platform.Sample.{Tree, sample_yaml, sample_yaml-IsYaml}
use colo_manage_tools.Platform.Sample.Machine.{sample_os}
use colo_manage_tools.Domains
use colo_manage_tools.World.{
  World, returned, ◌>>=◌, load_file, write_file, domain_at, set_domain, erase_domain, remote_call,
}
use colo_manage_tools.World.Keeps.{final}
use colo_manage_tools.QmpSocket.{
  send_qmp_cmds, qmp_connect, qmp_recv, qmp_send, qmp_close, send_loop, throw,
}
use colo_manage_tools.RunVm.{run_new_vm, run_shell_command_async}
use colo_manage_tools.SaveFile.{
  save_domain_info, save_domain_pid, write_domains, set_domain_colo_enable, write_flagged,
}
use colo_manage_tools.SaveFile.Document.{
  domain_node, string_at, bool_at, int_at, mark_loop, redefine_loop, undefine_loop, flag_loop,
}
use colo_manage_tools.SaveFile.Refines.{saved}
use colo_manage_tools.Domain.Qmp.{generate_pvm_qmpcmd}
use colo_manage_tools.Domain.{Domain}
use colo_manage_tools.Domain.Parse.{
  accepted, vm_config_parse, text_of, int_of, port_of, child, scalar_child, parse_disk, parse_net,
  parse_pri, parse_sec,
}
use colo_manage_tools.Domain.Files.{get_domain, vm_define, vm_undefine, save_new_vm_file}
use colo_manage_tools.Service.Status.{test_domain_status}
use colo_manage_tools.Service.Define.{defined_status, colod_undefine, colod_define}
use colo_manage_tools.Service.Define.Listed.{colod_undefine-unlisted, colod_define-listed}
use colo_manage_tools.Service.Start.{
  colod_start, start_colo, start_here, started, pair, pair_as_primary,
}
use colo_manage_tools.Service.Start.Running.{run_by, IsForked}
use colo_manage_tools.Service.Start.Outcome.{colod_start-running}
use colo_manage_tools.Service.Colo.{role_of, enable_as, colod_colo_enable}
use colo_manage_tools.Service.Colo.Roles.{IsRoleOf, IsRoleless, in_role, colod_colo_enable-recorded}
use colo_manage_tools.Tests.Data.{node, machine, vm_record, primary_node, value, no_answer}

abbrev off_vm : ColodDomainStatus
off_vm = record (vm_record DomainStatus.shut_off ColoDomainStatus.primary) { pid = minus_one }

abbrev world : World
world = node "shutoff" machine off_vm

start_run :
    (colod_start "vm" true world
      ≡ returned
          (value no_answer (colod_start "vm" true world))
          (final (colod_start "vm" true world)))
    × (is_negative (value no_answer (colod_start "vm" true world)).code ≡ false)
unfolding colod_start ◌>>=◌ test_domain_status Domains.lookup Domains.insert domain_at set_domain
    get_domain load_file Option.bind at string_at int_at vm_config_parse text_of int_of port_of
    child scalar_child parse_disk parse_net parse_pri parse_sec start_colo start_here remote_call
    run_new_vm run_shell_command_async save_domain_pid write_file write_domains mark_loop pair
    pair_as_primary started send_qmp_cmds qmp_connect qmp_recv qmp_send qmp_close send_loop throw
    generate_pvm_qmpcmd
start_run = (refl, refl)

colod_start-running_example :
    (pid : ℤ) × (d : Domain) × IsForked primary_node ColoDomainStatus.primary d pid
    × (Domains.get "vm" (final (colod_start "vm" true world)).domains ≡ run_by pid off_vm)
unfolding Domains.lookup
colod_start-running_example =
    colod_start-running "vm" world (final (colod_start "vm" true world))
      (value no_answer (colod_start "vm" true world)) start_run.0 start_run.1 refl

undefine_run :
    (colod_undefine "vm" world
      ≡ returned (value no_answer (colod_undefine "vm" world)) (final (colod_undefine "vm" world)))
    × (is_negative (value no_answer (colod_undefine "vm" world)).code ≡ false)
unfolding colod_undefine ◌>>=◌ test_domain_status Domains.lookup Domains.insert Domains.erase
    domain_at erase_domain vm_undefine load_file Option.bind at string_at bool_at undefine_loop
    write_file
undefine_run = (refl, refl)

colod_undefine-unlisted_example :
    (Domains.lookup "vm" (final (colod_undefine "vm" world)).domains ≡ none)
    × (saved (final (colod_undefine "vm" world)) "vm" ≡ none)
colod_undefine-unlisted_example =
    colod_undefine-unlisted sample_yaml-IsYaml "vm" world (final (colod_undefine "vm" world))
      (value no_answer (colod_undefine "vm" world)) undefine_run.0 undefine_run.1

define_run :
    (colod_define "/vms/vm.yaml" world
      ≡ returned
          (value no_answer (colod_define "/vms/vm.yaml" world))
          (final (colod_define "/vms/vm.yaml" world)))
    × ((value no_answer (colod_define "/vms/vm.yaml" world)).code ≡ pos 0)
unfolding colod_define ◌>>=◌ vm_define save_new_vm_file load_file write_file Option.bind at
    vm_config_parse text_of int_of port_of child scalar_child parse_disk parse_net parse_pri
    parse_sec save_domain_info write_domains redefine_loop string_at set_domain
define_run = (refl, refl)

colod_define-listed_example :
    (doc : Tree) × (d : Domain) × (Option.bind (world.files "/vms/vm.yaml") sample_yaml.load
      ≡ some doc)
    × (vm_config_parse doc ≡ accepted d)
    × (Domains.lookup d.name (final (colod_define "/vms/vm.yaml" world)).domains
        ≡ some (defined_status d.name "/vms/"))
    × (saved (final (colod_define "/vms/vm.yaml" world)) d.name
        ≡ some (domain_node (defined_status d.name "/vms/")))
colod_define-listed_example =
    colod_define-listed sample_yaml-IsYaml "/vms/vm.yaml" world
      (final (colod_define "/vms/vm.yaml" world))
      (value no_answer (colod_define "/vms/vm.yaml" world)) define_run.0 define_run.1

enable_run :
    colod_colo_enable "vm" world
    ≡ returned
        (value no_answer (colod_colo_enable "vm" world))
        (final (colod_colo_enable "vm" world))
unfolding colod_colo_enable role_of enable_as ◌>>=◌ Domains.lookup Domains.insert domain_at
    set_domain remote_call set_domain_colo_enable flag_loop load_file write_file Option.bind at
    string_at write_flagged write_domains
enable_run = refl

colod_colo_enable-recorded_example :
    ((role : ColoDomainStatus) × IsRoleOf NodeStatus.primary role
      × (Domains.get "vm" (final (colod_colo_enable "vm" world)).domains
          ≡ in_role role
              (not (is_negative (value no_answer (colod_colo_enable "vm" world)).code))
              off_vm)
      × ((final (colod_colo_enable "vm" world)).current_status ≡ primary_node))
    ⊎ (IsRoleless NodeStatus.primary
        × (is_negative (value no_answer (colod_colo_enable "vm" world)).code ≡ true)
        × (final (colod_colo_enable "vm" world) ≡ world))
unfolding Domains.lookup
colod_colo_enable-recorded_example =
    colod_colo_enable-recorded "vm" world (final (colod_colo_enable "vm" world))
      (value no_answer (colod_colo_enable "vm" world)) enable_run

role_read : role_of NodeStatus.primary ≡ some ColoDomainStatus.primary
unfolding role_of
role_read = refl
