-- ===== src/Tests/Peers.antt =====
-- Sample runs of two nodes that connect.
use mathlib.Core.Option
use colo_manage_tools.Prelude.{pos, minus_one, true, false, some, none, ◌≡◌, refl, inl, is_negative}
use colo_manage_tools.Config.{
  DomainStatus, ColoDomainStatus, NodeStatus, colod_port, node_status, is_primary_node,
}
use colo_manage_tools.Platform.{ColodDomainStatus, at, set_at}
use colo_manage_tools.Platform.Sample.{sample_yaml}
use colo_manage_tools.Platform.Sample.Machine.{sample_os}
use colo_manage_tools.World.{
  World, returned, ◌>>=◌, load_file, write_file, remote_call, set_remote_client, domain_at,
  set_domain,
}
use colo_manage_tools.World.Keeps.{final}
use colo_manage_tools.Domains
use colo_manage_tools.SaveFile.{
  parse_config_file, save_colo_status, save_domain_info, write_domains, set_domain_colo_enable,
  write_flagged,
}
use colo_manage_tools.SaveFile.Document.{
  parse_config, with_status, domain_node, string_at, redefine_loop, flag_loop,
}
use colo_manage_tools.Domain.{Domain}
use colo_manage_tools.Domain.Command.{generate_pvm_cmd, generate_svm_cmd}
use colo_manage_tools.Domain.Qmp.{generate_pvm_qmpcmd, generate_svm_qmpcmd}
use colo_manage_tools.Service.Start.{new_command}
use colo_manage_tools.Service.Colo.{
  peer_domain, role_of, enable_as, colod_colo_enable, peer_colod_save_domain,
}
use colo_manage_tools.Service.Colo.Agree.{IsInRole, HaveSameQmpCommands, colod_colo_enable-agree}
use colo_manage_tools.Service.Connect.{
  mirrored, record_connection, colod_connect_peer, peer_colod_save_status,
}
use colo_manage_tools.Service.Connect.Mirror.{generate-mirrored}
use colo_manage_tools.Service.Connect.Agree.{
  AreOpposite, peer_colod_save_status-mirrored, colod_connect_peer-agree,
}
use colo_manage_tools.Tests.Data.{
  node, machine, vm_record, vm_definition, primary_node, value, no_answer,
}

abbrev vm : ColodDomainStatus
vm = vm_record DomainStatus.shut_off ColoDomainStatus.primary

-- A node before it is connected.
abbrev fresh : World
fresh = record (node "shutoff" machine vm) {
  current_status = record primary_node { local_status = NodeStatus.none; peer_ip = "" };
  remote_address = none;
  remote_client_init = false;
  peer_init = false;
}

abbrev after : World
after = final (colod_connect_peer "colo.yaml" fresh)

connect_run :
    (colod_connect_peer "colo.yaml" fresh
      ≡ returned (value no_answer (colod_connect_peer "colo.yaml" fresh)) after)
    × (is_negative (value no_answer (colod_connect_peer "colo.yaml" fresh)).code ≡ false)
    × (is_primary_node after.current_status.local_status ≡ true)
unfolding colod_connect_peer record_connection ◌>>=◌ parse_config_file parse_config load_file
    write_file Option.bind at set_at node_status remote_call set_remote_client save_colo_status
    with_status
connect_run = (refl, refl, refl)

abbrev peer_after : World
peer_after = final (peer_colod_save_status after.current_status fresh)

peer_run :
    (peer_colod_save_status after.current_status fresh
      ≡ returned (value no_answer (peer_colod_save_status after.current_status fresh)) peer_after)
    × (is_negative (value no_answer (peer_colod_save_status after.current_status fresh)).code
        ≡ false)
unfolding peer_colod_save_status colod_connect_peer record_connection ◌>>=◌ parse_config_file
    parse_config load_file write_file Option.bind at set_at node_status remote_call
    set_remote_client save_colo_status with_status
peer_run = (refl, refl)

peer_colod_save_status-mirrored_example :
    (peer_after.current_status ≡ mirrored after.current_status)
    × (peer_after.peer_init ≡ true)
    × (peer_after.remote_address ≡ some (after.current_status.host_ip, colod_port))
peer_colod_save_status-mirrored_example =
    peer_colod_save_status-mirrored after.current_status fresh peer_after
      (value no_answer (peer_colod_save_status after.current_status fresh)) peer_run.0 peer_run.1

colod_connect_peer-agree_example :
    AreOpposite after.current_status peer_after.current_status
    × (mirrored peer_after.current_status ≡ record after.current_status { port = pos colod_port })
    × (after.peer_init ≡ true)
    × (peer_after.peer_init ≡ true)
colod_connect_peer-agree_example =
    colod_connect_peer-agree "colo.yaml" fresh after fresh peer_after
      (value no_answer (colod_connect_peer "colo.yaml" fresh))
      (value no_answer (peer_colod_save_status after.current_status fresh)) connect_run.0
      connect_run.1 peer_run.0 peer_run.1 (inl connect_run.2)

generate-mirrored_example :
    (generate_pvm_cmd vm_definition (mirrored primary_node) new_command
      ≡ generate_pvm_cmd vm_definition primary_node new_command)
    × (generate_svm_cmd vm_definition (mirrored primary_node) new_command
        ≡ generate_svm_cmd vm_definition primary_node new_command)
    × (generate_pvm_qmpcmd vm_definition (mirrored primary_node) (peer_domain vm)
        ≡ generate_pvm_qmpcmd vm_definition primary_node vm)
    × (generate_svm_qmpcmd vm_definition (mirrored primary_node) (peer_domain vm)
        ≡ generate_svm_qmpcmd vm_definition primary_node vm)
generate-mirrored_example = generate-mirrored vm_definition primary_node vm (inl refl) refl

abbrev off_vm : ColodDomainStatus
off_vm = record vm { pid = minus_one }

abbrev caller : World
caller = node "shutoff" machine off_vm

abbrev enabled : World
enabled = final (colod_colo_enable "vm" caller)

abbrev callee : World
callee = record caller { current_status = mirrored primary_node }

abbrev enabled_peer : World
enabled_peer = final (peer_colod_save_domain (Domains.get "vm" enabled.domains) callee)

enable_run :
    (colod_colo_enable "vm" caller
      ≡ returned (value no_answer (colod_colo_enable "vm" caller)) enabled)
    × (is_negative (value no_answer (colod_colo_enable "vm" caller)).code ≡ false)
    × (peer_colod_save_domain (Domains.get "vm" enabled.domains) callee
        ≡ returned
            (value no_answer (peer_colod_save_domain (Domains.get "vm" enabled.domains) callee))
            enabled_peer)
    × (is_negative
          (value no_answer (peer_colod_save_domain (Domains.get "vm" enabled.domains) callee)).code
        ≡ false)
    × ((Domains.get "vm" caller.domains).name ≡ "vm")
unfolding colod_colo_enable role_of enable_as ◌>>=◌ Domains.lookup Domains.insert domain_at
    set_domain remote_call set_domain_colo_enable flag_loop load_file write_file Option.bind at
    string_at write_flagged write_domains peer_colod_save_domain peer_domain save_domain_info
    redefine_loop domain_node mirrored
enable_run = (refl, refl, refl, refl, refl)

colod_colo_enable-agree_example :
    IsInRole enabled.current_status (Domains.get "vm" enabled.domains)
    × IsInRole enabled_peer.current_status (Domains.get "vm" enabled_peer.domains)
    × (Domains.get "vm" enabled_peer.domains ≡ peer_domain (Domains.get "vm" enabled.domains))
    × (enabled_peer.current_status ≡ mirrored enabled.current_status)
    × ((d : Domain) → HaveSameQmpCommands d enabled enabled_peer "vm")
colod_colo_enable-agree_example =
    colod_colo_enable-agree "vm" caller enabled callee enabled_peer
      (value no_answer (colod_colo_enable "vm" caller))
      (value no_answer (peer_colod_save_domain (Domains.get "vm" enabled.domains) callee))
      enable_run.0 enable_run.1 enable_run.4 refl enable_run.2 enable_run.3
