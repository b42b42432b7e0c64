-- ===== src/Tests/Total.antt =====
-- A sequence of calls that a daemon answers on its own.
use mathlib.Core.Option
use colo_manage_tools.Prelude.{
  pos, false, true, some, List, [], ◌∷◌, map, ◌≡◌, ◌≢◌, refl, length, inl,
}
use colo_manage_tools.Config.{DomainStatus, ColoDomainStatus}
use colo_manage_tools.Platform.{ColodDomainStatus, RetVal}
use colo_manage_tools.Platform.Sample.{sample_yaml, sample_yaml-IsYaml}
use colo_manage_tools.Platform.Sample.Machine.{sample_os}
use colo_manage_tools.World.{World, returned}
use colo_manage_tools.SaveFile.Intact.{IsEntry}
use colo_manage_tools.SaveFile.Total.{IsIntact}
use colo_manage_tools.Domain.Parse.{threw, vm_config_parse}
use colo_manage_tools.Service.Peer.{Call}
use colo_manage_tools.Service.Total.Serve.{run-answered}
use colo_manage_tools.Server.{colod_server, server_init, message}
use colo_manage_tools.Daemon.{run}
use colo_manage_tools.Platform.{peer_destroy_domain}
use colo_manage_tools.Tests.Daemon.{rpc, rpc-IsRpc}
use colo_manage_tools.Tests.Files.{parse_run}
use colo_manage_tools.Tests.Data.{
  files, machine, saved_vm, save_doc, vm_doc, vm_record, primary_node,
}

abbrev vm : ColodDomainStatus
vm = vm_record DomainStatus.shut_off ColoDomainStatus.primary

abbrev world : World
world = record {
  current_status = primary_node;
  domains = ("vm", vm) ∷ [];
  remote_address = some ("10.0.0.2", 5678);
  remote_client_init = true;
  peer_init = true;
  files = files "shutoff";
  os = machine;
}

vm_doc_converted : vm_config_parse vm_doc ≢ threw
vm_doc_converted e = cc parse_run

saved_vm-IsEntry : IsEntry (files "shutoff") (saved_vm "vm" "shutoff")
unfolding Option.bind
saved_vm-IsEntry = record {
  map_node = refl;
  name = ("vm", refl);
  pid = (pos 77, refl);
  status = ("shutoff", refl);
  flag = (false, refl);
  path = ("/vms/vm.yaml", vm_doc, refl, refl, refl, vm_doc_converted);
}

other_vm-IsEntry : IsEntry (files "shutoff") (saved_vm "other" "shutoff")
unfolding Option.bind
other_vm-IsEntry = record {
  map_node = refl;
  name = ("other", refl);
  pid = (pos 77, refl);
  status = ("shutoff", refl);
  flag = (false, refl);
  path = ("/vms/vm.yaml", vm_doc, refl, refl, refl, vm_doc_converted);
}

world-IsIntact : IsIntact world
unfolding Option.bind
world-IsIntact = record {
  node = save_doc "shutoff";
  loads = refl;
  shape = record {
    map_node = refl;
    list = inl refl;
    entries = (saved_vm-IsEntry, (other_vm-IsEntry, tt));
  };
}

abbrev calls : List Call
calls =
    Call.start "vm" false
    ∷ Call.list true
    ∷ Call.from_peer (peer_destroy_domain "vm")
    ∷ Call.colo_disable "vm"
    ∷ Call.undefine "vm"
    ∷ []

run-answered_example :
    (answers : List RetVal) × (w' : World) × (run rpc
        (server_init rpc (colod_server rpc (pos 0) 5678))
        (map message calls)
        world
      ≡ returned (map (λ ret. some ret) answers) w')
    × (length answers ≡ length calls)
    × IsIntact w'
run-answered_example =
    run-answered sample_yaml-IsYaml rpc (pos 0) 5678 calls world rpc-IsRpc
      (tt, (tt, (tt, (tt, (tt, tt))))) world-IsIntact
