-- ===== src/Tests/Files.antt =====
-- Sample runs of the functions on the save file and on the files of the domains.
use mathlib.Core.Option
use colo_manage_tools.Prelude.{
  pos, false, String, ◌<>◌, ◌==◌, ◌&&◌, ◌||◌, true, some, none, ◌≡◌, refl, inl, arith,
  if◌then◌else◌,
}
use colo_manage_tools.Config.{DomainStatus, ColoDomainStatus}
use colo_manage_tools.Platform.{ColodDomainStatus, at, set_at}
use colo_manage_tools.Platform.Sample.{Tree, field, sample_yaml, sample_yaml-IsYaml}
use colo_manage_tools.Platform.Sample.Machine.{sample_os}
use colo_manage_tools.World.{World, returned, ◌>>=◌, load_file, write_file}
use colo_manage_tools.World.Keeps.{final}
use colo_manage_tools.SaveFile.Document.{
  string_at, bool_at, redefine_loop, undefine_loop, mark_loop, flag_loop, with_status, mark_running,
  mark_colo,
}
use colo_manage_tools.SaveFile.{
  write_domains, save_domain_info, save_domain_pid, set_domain_colo_enable, save_colo_status,
  get_connect_status,
}
use colo_manage_tools.SaveFile.Refines.{saved, save_domain_info-saved}
use colo_manage_tools.SaveFile.Marks.{HasList, save_domain_pid-saved, set_domain_colo_enable-saved}
use colo_manage_tools.SaveFile.Restored.{get_connect_status-save_colo_status}
use colo_manage_tools.SaveFile.Printed.{print_domains}
use colo_manage_tools.Domain.Parse.{accepted, vm_config_parse}
use colo_manage_tools.Domain.Parse.Document.{
  HoldsMachine, HoldsDisk, HoldsNet, HoldsPri, HoldsSec, vm_config_parse-holds,
}
use colo_manage_tools.Domain.Files.{vm_define, vm_undefine}
use colo_manage_tools.Domain.Files.Stored.{vm_define-stored}
use colo_manage_tools.Domain.Undefine.{vm_undefine-saved}
use colo_manage_tools.Tests.Data.{
  node, machine, vm_record, primary_node, save_doc, vm_doc, vm_definition,
}

abbrev world : World
world = node "shutoff" machine (vm_record DomainStatus.shut_off ColoDomainStatus.none)

abbrev new_vm : ColodDomainStatus
new_vm = record (vm_record DomainStatus.shut_off ColoDomainStatus.none) { name = "new" }

info_run :
    save_domain_info new_vm world ≡ returned (pos 0, "") (final (save_domain_info new_vm world))
unfolding save_domain_info load_file write_file write_domains redefine_loop string_at at ◌>>=◌
    Option.bind
info_run = refl

save_domain_info-saved_example :
    saved (final (save_domain_info new_vm world)) "other" ≡ saved world "other"
save_domain_info-saved_example =
    save_domain_info-saved sample_yaml-IsYaml new_vm world (final (save_domain_info new_vm world))
      "" info_run "other"

world-HasList : HasList world
unfolding Option.bind
world-HasList sf e = inl (ground (arith, e))

undefine_run : vm_undefine "vm" world ≡ returned (pos 0, "") (final (vm_undefine "vm" world))
unfolding vm_undefine load_file write_file undefine_loop string_at bool_at at ◌>>=◌ Option.bind
undefine_run = refl

vm_undefine-saved_example : saved (final (vm_undefine "vm" world)) "vm" ≡ none
vm_undefine-saved_example =
    vm_undefine-saved sample_yaml-IsYaml "vm" world (final (vm_undefine "vm" world)) (pos 0) ""
      undefine_run "vm"

pid_run :
    save_domain_pid "vm" (pos 5) world
    ≡ returned (pos 0) (final (save_domain_pid "vm" (pos 5) world))
unfolding save_domain_pid load_file write_file write_domains mark_loop string_at at ◌>>=◌
    Option.bind
pid_run = refl

save_domain_pid-saved_example :
    saved (final (save_domain_pid "vm" (pos 5) world)) "vm"
    ≡ Option.map (mark_running (pos 5)) (saved world "vm")
save_domain_pid-saved_example =
    save_domain_pid-saved sample_yaml-IsYaml "vm" world (final (save_domain_pid "vm" (pos 5) world))
      world-HasList (pos 5) pid_run "vm"

enable_run :
    set_domain_colo_enable "vm" ColoDomainStatus.primary world
    ≡ returned (pos 0) (final (set_domain_colo_enable "vm" ColoDomainStatus.primary world))
unfolding set_domain_colo_enable load_file write_file write_domains flag_loop string_at at ◌>>=◌
    Option.bind
enable_run = refl

set_domain_colo_enable-saved_example :
    saved (final (set_domain_colo_enable "vm" ColoDomainStatus.primary world)) "vm"
    ≡ Option.map (mark_colo ColoDomainStatus.primary) (saved world "vm")
set_domain_colo_enable-saved_example =
    set_domain_colo_enable-saved sample_yaml-IsYaml "vm" world
      (final (set_domain_colo_enable "vm" ColoDomainStatus.primary world)) world-HasList
      ColoDomainStatus.primary enable_run "vm"

status_run :
    save_colo_status primary_node world
    ≡ returned (pos 0) (final (save_colo_status primary_node world))
unfolding save_colo_status load_file write_file with_status set_at ◌>>=◌ Option.bind
status_run = refl

get_connect_status-save_colo_status_example :
    (get_connect_status primary_node (final (save_colo_status primary_node world))
      ≡ returned (pos 0, primary_node) (final (save_colo_status primary_node world)))
    × ((k : String) → saved (final (save_colo_status primary_node world)) k ≡ saved world k)
get_connect_status-save_colo_status_example =
    get_connect_status-save_colo_status sample_yaml-IsYaml primary_node primary_node world
      (final (save_colo_status primary_node world)) (pos 0) status_run

pub parse_run : vm_config_parse vm_doc ≡ accepted vm_definition
unfolding vm_config_parse colo_manage_tools.Domain.Parse.text_of
    colo_manage_tools.Domain.Parse.int_of colo_manage_tools.Domain.Parse.parse_disk
    colo_manage_tools.Domain.Parse.port_of colo_manage_tools.Domain.Parse.parse_net
    colo_manage_tools.Domain.Parse.parse_pri colo_manage_tools.Domain.Parse.parse_sec
parse_run = refl

vm_config_parse-holds_example :
    HoldsMachine vm_doc vm_definition
    × HoldsDisk (field vm_doc "disk") vm_definition.disk
    × HoldsNet (field vm_doc "net") vm_definition.net
    × HoldsPri (field (field vm_doc "colo") "pri") vm_definition.pri
    × HoldsSec (field (field vm_doc "colo") "sec") vm_definition.sec
    × (sample_yaml.is_scalar vm_doc ≡ false)
    × (sample_yaml.is_scalar (field vm_doc "colo") ≡ false)
vm_config_parse-holds_example = vm_config_parse-holds vm_doc vm_definition parse_run

define_run :
    vm_define "/vms/vm.yaml" "/vms/" world
    ≡ returned (accepted vm_definition) (final (vm_define "/vms/vm.yaml" "/vms/" world))
unfolding vm_define ◌>>=◌ load_file Option.bind at vm_config_parse
    colo_manage_tools.Domain.Parse.text_of colo_manage_tools.Domain.Parse.int_of
    colo_manage_tools.Domain.Parse.parse_disk colo_manage_tools.Domain.Parse.port_of
    colo_manage_tools.Domain.Parse.parse_net colo_manage_tools.Domain.Parse.parse_pri
    colo_manage_tools.Domain.Parse.parse_sec write_file
define_run = refl

vm_define-stored_example :
    (n : Tree) × (Option.bind (world.files "/vms/vm.yaml") sample_yaml.load ≡ some n)
    × (vm_config_parse n ≡ accepted vm_definition)
    × ((vm_definition.name == "save") ≡ false)
    × ((p : String)
        → (final (vm_define "/vms/vm.yaml" "/vms/" world)).files p ≡ (
            if true && (("/vms/" <> vm_definition.name <> ".yaml") == p || false)
            then some n
            else world.files p))
vm_define-stored_example =
    vm_define-stored "/vms/vm.yaml" "/vms/" world (final (vm_define "/vms/vm.yaml" "/vms/" world))
      vm_definition define_run

-- Only the domain that is not shut off is printed.
printed_domains :
    print_domains false (save_doc "running")
    ≡ some (
        "-------------------------------------------\n" <> "       name : vm\n"
        <> "     status : running\n" <> "colo enable : 0\n"
        <> "-------------------------------------------\n")
unfolding print_domains string_at bool_at at
printed_domains = refl
