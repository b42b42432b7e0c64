-- ===== src/Tests/Tables.antt =====
-- Sample runs on a save file whose entries have different names, and a restart.
use mathlib.Core.Option
use colo_manage_tools.Prelude.{pos, String, some, [], ◌≡◌, refl, inl, arith}
use colo_manage_tools.Config.{DomainStatus, ColoDomainStatus}
use colo_manage_tools.Platform.{at}
use colo_manage_tools.Platform.Sample.{Tree, sample_yaml, sample_yaml-IsYaml}
use colo_manage_tools.Platform.Sample.Machine.{sample_os}
use colo_manage_tools.Domains
use colo_manage_tools.World.{World, returned, ◌>>=◌, load_file, write_file, set_domain}
use colo_manage_tools.World.Keeps.{final}
use colo_manage_tools.SaveFile.{save_domain_info, write_domains, domains_init}
use colo_manage_tools.SaveFile.Document.{
  string_at, int_at, bool_at, domain_node, redefine_loop, init_loop,
}
use colo_manage_tools.SaveFile.Table.{named}
use colo_manage_tools.SaveFile.Refines.{saved}
use colo_manage_tools.SaveFile.Restored.{restored}
use colo_manage_tools.SaveFile.Reload.{reloaded_or}
use colo_manage_tools.SaveFile.Reload.Memory.{domains_init-reloaded}
use colo_manage_tools.SaveFile.Distinct.Tables.{HasTable, HasTable-read}
use colo_manage_tools.Domain.{Domain}
use colo_manage_tools.Domain.Parse.{
  accepted, vm_config_parse, text_of, int_of, port_of, child, scalar_child, parse_disk, parse_net,
  parse_pri, parse_sec,
}
use colo_manage_tools.Domain.Files.{vm_define, save_new_vm_file}
use colo_manage_tools.Service.Define.{defined_status, colod_define}
use colo_manage_tools.Service.Define.Restarted.{colod_define-restarted}
use colo_manage_tools.Service.Peer.{Call, serve}
use colo_manage_tools.Service.Tables.Serve.{IsOutside, serve-HasTable}
use colo_manage_tools.Tests.Data.{node, machine, vm_record, save_doc, vm_doc, value, no_answer}

abbrev world : World
world = record (node "shutoff" machine (vm_record DomainStatus.shut_off ColoDomainStatus.none)) {
  domains = [];
}

world-HasTable : HasTable world
unfolding Option.bind named string_at at
world-HasTable = HasTable-read world (save_doc "shutoff") refl (inl refl, refl)

-- The definition has the name `vm`.
world-IsOutside : IsOutside world "/vms/vm.yaml"
unfolding Option.bind string_at at
world-IsOutside doc name loads read =
    let doc_e : vm_doc ≡ doc = ground (arith, loads) in
    let name_e : "vm" ≡ name = ground (arith, read, doc_e) in rw (← name_e) refl

abbrev defined : World
defined = final (colod_define "/vms/vm.yaml" world)

abbrev restarted : World
restarted = record world { files = defined.files }

define_run :
    (colod_define "/vms/vm.yaml" world
      ≡ returned (value no_answer (colod_define "/vms/vm.yaml" world)) defined)
    × ((value no_answer (colod_define "/vms/vm.yaml" world)).code ≡ pos 0)
    × (domains_init restarted ≡ returned (pos 0) (final (domains_init restarted)))
unfolding colod_define ◌>>=◌ vm_define save_new_vm_file load_file write_file Option.bind at
    vm_config_parse text_of int_of port_of child scalar_child parse_disk parse_net parse_pri
    parse_sec save_domain_info write_domains redefine_loop string_at set_domain domains_init
    init_loop int_at bool_at domain_node
define_run = (refl, refl, refl)

colod_define-restarted_example :
    (doc : Tree) × (d : Domain) × (Option.bind (world.files "/vms/vm.yaml") sample_yaml.load
      ≡ some doc)
    × (vm_config_parse doc ≡ accepted d)
    × (Domains.lookup d.name defined.domains ≡ some (defined_status d.name "/vms/"))
    × (Domains.lookup d.name (final (domains_init restarted)).domains
        ≡ some (restored (defined_status d.name "/vms/")))
colod_define-restarted_example =
    colod_define-restarted sample_yaml-IsYaml "/vms/vm.yaml" world defined restarted
      (final (domains_init restarted)) (value no_answer (colod_define "/vms/vm.yaml" world)) (pos 0)
      world-HasTable world-IsOutside define_run.0 define_run.1 refl define_run.2

serve-HasTable_example : HasTable (final (serve (Call.define "/vms/vm.yaml") world))
serve-HasTable_example =
    serve-HasTable sample_yaml-IsYaml (Call.define "/vms/vm.yaml") world world-IsOutside
      world-HasTable

init_run : domains_init world ≡ returned (pos 0) (final (domains_init world))
unfolding domains_init load_file Option.bind at init_loop string_at int_at bool_at ◌>>=◌
init_run = refl

domains_init-reloaded_example :
    (final (domains_init world) ≡ record world { domains = (final (domains_init world)).domains })
    × ((k : String)
        → Domains.lookup k (final (domains_init world)).domains
          ≡ reloaded_or (Domains.lookup k []) (saved world k))
domains_init-reloaded_example =
    domains_init-reloaded sample_yaml-IsYaml world (final (domains_init world)) (pos 0) init_run
      world-HasTable
