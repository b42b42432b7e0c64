-- ===== src/Service/Define/Restarted.antt =====
-- A definition after a restart of the daemon.
use mathlib.Core.Option
use mathlib.Core.Path.{subst}
use colo_manage_tools.Prelude.{ℤ, pos, String, some, ◌≡◌, ap, ◌∙◌}
use colo_manage_tools.Config.{save_file, colo_domain_status}
use colo_manage_tools.Platform.{Yaml, Os, ColodDomainStatus, RetVal, at}
use colo_manage_tools.Platform.Laws.{IsYaml}
use colo_manage_tools.Domains
use colo_manage_tools.World.{World, returned}
use colo_manage_tools.World.Keeps.{final}
use colo_manage_tools.SaveFile.{domains_init}
use colo_manage_tools.SaveFile.Document.{domain_node, string_at, int_at, bool_at}
use colo_manage_tools.SaveFile.Refines.{saved, saved_items}
use colo_manage_tools.SaveFile.Table.{find_entry}
use colo_manage_tools.SaveFile.Restored.{restored}
use colo_manage_tools.SaveFile.Reload.{reloaded}
use colo_manage_tools.SaveFile.Reload.Memory.{domains_init-reloaded}
use colo_manage_tools.SaveFile.Distinct.Tables.{HasTable, HasTable-same}
use colo_manage_tools.Domain.{Domain}
use colo_manage_tools.Domain.Parse.{accepted, vm_config_parse}
use colo_manage_tools.Service.Define.{defined_status, colod_define}
use colo_manage_tools.Service.Define.Listed.{colod_define-listed}
use colo_manage_tools.Service.Tables.Serve.{IsOutside, Table-define}

module _ ⦃Y : Yaml⦄ (L : IsYaml Y) where
  reloaded-domain_node : (ds : ColodDomainStatus) → reloaded (domain_node ds) ≡ some (restored ds)
  unfolding domain_node string_at int_at bool_at at colo_domain_status
  reloaded-domain_node ds =
      simp (L.scalar-set_field, L.field-set_field, L.string-of_string, L.int-of_int, L.bool-of_bool)

module _ ⦃Y : Yaml⦄ ⦃O : Os⦄ where
  saved-same :
      (w v : World) (k : String) → w.files save_file ≡ v.files save_file → saved v k ≡ saved w k
  unfolding saved_items
  saved-same w v k e =
      let same : saved_items v ≡ saved_items w = cc in ap (λ es. find_entry k es) same

  -- The domain that a file defines, whose definition was answered with 0, is there after a restart that
  -- reads the save file which the definition left: the record of its name has no pid and no role, as
  -- before, but the status that the text of the name stands for, and an empty path. The save file
  -- before the definition must have a list of entries of which no two have the same name, the
  -- definition must not have a name that leads to the save file, and yaml-cpp must meet its laws.
  pub colod_define-restarted :
      (L : IsYaml Y) (path : String) (w w' v v' : World) (ret : RetVal) (r : ℤ)
      → HasTable w
      → IsOutside w path
      → colod_define path w ≡ returned ret w'
      → ret.code ≡ pos 0
      → w'.files save_file ≡ v.files save_file
      → domains_init v ≡ returned r v'
      → (doc : Y.Node) × (d : Domain) × (Option.bind (w.files path) Y.load ≡ some doc)
        × (vm_config_parse doc ≡ accepted d)
        × (Domains.lookup d.name w'.domains
            ≡ some (defined_status d.name w.current_status.host_file_path))
        × (Domains.lookup d.name v'.domains
            ≡ some (restored (defined_status d.name w.current_status.host_file_path)))
  colod_define-restarted L path w w' v v' ret r h apart ran ok left start =
      let (doc, d, loads, parses, here, stored) = colod_define-listed L path w w' ret ran ok in
      let ds = defined_status d.name w.current_status.host_file_path in
      let kept : HasTable w' = subst HasTable (ap final ran) (Table-define L path w apart h) in
      let there : saved v d.name ≡ some (domain_node ds) = saved-same w' v d.name left ∙ stored in
      (
        doc,
        d,
        loads,
        parses,
        here,
        (domains_init-reloaded L v v' r start (HasTable-same w' v left kept)).1 d.name
            ∙ rw there (reloaded-domain_node L ds),
      )
