-- ===== src/Domain/Undefine.antt =====
-- `vm_undefine` erases a name from the table of the save file.
use mathlib.Core.Option
use colo_manage_tools.Prelude.{
  ℤ, String, Bool, false, none, some, List, ◌≡◌, inl, inr, arith, ◌==◌, eq_iff, Option-cases,
  if◌then◌else◌,
}
use colo_manage_tools.Config.{save_file}
use colo_manage_tools.Platform.{Yaml, Os, at}
use colo_manage_tools.Platform.Laws.{IsYaml}
use colo_manage_tools.World.{World, returned, ◌>>=◌, load_file, write_file}
use colo_manage_tools.SaveFile.Document.{undefine_loop}
use colo_manage_tools.SaveFile.Table.{find_entry, is_listed, undefine_loop-items}
use colo_manage_tools.SaveFile.Entries.{find_entry-drop_all, find_entry-unlisted}
use colo_manage_tools.SaveFile.Refines.{saved, saved_items-written, saved_items-read}
use colo_manage_tools.Domain.Files.{vm_undefine}

module _ ⦃Y : Yaml⦄ (L : IsYaml Y) where
  dropped :
      (name k : String) (es : List Y.Node) (kept : Y.Node) (rm colo : Bool)
      → undefine_loop name es Y.empty false false ≡ some (kept, rm, colo)
      → (find_entry k (Y.items kept) ≡ (if name == k then none else find_entry k es))
        × (rm ≡ is_listed name es)
  dropped name k es kept rm colo h = ground (
    arith,
    L.items-null Y.empty L.null-empty,
    undefine_loop-items L name es Y.empty kept false rm false colo (inr (inl L.null-empty)) h,
    find_entry-drop_all name k es,
  )

module _ ⦃Y : Yaml⦄ ⦃O : Os⦄ (L : IsYaml Y) where
  -- After a return of `vm_undefine` the table of the save file has no entry of the name, and every
  -- other entry as before, also where it answers that there was no such entry; yaml-cpp must meet its laws.
  pub vm_undefine-saved :
      (name : String) (w w' : World) (r : ℤ) (err : String)
      → vm_undefine name w ≡ returned (r, err) w'
      → (k : String) → saved w' k ≡ (if name == k then none else saved w k)
  unfolding vm_undefine load_file write_file at ◌>>=◌
  vm_undefine-saved name w w' r err h k =
      elim (Option-cases (Option.bind (w.files save_file) Y.load)) [
        | inr bad ↦ ground (arith, bad)
        | inl (sf, good) ↦
            let es = Y.items (Y.field sf "domains") in
            elim (Option-cases (undefine_loop name es Y.empty false false)) [
              | inr bad ↦ ground (arith, good, bad)
              | inl ((kept, rm, colo), loop) ↦ ground (
                arith,
                good,
                loop,
                saved_items-read L w sf good,
                saved_items-written L w sf kept,
                dropped L name k es kept rm colo loop,
                find_entry-unlisted name es,
                eq_iff name k,
              )
            ]
      ]
