-- ===== src/SaveFile/Reload/Memory.antt =====
-- A restart of the daemon takes the table of the save file into its memory.
use mathlib.Core.Option
use colo_manage_tools.Prelude.{
  ℤ, String, not, ◌||◌, [], ◌≡◌, refl, arith, Option-cases, Bool-cases, inl, inr,
}
use colo_manage_tools.Config.{save_file}
use colo_manage_tools.Platform.{Yaml, Os, at}
use colo_manage_tools.Platform.Laws.{IsYaml}
use colo_manage_tools.Domains
use colo_manage_tools.World.{World, returned, ◌>>=◌, load_file}
use colo_manage_tools.SaveFile.{domains_init}
use colo_manage_tools.SaveFile.Document.{init_loop}
use colo_manage_tools.SaveFile.Refines.{saved, saved_items, saved_items-read}
use colo_manage_tools.SaveFile.Distinct.Tables.{HasTable}
use colo_manage_tools.SaveFile.Reload.{reloaded_or, init_loop-reloaded, find_last-find_entry}

module _ ⦃Y : Yaml⦄ ⦃O : Os⦄ (L : IsYaml Y) where
  -- A `domains_init` that comes to its end makes the table of the save file the one in memory: it
  -- has under each name of the save file the record that the entry stands for, and what it had before
  -- under every other name; nothing else is changed. The save file must have a list of
  -- entries of which no two have the same name, and yaml-cpp must meet its laws.
  pub domains_init-reloaded :
      (w w' : World) (r : ℤ)
      → domains_init w ≡ returned r w'
      → HasTable w
      → (w' ≡ record w { domains = w'.domains })
        × ((k : String)
            → Domains.lookup k w'.domains ≡ reloaded_or (Domains.lookup k w.domains) (saved w k))
  unfolding domains_init load_file at ◌>>=◌
  domains_init-reloaded w w' r h table =
      elim (Option-cases (Option.bind (w.files save_file) Y.load)) [
        | inr bad ↦ absurd (ground (arith, h, bad))
        | inl (sf, good) ↦ elim (Bool-cases (Y.is_scalar sf)) [
          | inl bad ↦ absurd (ground (arith, h, good, bad))
          | inr map_e ↦
              let doms = Y.field sf "domains" in
              let es_e : saved_items w ≡ Y.items doms = saved_items-read L w sf good in
              elim (Bool-cases (not (Y.is_defined doms) || Y.is_null doms)) [
                | inl stop ↦
                    let empty : Y.items doms ≡ [] =
                      ground (arith, stop, L.items-undefined doms, L.items-null doms) in
                    let same : w' ≡ w = ground (arith, h, good, map_e, stop) in
                    (rw same refl, λ k. rw (same, es_e, empty) refl)
                | inr goes ↦ elim (Option-cases (init_loop (Y.items doms) w.domains)) [
                  | inr bad ↦ absurd (ground (arith, h, good, map_e, goes, bad))
                  | inl (ds_map, ran) ↦
                      let left : w' ≡ record w { domains = ds_map } =
                        ground (arith, h, good, map_e, goes, ran) in
                      (
                        rw left refl,
                        λ k.
                            rw (left, init_loop-reloaded k (Y.items doms) w.domains ds_map ran)
                              (rw
                                (
                                  find_last-find_entry k (Y.items doms) (table.table sf good).1,
                                  es_e,
                                )
                                refl),
                      )
                ]
              ]
        ]
      ]
