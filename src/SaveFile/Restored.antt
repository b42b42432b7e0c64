-- ===== src/SaveFile/Restored.antt =====
-- What a restart of the daemon reads back from the save file.
use mathlib.Core.Option
use colo_manage_tools.Prelude.{
  ℤ, pos, minus_one, String, false, some, List, [], ◌∷◌, map, ◌≡◌, refl, sym, arith, inl, inr,
  Option-cases, Bool-cases, if◌then◌else◌,
}
use colo_manage_tools.Config.{
  ColoDomainStatus, ColoStatus, save_file, domain_status, colo_domain_status,
}
use colo_manage_tools.Platform.{Yaml, Os, ColodDomainStatus, at, set_at}
use colo_manage_tools.Platform.Laws.{IsYaml}
use colo_manage_tools.Domains
use colo_manage_tools.Domains.{Domains}
use colo_manage_tools.World.{World, is_same, returned, ◌>>=◌, load_file, write_file}
use colo_manage_tools.SaveFile.{save_colo_status, get_connect_status, domains_init}
use colo_manage_tools.SaveFile.Document.{
  status_node, with_status, read_status, domain_node, string_at, int_at, bool_at, init_loop,
}
use colo_manage_tools.SaveFile.Refines.{saved, saved_items, saved_items-read}

-- The record of a domain whose entry in the save file is the one of a definition.
abbrev pub restored : ColodDomainStatus → ColodDomainStatus
restored ds = record {
  pid = minus_one;
  name = ds.name;
  status = domain_status ds.name;
  colo_enable = false;
  colo_status = ColoDomainStatus.none;
  config_file_path = "";
}

abbrev pub restore_all : List ColodDomainStatus → Domains → Domains
restore_all [] ds_map = ds_map
restore_all (ds ∷ rest) ds_map = restore_all rest (Domains.insert ds.name (restored ds) ds_map)

module _ ⦃Y : Yaml⦄ (L : IsYaml Y) where
  -- The loop of `domains_init`.
  pub init_loop-restored :
      (saves : List ColodDomainStatus) (ds_map : Domains)
      → init_loop (map domain_node saves) ds_map ≡ some (restore_all saves ds_map)
  unfolding init_loop string_at int_at bool_at at domain_node colo_domain_status
  init_loop-restored [] ds_map = refl
  init_loop-restored (ds ∷ rest) ds_map = simp (
    L.scalar-set_field,
    L.field-set_field,
    L.string-of_string,
    L.int-of_int,
    L.bool-of_bool,
    init_loop-restored rest,
  )

  no_entries :
      (saves : List ColodDomainStatus) (ds_map : Domains)
      → map domain_node saves ≡ []
      → restore_all saves ds_map ≡ ds_map
  no_entries [] ds_map h = refl
  no_entries (ds ∷ rest) ds_map h = absurd (ground (arith, h))

  read-with_status :
      (cs old : ColoStatus) (sf sf' : Y.Node)
      → with_status cs sf ≡ some sf'
      → read_status sf' old ≡ some (record cs { local_status = old.local_status; port = old.port })
  unfolding with_status read_status status_node string_at at set_at
  read-with_status cs old sf sf' h =
      let e : Y.set_field sf "save_status" (status_node cs) ≡ sf' = ground (arith, h) in
      rw (sym e) (simp (L.scalar-set_field, L.field-set_field, L.string-of_string))

module _ ⦃Y : Yaml⦄ ⦃O : Os⦄ (L : IsYaml Y) where
  -- What `save_colo_status` wrote is what `get_connect_status` reads: all fields of the status but the
  -- role of the node and the port, which the reader leaves as they were; and no entry of a domain in the
  -- save file is changed by it; yaml-cpp must
  -- meet its laws.
  pub get_connect_status-save_colo_status :
      (cs old : ColoStatus) (w w' : World) (r : ℤ)
      → save_colo_status cs w ≡ returned r w'
      → (get_connect_status old w'
          ≡ returned (pos 0, record cs { local_status = old.local_status; port = old.port }) w')
        × ((k : String) → saved w' k ≡ saved w k)
  unfolding save_colo_status get_connect_status with_status set_at load_file write_file saved_items
      Option.bind ◌>>=◌
  get_connect_status-save_colo_status cs old w w' r h =
      elim (Option-cases (Option.bind (w.files save_file) Y.load)) [
        | inr bad ↦ absurd (ground (arith, bad))
        | inl (sf, good) ↦ elim (Bool-cases (Y.is_scalar sf)) [
          | inl bad ↦ absurd (ground (arith, good, bad))
          | inr map_e ↦
              let sf' = Y.set_field sf "save_status" (status_node cs) in
              let made : with_status cs sf ≡ some sf' = ground (arith, map_e) in
              let left : w' ≡ record w {
                files = λ p. if is_same save_file p then some (Y.emit sf') else w.files p;
              } =
                ground (arith, good, map_e) in
              let reads = read-with_status L cs old sf sf' made in
              let same = L.field-set_field sf (status_node cs) "save_status" "domains" in
              (
                rw (left, L.load-emit, reads) refl,
                λ k. rw (left, L.load-emit, same, saved_items-read L w sf good) refl,
              )
        ]
      ]

  -- `domains_init` on a save file whose entries are those that definitions wrote answers 0 and puts a
  -- record under the name of each, in order; its pid is -1 and it has no role, but its status is
  -- the one that the text of its name stands for, `shut_off` for a text that stands for none, and its
  -- path is empty; yaml-cpp must
  -- meet its laws.
  pub domains_init-restored :
      (saves : List ColodDomainStatus) (w : World) (sf : Y.Node)
      → Option.bind (w.files save_file) Y.load ≡ some sf
      → Y.is_scalar sf ≡ false
      → Y.items (Y.field sf "domains") ≡ map domain_node saves
      → domains_init w ≡ returned (pos 0) (record w { domains = restore_all saves w.domains })
  unfolding domains_init load_file at ◌>>=◌
  domains_init-restored saves w sf good map_e e =
      let doms = Y.field sf "domains" in
      ground (
        arith,
        good,
        map_e,
        e,
        init_loop-restored L saves w.domains,
        L.items-undefined doms,
        L.items-null doms,
        no_entries L saves w.domains,
      )
