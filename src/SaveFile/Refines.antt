-- ===== src/SaveFile/Refines.antt =====
-- The functions on the save file implement a table from names to entries.
use mathlib.Core.Option
use colo_manage_tools.Prelude.{
  pos, String, Bool, true, false, Option, none, some, List, [], ◌≡◌, refl, arith, ◌==◌, eq_iff,
  eq_refl, Option-cases, inl, inr, if◌then◌else◌,
}
use colo_manage_tools.Config.{save_file}
use colo_manage_tools.Platform.{Yaml, Os, ColodDomainStatus, at}
use colo_manage_tools.Platform.Laws.{IsYaml, IsOpen}
use colo_manage_tools.World.{World, is_same, returned, ◌>>=◌, load_file, write_file}
use colo_manage_tools.SaveFile.Document.{string_at, domain_node, redefine_loop}
use colo_manage_tools.SaveFile.{save_domain_info}
use colo_manage_tools.SaveFile.Table.{named, find_entry, replace_all, redefine_loop-items}
use colo_manage_tools.SaveFile.Entries.{
  find_entry-replace_all, find_entry-append, find_entry-unlisted, named-named,
}

module _ ⦃Y : Yaml⦄ where
  pub named-domain_node :
      IsYaml Y → (ds : ColodDomainStatus) → named ds.name (domain_node ds) ≡ true
  unfolding named string_at domain_node
  named-domain_node L ds = simp (L.scalar-set_field, L.field-set_field, L.string-of_string, eq_refl)

module _ ⦃Y : Yaml⦄ ⦃O : Os⦄ where
  -- The entries of the save file; a file that cannot be read has none.
  unfoldable pub saved_items : World → List Y.Node
  saved_items w = elim (Option.bind (w.files save_file) Y.load) [
    | none ↦ []
    | some sf ↦ Y.items (Y.field sf "domains")
  ]

  -- The save file as a table.
  abbrev pub saved : World → String → Option Y.Node
  saved w k = find_entry k (saved_items w)

  -- The world after the save file was written with the list `doms`.
  abbrev pub written : World → Y.Node → Y.Node → World
  written w sf doms = record w {
    files = λ p.
        if is_same save_file p then some (Y.emit (Y.set_field sf "domains" doms)) else w.files p;
  }

  module _ (L : IsYaml Y) where
    pub saved_items-written :
        (w : World) (sf doms : Y.Node) → saved_items (written w sf doms) ≡ Y.items doms
    unfolding saved_items Option.bind
    saved_items-written w sf doms = rw L.load-emit (rw L.field-set_field refl)

    pub saved_items-read :
        (w : World) (sf : Y.Node)
        → Option.bind (w.files save_file) Y.load ≡ some sf
        → saved_items w ≡ Y.items (Y.field sf "domains")
    unfolding saved_items
    saved_items-read w sf e = rw (e, saved_items)

    -- The list that `save_domain_info` writes, in the two cases of the code.
    fresh-saved :
        (ds : ColodDomainStatus) (doms : Y.Node) (k : String)
        → IsOpen Y doms
        → Y.items doms ≡ []
        → find_entry k (Y.items (Y.push_back doms (domain_node ds)))
          ≡ (if ds.name == k then some (domain_node ds) else find_entry k (Y.items doms))
    fresh-saved ds doms k o e = ground (
      arith,
      L.items-push_back doms (domain_node ds) o,
      named-domain_node L ds,
      named-named ds.name k (domain_node ds),
    )

    loop-saved :
        (ds : ColodDomainStatus) (doms doms' : Y.Node) (redefined : Bool) (k : String)
        → Y.is_sequence doms ≡ true
        → redefine_loop ds.name (domain_node ds) (Y.items doms) 0 doms false
          ≡ some (doms', redefined)
        → find_entry k (Y.items (if redefined then doms' else Y.push_back doms' (domain_node ds)))
          ≡ (if ds.name == k then some (domain_node ds) else find_entry k (Y.items doms))
    loop-saved ds doms doms' redefined k s h =
        let es = Y.items doms in
        let dom = domain_node ds in
        let es' = replace_all ds.name dom es in
        ground (
          arith,
          redefine_loop-items L ds.name dom [] es 0 doms doms' false redefined refl s refl h,
          L.items-push_back doms' dom,
          find_entry-append k dom es',
          find_entry-unlisted k es',
          find_entry-unlisted ds.name es,
          find_entry-replace_all ds.name k dom es (named-domain_node L ds),
          named-domain_node L ds,
          named-named ds.name k dom,
          eq_iff ds.name k,
        )

    -- After `save_domain_info` that answers 0 the table of the save file has the entry of the new
    -- record under its name, and every other name has its entry as before; yaml-cpp must meet its laws.
    pub save_domain_info-saved :
        (ds : ColodDomainStatus) (w w' : World) (err : String)
        → save_domain_info ds w ≡ returned (pos 0, err) w'
        → (k : String) → saved w' k ≡ (if ds.name == k then some (domain_node ds) else saved w k)
    unfolding save_domain_info load_file write_file at ◌>>=◌
    save_domain_info-saved ds w w' err h k =
        elim (Option-cases (Option.bind (w.files save_file) Y.load)) [
          | inr bad ↦ ground (arith, bad)
          | inl (sf, good) ↦
              let doms = Y.field sf "domains" in
              elim (Option-cases
                (redefine_loop ds.name (domain_node ds) (Y.items doms) 0 doms false)) [
                  | inr bad ↦ ground (
                    arith,
                    good,
                    bad,
                    saved_items-read w sf good,
                    saved_items-written w sf (Y.push_back doms (domain_node ds)),
                    fresh-saved ds doms k,
                    L.items-null doms,
                    L.items-undefined doms,
                  )
                  | inl ((doms', redefined), loop) ↦ ground (
                    arith,
                    good,
                    loop,
                    saved_items-read w sf good,
                    saved_items-written w sf (Y.push_back doms (domain_node ds)),
                    saved_items-written w sf
                        (if redefined then doms' else Y.push_back doms' (domain_node ds)),
                    fresh-saved ds doms k,
                    loop-saved ds doms doms' redefined k,
                    L.items-null doms,
                    L.items-undefined doms,
                  )
                ]
        ]
