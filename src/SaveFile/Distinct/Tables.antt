-- ===== src/SaveFile/Distinct/Tables.antt =====
-- The lists of entries that the loops of src/utils/config_parser.cpp and src/utils/domain.cpp leave.
use mathlib.Core.Option
use mathlib.Core.Path.{subst}
use colo_manage_tools.Prelude.{
  String, Bool, true, false, not, ◌||◌, [], ◌≡◌, refl, ap, some, ◌∙◌, arith, Bool-cases, inl, inr,
  if◌then◌else◌,
}
use colo_manage_tools.World.{World}
use colo_manage_tools.World.Filed.{IsFiled}
use colo_manage_tools.Config.{save_file}
use colo_manage_tools.Platform.{Yaml, Os, ColodDomainStatus}
use colo_manage_tools.Platform.Laws.{IsYaml, IsOpen}
use colo_manage_tools.SaveFile.Document.{
  domain_node, mark_loop, flag_loop, redefine_loop, undefine_loop,
}
use colo_manage_tools.SaveFile.Table.{
  named, is_listed, replace_all, drop_all, mark_loop-items, flag_loop-items, redefine_loop-items,
  undefine_loop-items,
}
use colo_manage_tools.SaveFile.Marked.{IsList}
use colo_manage_tools.Domain.Total.{undefine_loop-IsList}
use colo_manage_tools.SaveFile.Intact.{mark_loop-sequence, flag_loop-sequence}
use colo_manage_tools.SaveFile.Refines.{named-domain_node}
use colo_manage_tools.SaveFile.Reload.{are_distinct}
use colo_manage_tools.SaveFile.Distinct.{
  is_listed-replace_all, change_first-distinct, replace_all-distinct, append-distinct,
  drop_all-distinct,
}

module _ ⦃Y : Yaml⦄ where
  -- A list of entries that have different names.
  abbrev pub IsTable : Y.Node → Type 0
  IsTable doms = IsList doms × (are_distinct (Y.items doms) ≡ true)

  module _ (L : IsYaml Y) (name : String) (change : Y.Node → Y.Node)
      (keeps : (e : Y.Node) → named name e ≡ true → named name (change e) ≡ true) where
    pub marked-IsTable :
        (doms doms' : Y.Node)
        → IsTable doms
        → mark_loop name change (Y.items doms) 0 doms ≡ some doms'
        → IsTable doms'
    unfolding mark_loop
    marked-IsTable doms doms' (inr e, d) ran =
        let ran' : mark_loop name change [] 0 doms ≡ some doms' = rw e at ran in
        let same : doms ≡ doms' = ground (arith, ran') in subst IsTable same (inr e, d)
    marked-IsTable doms doms' (inl s, d) ran = (
      inl (mark_loop-sequence L name change (Y.items doms) 0 doms doms' s ran),
      rw (mark_loop-items L name change [] (Y.items doms) 0 doms doms' refl s refl ran)
          (change_first-distinct name change keeps (Y.items doms) ∙ d),
    )

    pub flagged-IsTable :
        (doms doms' : Y.Node)
        → IsTable doms
        → flag_loop name change (Y.items doms) 0 doms ≡ some (some doms')
        → IsTable doms'
    unfolding flag_loop
    flagged-IsTable doms doms' (inr e, d) ran =
        let ran' : flag_loop name change [] 0 doms ≡ some (some doms') = rw e at ran in
        let same : doms ≡ doms' = ground (arith, ran') in subst IsTable same (inr e, d)
    flagged-IsTable doms doms' (inl s, d) ran = (
      inl (flag_loop-sequence L name change (Y.items doms) 0 doms doms' s ran),
      rw (flag_loop-items L name change [] (Y.items doms) 0 doms doms' refl s refl ran)
          (change_first-distinct name change keeps (Y.items doms) ∙ d),
    )

  pub unset-IsOpen :
      (doms : Y.Node) → (not (Y.is_defined doms) || Y.is_null doms) ≡ true → IsOpen Y doms
  unset-IsOpen doms h = elim (Bool-cases (Y.is_null doms)) [
    | inl empty ↦ inr (inl empty)
    | inr other ↦ inr (inr (ground (arith, h, other)))
  ]

  module _ (L : IsYaml Y) (ds : ColodDomainStatus) (doms : Y.Node) where
    abbrev added : Y.Node → Y.Node
    added n = Y.push_back n (domain_node ds)

    pub pushed-IsTable : IsOpen Y doms → Y.items doms ≡ [] → IsTable (added doms)
    pushed-IsTable o empty = (
      inl (L.sequence-push_back doms (domain_node ds) o),
      rw (L.items-push_back doms (domain_node ds) o, empty)
          (append-distinct ds.name (domain_node ds) [] (named-domain_node L ds) refl refl),
    )

    pub redefined-IsTable :
        (doms' : Y.Node) (redefined : Bool)
        → Y.is_sequence doms ≡ true
        → are_distinct (Y.items doms) ≡ true
        → redefine_loop ds.name (domain_node ds) (Y.items doms) 0 doms false
          ≡ some (doms', redefined)
        → IsTable (if redefined then doms' else added doms')
    redefined-IsTable doms' redefined s d ran =
        let dom = domain_node ds in
        let n = named-domain_node L ds in
        let es = Y.items doms in
        let (items, listed, s') =
          redefine_loop-items L ds.name dom [] es 0 doms doms' false redefined refl s refl ran in
        let d' : are_distinct (replace_all ds.name dom es) ≡ true =
          replace_all-distinct ds.name dom n es ∙ d in
        elim (Bool-cases redefined) [
          | inl done ↦ rw done (inl s', rw items d')
          | inr new ↦
              let unlisted : is_listed ds.name (replace_all ds.name dom es) ≡ false =
                ground (arith, new, listed, is_listed-replace_all ds.name dom n ds.name es) in
              rw new (
                inl (L.sequence-push_back doms' dom (inl s')),
                rw (L.items-push_back doms' dom (inl s'), items)
                    (append-distinct ds.name dom _ n unlisted d'),
              )
        ]

  pub dropped-IsTable :
      IsYaml Y
      → (name : String) (doms kept : Y.Node) (rm colo : Bool) → IsTable doms
      → undefine_loop name (Y.items doms) Y.empty false false ≡ some (kept, rm, colo)
      → IsTable kept
  dropped-IsTable L name doms kept rm colo t ran =
      let es = Y.items doms in
      let o : IsOpen Y Y.empty = inr (inl L.null-empty) in
      let none_kept = L.items-null Y.empty L.null-empty in
      let items : Y.items kept ≡ drop_all name es =
        (undefine_loop-items L name es Y.empty kept false rm false colo o ran).0
        ∙ rw none_kept refl in
      (
        undefine_loop-IsList L name es Y.empty kept false rm false colo o (inr none_kept) ran,
        rw items (drop_all-distinct name es t.1),
      )

module _ ⦃Y : Yaml⦄ ⦃O : Os⦄ where
  -- The save file, where it can be read, has such a list.
  pub record HasTable (w : World) : Type 0 where
    pub table :
        (sf : Y.Node)
        → Option.bind (w.files save_file) Y.load ≡ some sf
        → IsTable (Y.field sf "domains")

  pub HasTable-read :
      (w : World) (sf : Y.Node)
      → Option.bind (w.files save_file) Y.load ≡ some sf
      → IsTable (Y.field sf "domains")
      → HasTable w
  HasTable-read w sf read t = record {
    table = λ sf' loads.
        let same : sf ≡ sf' = ground (arith, read, loads) in
        subst (λ n. IsTable (Y.field n "domains")) same t;
  }

  pub HasTable-same :
      (w v : World) → w.files save_file ≡ v.files save_file → HasTable w → HasTable v
  HasTable-same w v e h = record { table = λ sf loads. h.table sf (rw e loads) }

  pub HasTable-IsFiled : IsFiled HasTable
  HasTable-IsFiled = record { same = λ w v e h. HasTable-same w v (ap (λ fs. fs save_file) e) h }
