-- ===== src/SaveFile/Marked.antt =====
-- What the loops that change one entry do to the table of the save file.
use mathlib.Core.Option
use colo_manage_tools.Prelude.{
  ℤ, String, true, false, Option, some, [], ◌≡◌, ◌⊎◌, refl, arith, ◌==◌, inl, inr, if◌then◌else◌,
}
use colo_manage_tools.Config.{ColoDomainStatus}
use colo_manage_tools.Platform.{Yaml, at}
use colo_manage_tools.Platform.Laws.{IsYaml}
use colo_manage_tools.SaveFile.Document.{
  string_at, mark_loop, mark_running, mark_shut_off, flag_loop, mark_colo, unmark_colo,
}
use colo_manage_tools.SaveFile.Table.{named, find_entry, mark_loop-items, flag_loop-items}
use colo_manage_tools.SaveFile.Entries.{find_entry-change_first}

module _ ⦃Y : Yaml⦄ where
  -- A list in the save file: a sequence, or a node with no items.
  abbrev pub IsList : Y.Node → Type 0
  IsList n = (Y.is_sequence n ≡ true) ⊎ (Y.items n ≡ [])

module _ ⦃Y : Yaml⦄ (L : IsYaml Y) where
  named-set_field :
      (k key : String) (e v : Y.Node)
      → (key == "name") ≡ false
      → named k e ≡ true
      → named k (Y.set_field e key v) ≡ true
  unfolding named string_at at
  named-set_field k key e v h n =
      ground (arith, L.scalar-set_field e v key, L.field-set_field e v key "name")

  pub named-mark_running :
      (k : String) (pid : ℤ) (e : Y.Node) → named k e ≡ true → named k (mark_running pid e) ≡ true
  named-mark_running k pid e h =
      named-set_field k "status" _ _ refl (named-set_field k "pid" e _ refl h)

  pub named-mark_shut_off :
      (k : String) (e : Y.Node) → named k e ≡ true → named k (mark_shut_off e) ≡ true
  named-mark_shut_off k e h =
      named-set_field k "status" _ _ refl (named-set_field k "pid" e _ refl h)

  pub named-mark_colo :
      (k : String) (cds : ColoDomainStatus) (e : Y.Node)
      → named k e ≡ true
      → named k (mark_colo cds e) ≡ true
  named-mark_colo k cds e h =
      named-set_field k "colo_status" _ _ refl (named-set_field k "colo_enable" e _ refl h)

  pub named-unmark_colo :
      (k : String) (e : Y.Node) → named k e ≡ true → named k (unmark_colo e) ≡ true
  named-unmark_colo k e h = named-set_field k "colo_enable" e _ refl h

  module _ (name : String) (change : Y.Node → Y.Node) (k : String) where
    abbrev pub changed_at : Y.Node → Option Y.Node
    changed_at doms =
        if name == k
        then Option.map change (find_entry name (Y.items doms))
        else find_entry k (Y.items doms)

    pub marked :
        ((e : Y.Node) → named name e ≡ true → named name (change e) ≡ true)
        → (doms doms' : Y.Node) → IsList doms
        → mark_loop name change (Y.items doms) 0 doms ≡ some doms'
        → find_entry k (Y.items doms') ≡ changed_at doms
    unfolding mark_loop
    marked keeps doms doms' (inr e) h =
        let h' : mark_loop name change [] 0 doms ≡ some doms' = rw e at h in ground (arith, h')
    marked keeps doms doms' (inl s) h = ground (
      arith,
      mark_loop-items L name change [] (Y.items doms) 0 doms doms' refl s refl h,
      find_entry-change_first name k change (Y.items doms) keeps,
    )

    pub flagged :
        ((e : Y.Node) → named name e ≡ true → named name (change e) ≡ true)
        → (doms doms' : Y.Node) → IsList doms
        → flag_loop name change (Y.items doms) 0 doms ≡ some (some doms')
        → find_entry k (Y.items doms') ≡ changed_at doms
    unfolding flag_loop
    flagged keeps doms doms' (inr e) h =
        let h' : flag_loop name change [] 0 doms ≡ some (some doms') = rw e at h in
        ground (arith, h')
    flagged keeps doms doms' (inl s) h = ground (
      arith,
      flag_loop-items L name change [] (Y.items doms) 0 doms doms' refl s refl h,
      find_entry-change_first name k change (Y.items doms) keeps,
    )
