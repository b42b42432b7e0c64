-- ===== src/SaveFile/Marks.antt =====
-- `save_domain_pid`, `remove_domain_pid`, `set_domain_colo_enable` and `set_domain_colo_disable`
-- change one entry of the table.
use mathlib.Core.Option
use colo_manage_tools.Prelude.{
  ℤ, pos, String, true, Option, none, some, ◌≡◌, arith, ◌==◌, Option-cases, inl, inr, if◌then◌else◌,
}
use colo_manage_tools.Config.{ColoDomainStatus, save_file}
use colo_manage_tools.Platform.{Yaml, Os, at}
use colo_manage_tools.Platform.Laws.{IsYaml}
use colo_manage_tools.World.{
  World, Outcome, returned, pure, ◌>>=◌, ◌>>◌, lift, load_file, write_file,
}
use colo_manage_tools.SaveFile.Document.{
  mark_loop, mark_running, mark_shut_off, flag_loop, mark_colo, unmark_colo,
}
use colo_manage_tools.SaveFile.{
  save_domain_pid, remove_domain_pid, set_domain_colo_enable, set_domain_colo_disable,
}
use colo_manage_tools.SaveFile.Table.{named}
use colo_manage_tools.SaveFile.Refines.{saved_items, saved, saved_items-written, saved_items-read}
use colo_manage_tools.SaveFile.Marked.{
  IsList, named-mark_running, named-mark_shut_off, named-mark_colo, named-unmark_colo, marked,
  flagged,
}

module _ ⦃Y : Yaml⦄ ⦃O : Os⦄ where
  -- The frame that the four functions have in common, for a run that writes the file.
  edit : (Y.Node → Option Y.Node) → World → Outcome ℤ
  unfolding load_file write_file at ◌>>=◌
  edit loop = do
    sf ← load_file save_file
    doms ← lift (at sf "domains")
    doms' ← lift (loop doms)
    write_file save_file (Y.set_field sf "domains" doms')
    pure (pos 0)

  edited :
      (L : IsYaml Y) (loop : Y.Node → Option Y.Node) (w w' : World)
      → edit loop w ≡ returned (pos 0) w'
      → (sf : Y.Node) × (doms' : Y.Node) × (Option.bind (w.files save_file) Y.load ≡ some sf)
        × (loop (Y.field sf "domains") ≡ some doms')
        × (saved_items w ≡ Y.items (Y.field sf "domains"))
        × (saved_items w' ≡ Y.items doms')
  unfolding edit
  edited L loop w w' h = elim (Option-cases (Option.bind (w.files save_file) Y.load)) [
    | inr bad ↦ absurd (ground (arith, bad))
    | inl (sf, good) ↦ elim (Option-cases (loop (Y.field sf "domains"))) [
      | inr bad ↦ absurd (ground (arith, good, bad))
      | inl (doms', ran) ↦ (
        sf,
        doms',
        good,
        ran,
        saved_items-read L w sf good,
        ground (arith, good, ran, saved_items-written L w sf doms'),
      )
    ]
  ]

  -- What the list must be in the world before.
  abbrev pub HasList : World → Type 0
  HasList w =
      (sf : Y.Node)
      → Option.bind (w.files save_file) Y.load ≡ some sf
      → IsList (Y.field sf "domains")

  -- The list that a loop of the flags writes, where it is not stopped at a running domain.
  abbrev unstopped : Option (Option Y.Node) → Option Y.Node
  unstopped none = none
  unstopped (some found) = found

  edit-set_domain_colo_enable :
      (name : String) (cds : ColoDomainStatus) (w w' : World)
      → set_domain_colo_enable name cds w ≡ returned (pos 0) w'
      → edit (λ doms. unstopped (flag_loop name (mark_colo cds) (Y.items doms) 0 doms)) w
        ≡ returned (pos 0) w'
  unfolding set_domain_colo_enable edit ◌>>=◌
  edit-set_domain_colo_enable name cds w w' h = ground arith

  edit-set_domain_colo_disable :
      (name : String) (w w' : World)
      → set_domain_colo_disable name w ≡ returned (pos 0) w'
      → edit (λ doms. unstopped (flag_loop name unmark_colo (Y.items doms) 0 doms)) w
        ≡ returned (pos 0) w'
  unfolding set_domain_colo_disable edit ◌>>=◌
  edit-set_domain_colo_disable name w w' h = ground arith

  edit-remove_domain_pid :
      (name : String) (w w' : World)
      → remove_domain_pid name w ≡ returned (pos 0) w'
      → edit (λ doms. mark_loop name mark_shut_off (Y.items doms) 0 doms) w ≡ returned (pos 0) w'
  unfolding remove_domain_pid edit ◌>>=◌
  edit-remove_domain_pid name w w' h = ground arith

  module _ (L : IsYaml Y) (name : String) (w w' : World) (list : HasList w) where
    edit-mark_loop :
        (change : Y.Node → Y.Node)
        → ((e : Y.Node) → named name e ≡ true → named name (change e) ≡ true)
        → edit (λ doms. mark_loop name change (Y.items doms) 0 doms) w ≡ returned (pos 0) w'
        → (k : String)
        → saved w' k ≡ (if name == k then Option.map change (saved w name) else saved w k)
    edit-mark_loop change keeps h k =
        let (sf, doms', good, ran, before, after) = edited L _ w w' h in
        ground (
          arith,
          before,
          after,
          marked L name change k keeps (Y.field sf "domains") doms' (list sf good) ran,
        )

    edit-flag_loop :
        (change : Y.Node → Y.Node)
        → ((e : Y.Node) → named name e ≡ true → named name (change e) ≡ true)
        → edit (λ doms. unstopped (flag_loop name change (Y.items doms) 0 doms)) w
          ≡ returned (pos 0) w'
        → (k : String)
        → saved w' k ≡ (if name == k then Option.map change (saved w name) else saved w k)
    edit-flag_loop change keeps h k =
        let (sf, doms', good, ran, before, after) = edited L _ w w' h in
        ground (
          arith,
          before,
          after,
          flagged L name change k keeps (Y.field sf "domains") doms' (list sf good)
              (ground (arith, ran)),
        )

    -- After `save_domain_pid` that answers 0 the entry of the domain, if there is one, has the pid
    -- and the status "running", and every other name has its entry as before; the domains of the save
    -- file must be a list, and yaml-cpp must meet its laws.
    pub save_domain_pid-saved :
        (pid : ℤ)
        → save_domain_pid name pid w ≡ returned (pos 0) w'
        → (k : String)
        → saved w' k
          ≡ (if name == k then Option.map (mark_running pid) (saved w name) else saved w k)
    unfolding save_domain_pid edit
    save_domain_pid-saved pid h k =
        edit-mark_loop (mark_running pid) (named-mark_running L name pid) h k

    -- After `remove_domain_pid` that answers 0 the entry of the domain, if there is one, has the pid
    -- -1 and the status "shutoff", and every other name has its entry as before; the domains of the
    -- save file must be a list, and yaml-cpp must meet its laws.
    pub remove_domain_pid-saved :
        remove_domain_pid name w ≡ returned (pos 0) w'
        → (k : String)
        → saved w' k ≡ (if name == k then Option.map mark_shut_off (saved w name) else saved w k)
    remove_domain_pid-saved h k =
        edit-mark_loop mark_shut_off (named-mark_shut_off L name)
          (edit-remove_domain_pid name w w' h) k

    -- After `set_domain_colo_enable` that answers 0 the entry of the domain, if there is one, is
    -- colo-enabled in the given role, and every other name has its entry as before; the domains of the
    -- save file must be a list, and yaml-cpp must meet its laws.
    pub set_domain_colo_enable-saved :
        (cds : ColoDomainStatus)
        → set_domain_colo_enable name cds w ≡ returned (pos 0) w'
        → (k : String)
        → saved w' k ≡ (if name == k then Option.map (mark_colo cds) (saved w name) else saved w k)
    set_domain_colo_enable-saved cds h k =
        edit-flag_loop (mark_colo cds) (named-mark_colo L name cds)
          (edit-set_domain_colo_enable name cds w w' h) k

    -- After `set_domain_colo_disable` that answers 0 the entry of the domain, if there is one, is not
    -- colo-enabled, and every other name has its entry as before; the domains of the save file must be
    -- a list, and yaml-cpp must meet its laws.
    pub set_domain_colo_disable-saved :
        set_domain_colo_disable name w ≡ returned (pos 0) w'
        → (k : String)
        → saved w' k ≡ (if name == k then Option.map unmark_colo (saved w name) else saved w k)
    set_domain_colo_disable-saved h k =
        edit-flag_loop unmark_colo (named-unmark_colo L name)
          (edit-set_domain_colo_disable name w w' h) k
