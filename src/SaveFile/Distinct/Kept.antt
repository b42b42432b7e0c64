-- ===== src/SaveFile/Distinct/Kept.antt =====
-- The functions of src/utils/config_parser.cpp that write the save file, and `vm_undefine`, leave a
-- list of entries in it in which no two have the same name.
use mathlib.Core.Option
use mathlib.Core.Path.{subst}
use colo_manage_tools.Prelude.{
  ℤ, String, true, false, not, ◌||◌, some, [], ◌≡◌, sym, arith, Bool-cases, Option-cases, inl, inr,
  if◌then◌else◌,
}
use colo_manage_tools.Config.{ColoDomainStatus, ColoStatus, save_file}
use colo_manage_tools.Platform.{Yaml, Os, ColodDomainStatus, at, set_at}
use colo_manage_tools.Platform.Laws.{IsYaml}
use colo_manage_tools.World.{World, truncate, is_same, M, lift, pure, ◌>>=◌, load_file, write_file}
use colo_manage_tools.World.Keeps.{Keeps, final}
use colo_manage_tools.SaveFile.{
  save_colo_status, save_domain_info, save_domain_pid, remove_domain_pid, set_domain_colo_enable,
  set_domain_colo_disable, write_flagged, write_domains,
}
use colo_manage_tools.SaveFile.Document.{
  status_node, with_status, domain_node, mark_loop, mark_running, mark_shut_off, flag_loop,
  mark_colo, unmark_colo, redefine_loop, undefine_loop,
}
use colo_manage_tools.SaveFile.Table.{named}
use colo_manage_tools.SaveFile.Marked.{
  named-mark_running, named-mark_shut_off, named-mark_colo, named-unmark_colo,
}
use colo_manage_tools.SaveFile.Refines.{written}
use colo_manage_tools.SaveFile.Distinct.Tables.{
  HasTable, HasTable-read, IsTable, marked-IsTable, flagged-IsTable, unset-IsOpen, pushed-IsTable,
  redefined-IsTable, dropped-IsTable,
}
use colo_manage_tools.SaveFile.Reload.{are_distinct}
use colo_manage_tools.Domain.Files.{vm_undefine}

module _ ⦃Y : Yaml⦄ ⦃O : Os⦄ where
  module _ (L : IsYaml Y) where
    with_node-HasTable :
        (w : World) (sf : Y.Node)
        → IsTable (Y.field sf "domains")
        → HasTable
            (record w { files = λ p. if is_same save_file p then some (Y.emit sf) else w.files p })
    unfolding Option.bind
    with_node-HasTable w sf t = HasTable-read _ sf (L.load-emit sf) t

    written-HasTable : (w : World) (sf doms : Y.Node) → IsTable doms → HasTable (written w sf doms)
    written-HasTable w sf doms t = with_node-HasTable w _ (rw L.field-set_field t)

    same : {v w : World} → v ≡ w → HasTable w → HasTable v
    same e h = subst HasTable (sym e) h

    rewritten :
        {v : World} (w : World) (sf doms : Y.Node)
        → v ≡ written w sf doms
        → IsTable doms
        → HasTable v
    rewritten w sf doms e t = same e (written-HasTable w sf doms t)

    opened :
        {A : Type 0} (f : Y.Node → Y.Node → M A)
        → ((w : World) (sf : Y.Node)
            → HasTable w
            → IsTable (Y.field sf "domains")
            → HasTable (final (f sf (Y.field sf "domains") w)))
        → Keeps HasTable (do sf ← load_file save_file; doms ← lift (at sf "domains"); f sf doms)
    unfolding load_file at ◌>>=◌
    opened f k = record {
      at = λ w h. elim (Option-cases (Option.bind (w.files save_file) Y.load)) [
        | inr bad ↦ same (ground (arith, bad)) h
        | inl (sf, good) ↦ elim (Bool-cases (Y.is_scalar sf)) [
          | inl bad ↦ same (ground (arith, good, bad)) h
          | inr map_e ↦ same (ground (arith, good, map_e)) (k w sf h (h.table sf good))
        ]
      ];
    }

    pub Keeps-save_domain_info : (ds : ColodDomainStatus) → Keeps HasTable (save_domain_info ds)
    unfolding save_domain_info write_file ◌>>=◌
    Keeps-save_domain_info ds = opened _ λ w sf h t.
        let doms = Y.field sf "domains" in
        let dom = domain_node ds in
        elim (Bool-cases (not (Y.is_defined doms) || Y.is_null doms)) [
          | inl unset ↦
              let empty : Y.items doms ≡ [] =
                ground (arith, unset, L.items-null doms, L.items-undefined doms) in
              rewritten w sf (Y.push_back doms dom) (ground (arith, unset))
                (pushed-IsTable L ds doms (unset-IsOpen doms unset) empty)
          | inr there ↦ elim (Bool-cases (Y.is_sequence doms)) [
            | inr odd ↦ same (ground (arith, there, odd)) h
            | inl s ↦ elim (Option-cases (redefine_loop ds.name dom (Y.items doms) 0 doms false)) [
              | inr bad ↦ same (ground (arith, there, s, bad)) h
              | inl ((doms', redefined), ran) ↦
                  rewritten w sf (if redefined then doms' else Y.push_back doms' dom)
                    (ground (arith, there, s, ran))
                    (redefined-IsTable L ds doms doms' redefined s t.1 ran)
            ]
          ]
        ]

    marks :
        (name : String) (change : Y.Node → Y.Node)
        → ((e : Y.Node) → named name e ≡ true → named name (change e) ≡ true)
        → (w : World) (sf : Y.Node) → HasTable w
        → IsTable (Y.field sf "domains")
        → HasTable (
            final (
              (do
                doms' ← lift (
                    mark_loop name change (Y.items (Y.field sf "domains")) 0 (Y.field sf "domains"))
                write_domains sf doms')
                w))
    unfolding write_domains write_file ◌>>=◌
    marks name change keeps w sf h t =
        let doms = Y.field sf "domains" in
        elim (Option-cases (mark_loop name change (Y.items doms) 0 doms)) [
          | inr bad ↦ same (ground (arith, bad)) h
          | inl (doms', ran) ↦
              rewritten w sf doms' (ground (arith, ran))
                (marked-IsTable L name change keeps doms doms' t ran)
        ]

    flags :
        (name : String) (change : Y.Node → Y.Node)
        → ((e : Y.Node) → named name e ≡ true → named name (change e) ≡ true)
        → (w : World) (sf : Y.Node) → HasTable w
        → IsTable (Y.field sf "domains")
        → HasTable (
            final (
              (do
                found ← lift (
                    flag_loop name change (Y.items (Y.field sf "domains")) 0 (Y.field sf "domains"))
                write_flagged sf found)
                w))
    unfolding write_flagged write_file ◌>>=◌
    flags name change keeps w sf h t =
        let doms = Y.field sf "domains" in
        elim (Option-cases (flag_loop name change (Y.items doms) 0 doms)) [
          | inr bad ↦ same (ground (arith, bad)) h
          | inl (found, ran) ↦ elim (Option-cases found) [
            | inr stopped ↦ same (ground (arith, ran, stopped)) h
            | inl (doms', some_e) ↦
                rewritten w sf doms' (ground (arith, ran, some_e))
                  (flagged-IsTable L name change keeps doms doms' t (ground (arith, ran, some_e)))
          ]
        ]

    pub Keeps-save_domain_pid :
        (name : String) (pid : ℤ) → Keeps HasTable (save_domain_pid name pid)
    unfolding save_domain_pid
    Keeps-save_domain_pid name pid =
        opened _ (marks name (mark_running pid) (named-mark_running L name pid))

    pub Keeps-remove_domain_pid : (name : String) → Keeps HasTable (remove_domain_pid name)
    unfolding remove_domain_pid pure
    Keeps-remove_domain_pid name = opened _ λ w sf h t.
        let doms = Y.field sf "domains" in
        elim (Bool-cases (not (Y.is_defined doms) || Y.is_null doms)) [
          | inl unset ↦ rw unset h
          | inr set ↦ rw set (marks name mark_shut_off (named-mark_shut_off L name) w sf h t)
        ]

    pub Keeps-set_domain_colo_enable :
        (name : String) (cds : ColoDomainStatus) → Keeps HasTable (set_domain_colo_enable name cds)
    unfolding set_domain_colo_enable
    Keeps-set_domain_colo_enable name cds =
        opened _ (flags name (mark_colo cds) (named-mark_colo L name cds))

    pub Keeps-set_domain_colo_disable :
        (name : String) → Keeps HasTable (set_domain_colo_disable name)
    unfolding set_domain_colo_disable
    Keeps-set_domain_colo_disable name =
        opened _ (flags name unmark_colo (named-unmark_colo L name))

    pub Keeps-vm_undefine : (name : String) → Keeps HasTable (vm_undefine name)
    unfolding vm_undefine write_file ◌>>=◌
    Keeps-vm_undefine name = opened _ λ w sf h t.
        let doms = Y.field sf "domains" in
        elim (Option-cases (undefine_loop name (Y.items doms) Y.empty false false)) [
          | inr bad ↦ same (ground (arith, bad)) h
          | inl ((kept, rm, colo), ran) ↦ elim (Bool-cases rm) [
            | inl removed ↦
                rewritten w sf kept (ground (arith, ran, removed))
                  (dropped-IsTable L name doms kept rm colo t ran)
            | inr unlisted ↦ same (ground (arith, ran, unlisted)) h
          ]
        ]

    -- An empty save file is an empty document.
    truncated-HasTable :
        (w : World)
        → HasTable
            (record w { files = λ p. if is_same save_file p then some Y.blank else w.files p })
    unfolding Option.bind
    truncated-HasTable w =
        let none_there : Y.items (Y.field Y.empty "domains") ≡ [] =
          L.items-undefined _ (L.undefined-empty "domains") in
        HasTable-read _ Y.empty L.load-blank
          (inr none_there, subst (λ es. are_distinct es ≡ true) (sym none_there) (λ i. true))

    pub Keeps-save_colo_status : (cs : ColoStatus) → Keeps HasTable (save_colo_status cs)
    unfolding save_colo_status with_status set_at load_file write_file truncate ◌>>=◌
    Keeps-save_colo_status cs = record {
      at = λ w h. elim (Option-cases (Option.bind (w.files save_file) Y.load)) [
        | inr bad ↦ same (ground (arith, bad)) h
        | inl (sf, good) ↦ elim (Bool-cases (Y.is_scalar sf)) [
          | inl bad ↦ same (ground (arith, good, bad)) (truncated-HasTable w)
          | inr map_e ↦
              let sf' = Y.set_field sf "save_status" (status_node cs) in
              let kept = L.field-set_field sf (status_node cs) "save_status" "domains" in
              same (ground (arith, good, map_e))
                (with_node-HasTable w sf' (rw kept (h.table sf good)))
        ]
      ];
    }
