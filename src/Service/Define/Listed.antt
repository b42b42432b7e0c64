-- ===== src/Service/Define/Listed.antt =====
-- What `colod_define` and `colod_undefine` leave behind.
use mathlib.Core.Option
use colo_manage_tools.Prelude.{
  ℤ, pos, String, false, some, none, ◌≡◌, ap, ◌∙◌, arith, inl, inr, is_negative, Bool-cases,
  eq_refl,
}
use colo_manage_tools.Platform.{Yaml, Os, ColodDomainStatus, RetVal}
use colo_manage_tools.Platform.Laws.{IsYaml}
use colo_manage_tools.Domains
use colo_manage_tools.Domains.{get-insert, lookup-insert, lookup-erase}
use colo_manage_tools.World.{
  World, Outcome-cases, returned, ◌>>=◌, set_domain, erase_domain, load_file, write_file,
}
use colo_manage_tools.SaveFile.{save_domain_info, write_domains}
use colo_manage_tools.SaveFile.Document.{domain_node}
use colo_manage_tools.SaveFile.Refines.{saved_items, saved, save_domain_info-saved}
use colo_manage_tools.Domain.{Domain}
use colo_manage_tools.Domain.Parse.{accepted, rejected, threw, vm_config_parse}
use colo_manage_tools.Domain.Files.Stored.{vm_define-stored}
use colo_manage_tools.Domain.Files.{vm_define, vm_undefine}
use colo_manage_tools.Domain.Undefine.{vm_undefine-saved}
use colo_manage_tools.Service.Status.{test_domain_status}
use colo_manage_tools.Service.Define.{defined_status, colod_define, colod_undefine}

module _ ⦃Y : Yaml⦄ ⦃O : Os⦄ (L : IsYaml Y) where
  -- An undefine that answers no error leaves no record of the name in memory and no entry of it in the
  -- save file, also where there was none before; yaml-cpp must
  -- meet its laws.
  pub colod_undefine-unlisted :
      (name : String) (w w' : World) (ret : RetVal)
      → colod_undefine name w ≡ returned ret w'
      → is_negative ret.code ≡ false
      → (Domains.lookup name w'.domains ≡ none) × (saved w' name ≡ none)
  unfolding colod_undefine erase_domain saved_items ◌>>=◌
  colod_undefine-unlisted name w w' ret h ok = elim (Outcome-cases (test_domain_status name w)) [
    | inr (v, e) ↦ absurd (ground (arith, e))
    | inl (s, v, e) ↦ elim (Outcome-cases (vm_undefine name v)) [
      | inr (u, f) ↦ absurd (ground (arith, e, f))
      | inl ((r, err), u, f) ↦
          let gone : saved u name ≡ none =
            ground (arith, eq_refl name, vm_undefine-saved L name v u r err f name) in
          let left : w' ≡ record u { domains = Domains.erase name u.domains } =
            ground (arith, e, f) in
          (
            ground (arith, left, lookup-erase name name u.domains, eq_refl name),
            ap (λ x. saved x name) left ∙ gone,
          )
    ]
  ]

  save_domain_info-code :
      (ds : ColodDomainStatus) (w w' : World) (r : ℤ) (err : String)
      → save_domain_info ds w ≡ returned (r, err) w'
      → is_negative r ≡ false
      → r ≡ pos 0
  unfolding save_domain_info load_file write_file write_domains ◌>>=◌
  save_domain_info-code ds w w' r err h ok = ground arith

  pub colod_define-listed :
      (path : String) (w w' : World) (ret : RetVal)
      → colod_define path w ≡ returned ret w'
      → ret.code ≡ pos 0
      → (doc : Y.Node) × (d : Domain) × (Option.bind (w.files path) Y.load ≡ some doc)
        × (vm_config_parse doc ≡ accepted d)
        × (Domains.lookup d.name w'.domains
            ≡ some (defined_status d.name w.current_status.host_file_path))
        × (saved w' d.name
            ≡ some (domain_node (defined_status d.name w.current_status.host_file_path)))
  unfolding colod_define set_domain saved_items ◌>>=◌
  colod_define-listed path w w' ret h ok =
      elim (Outcome-cases (vm_define path w.current_status.host_file_path w)) [
        | inr (v, e) ↦ absurd (ground (arith, e))
        | inl (rejected err, v, e) ↦ absurd (ground (arith, e))
        | inl (threw, v, e) ↦ absurd (ground (arith, e))
        | inl (accepted d, v, e) ↦
            let ds = defined_status d.name w.current_status.host_file_path in
            elim (Outcome-cases (save_domain_info ds v)) [
              | inr (u, f) ↦ absurd (ground (arith, e, f))
              | inl ((r, err), u, f) ↦ elim (Bool-cases (is_negative r)) [
                | inl bad ↦ absurd (ground (arith, e, f, bad))
                | inr good ↦
                    let zero : r ≡ pos 0 = save_domain_info-code ds v u r err f good in
                    let left : w' ≡ record u { domains = Domains.insert d.name ds u.domains } =
                      ground (arith, e, f, good) in
                    let stored =
                      save_domain_info-saved L ds v u err (f ∙ ap (λ x. returned (x, err) u) zero)
                        d.name in
                    let (doc, loads, parses, other, files) =
                      vm_define-stored path w.current_status.host_file_path w v d e in
                    (
                      doc,
                      d,
                      loads,
                      parses,
                      ground
                          (arith, left, lookup-insert d.name d.name ds u.domains, eq_refl d.name),
                      ap (λ x. saved x d.name) left ∙ ground (arith, stored, eq_refl d.name),
                    )
              ]
            ]
      ]
