-- ===== src/Domain/Files/Stored.antt =====
-- What `vm_define` writes.
use mathlib.Core.Option
use colo_manage_tools.Prelude.{
  refl, Bool-cases, String, false, some, ◌≡◌, ◌<>◌, ◌==◌, ◌&&◌, arith, inl, inr, Option-cases,
  if◌then◌else◌,
}
use colo_manage_tools.Prelude.Throws.{◌>>=◌}
use colo_manage_tools.Platform.{Yaml, Os, at}
use colo_manage_tools.World.{World, is_same, returned, ◌>>=◌ as ◌>>>=◌, load_file, write_file}
use colo_manage_tools.Domain.{Domain}
use colo_manage_tools.Domain.Parse.{accepted, vm_config_parse}
use colo_manage_tools.Domain.Files.{vm_define, save_new_vm_file}

module _ ⦃Y : Yaml⦄ where
  parsed-name :
      (n : Y.Node) (d : Domain)
      → vm_config_parse n ≡ accepted d
      → (at n "name" >>= Y.as_string) ≡ some d.name
  unfolding vm_config_parse
  parsed-name n d h = ground (arith, h)

module _ ⦃Y : Yaml⦄ ⦃O : Os⦄ where
  -- A definition that `vm_define` accepts is the one of the document that it read, and has a name that
  -- is not `save`. Where the path of this name in the given directory can be opened, the document is
  -- stored there, and is read under every path of this file, which may be the save file by a name
  -- with a directory part; where it cannot be opened, nothing is stored; every other file is as before.
  pub vm_define-stored :
      (path dir : String) (w w' : World) (d : Domain)
      → vm_define path dir w ≡ returned (accepted d) w'
      → (n : Y.Node) × (Option.bind (w.files path) Y.load ≡ some n)
        × (vm_config_parse n ≡ accepted d)
        × ((d.name == "save") ≡ false)
        × ((p : String)
            → w'.files p ≡ (
                if O.can_open w.os (dir <> d.name <> ".yaml")
                  && is_same (dir <> d.name <> ".yaml") p
                then some (Y.emit n)
                else w.files p))
  unfolding vm_define save_new_vm_file load_file write_file ◌>>>=◌
  vm_define-stored path dir w w' d h = elim (Option-cases (Option.bind (w.files path) Y.load)) [
    | inr bad ↦ absurd (ground (arith, bad))
    | inl (n, good) ↦
        let named : (vm_config_parse n ≡ accepted d) × ((d.name == "save") ≡ false) =
          ground (arith, good, parsed-name n d) in
        let name = parsed-name n d named.0 in
        elim (Bool-cases (O.can_open w.os (dir <> d.name <> ".yaml"))) [
          | inr shut ↦
              let left : w' ≡ w = ground (arith, good, name, named, shut) in
              (n, good, named.0, named.1, λ p. rw (left, shut) refl)
          | inl opened ↦
              let left : w' ≡ record w {
                files = λ p.
                    if is_same (dir <> d.name <> ".yaml") p then some (Y.emit n) else w.files p;
              } =
                ground (arith, good, name, named, opened) in
              (n, good, named.0, named.1, λ p. rw (left, opened) refl)
        ]
  ]
