-- ===== src/Domain/Files.antt =====
-- The functions of src/utils/domain.cpp on the save file and on the files of the domains.
pub mod Stored
use colo_manage_tools.Prelude.{
  ℤ, pos, minus_one, is_negative, not, String, ◌<>◌, false, Option, none, some, List, [], ◌∷◌, ◌==◌,
  if◌then◌else◌,
}
use colo_manage_tools.Config.{ColoStatus, save_file}
use colo_manage_tools.Platform.{Yaml, Os, at}
use colo_manage_tools.World.{
  M, gets, thrown, pure, ◌>>=◌, ◌>>◌, on_option, lift, load_file, write_file,
}
use colo_manage_tools.SaveFile.{set_domain_colo_disable, get_connect_status}
use colo_manage_tools.SaveFile.Document.{string_at, undefine_loop}
use colo_manage_tools.RunVm.{get_domain_config_file_path, transfer_file}
use colo_manage_tools.Domain.{Domain}
use colo_manage_tools.Domain.Parse.{Parsed, accepted, rejected, threw, vm_config_parse}

module _ ⦃Y : Yaml⦄ ⦃O : Os⦄ where
  -- `vm_config_parse` in a function that goes on where the parse is accepted or rejected.
  abbrev pub parsed : {A : Type 0} → Parsed Domain → (Domain → M A) → (String → M A) → M A
  parsed (accepted d) f g = f d
  parsed (rejected err) f g = g err
  parsed threw f g = λ w. thrown w

  -- Nothing is done where the file cannot be opened; the answer is 0 all the same.
  unfoldable pub save_new_vm_file : Y.Node → String → String → M ℤ
  save_new_vm_file vmdef domain_name save_path = do
    let path = save_path <> domain_name <> ".yaml"
    opened ← gets (λ w. O.can_open w.os path)
    if opened then write_file path vmdef else pure tt
    pure (pos 0)

  -- The domain, or the `err` of a return of -1.
  unfoldable pub vm_define : String → String → M (Parsed Domain)
  unfolding save_new_vm_file
  vm_define vm_def_filepath save_path = do
    defconfig ← load_file vm_def_filepath
    name_node ← lift (at defconfig "name")
    if not (Y.is_defined name_node) then pure (rejected "cannot parse vm name.") else do
      name ← lift (Y.as_string name_node)
      if name == "save"
          then pure (rejected "cannot define vm with name 'save'.")
          else parsed (vm_config_parse defconfig)
              (λ d. do
                r ← save_new_vm_file defconfig name save_path
                if is_negative r then pure (rejected "") else pure (accepted d))
              (λ err. pure (rejected err))

  -- The code, which is always 0, and `err`.
  unfoldable pub vm_undefine : String → M (ℤ × String)
  vm_undefine domain_name = do
    sf ← load_file save_file
    doms ← lift (at sf "domains")
    loop ← lift (undefine_loop domain_name (Y.items doms) Y.empty false false)
    let (kept, rm, colo_enable) = loop
    if rm
        then (do write_file save_file (Y.set_field sf "domains" kept); pure (pos 0, ""))
        else pure (pos 0, "cannot find domain: " <> domain_name <> ".")

  -- The loop of `get_domain`: the definition that was read last, or -1 at one that is rejected.
  unfoldable pub get_loop : String → List Y.Node → Option Domain → M (Option Domain)
  get_loop domain_name [] d = pure d
  get_loop domain_name (e ∷ rest) d = do
    n ← lift (string_at e "name")
    if domain_name == n
        then (do
          path ← lift (string_at e "path")
          vmdef ← load_file path
          parsed (vm_config_parse vmdef) (λ d'. get_loop domain_name rest (some d'))
              (λ err. pure none))
        else get_loop domain_name rest d

  -- `none` is -1.
  unfoldable pub get_domain : String → M (Option Domain)
  unfolding get_loop
  get_domain domain_name = do
    sf ← load_file save_file
    doms ← lift (at sf "domains")
    get_loop domain_name (Y.items doms) none

  -- The copy of the definition and of the disk to the peer; it runs in the command line tool.
  unfoldable pub transfer_domain : Domain → String → ColoStatus → M ℤ
  transfer_domain d src_config_file cs = do
    r ←
        transfer_file src_config_file
          (cs.peer_user <> "@" <> cs.peer_ip <> ":" <> cs.peer_file_path)
    r' ← transfer_file d.disk.path (cs.peer_user <> "@" <> cs.peer_ip <> ":" <> d.disk.path)
    pure (pos 0)

  -- `cs` is the uninitialised local of the code; its `local_status` and port are never read.
  unfoldable pub colo_enable : ColoStatus → String → M ℤ
  unfolding transfer_domain
  colo_enable cs domain_name = do
    found ← get_domain domain_name
    on_option found (pure minus_one) λ d. do
      path ← get_domain_config_file_path domain_name
      on_option path (pure minus_one) λ src_config_file. do
        connected ← get_connect_status cs
        let (r, cs') = connected
        if is_negative r then pure minus_one else transfer_domain d src_config_file cs'

  unfoldable pub colo_disable : String → M ℤ
  colo_disable domain_name = do
    r ← set_domain_colo_disable domain_name
    pure (if is_negative r then minus_one else pos 0)
