-- ===== src/Service/Define.antt =====
-- `colod_define` and `colod_undefine`.
pub mod Listed
pub mod Restarted
use colo_manage_tools.Prelude.{minus_one, is_negative, not, String, ◌<>◌, false, if◌then◌else◌}
use colo_manage_tools.Config.{DomainStatus, ColoDomainStatus, is_shut_off}
use colo_manage_tools.Platform.{Yaml, Os, ColodDomainStatus, RetVal}
use colo_manage_tools.World.{M, ◌>>=◌, ◌>>◌, gets, fail, succeed, set_domain, erase_domain}
use colo_manage_tools.SaveFile.{save_domain_info}
use colo_manage_tools.Domain.Files.{parsed, vm_define, vm_undefine}
use colo_manage_tools.Service.Status.{test_domain_status}

-- The `ds` of `colod_define`.
abbrev pub defined_status : String → String → ColodDomainStatus
defined_status name host_file_path = record {
  pid = minus_one;
  name = name;
  status = DomainStatus.shut_off;
  colo_enable = false;
  colo_status = ColoDomainStatus.none;
  config_file_path = host_file_path <> name <> ".yaml";
}

module _ ⦃Y : Yaml⦄ ⦃O : Os⦄ where
  unfoldable pub colod_define : String → M RetVal
  colod_define vm_file_path = do
    cs ← gets (λ w. w.current_status)
    defined ← vm_define vm_file_path cs.host_file_path
    parsed defined
        (λ d. do
          let ds = defined_status d.name cs.host_file_path
          saved ← save_domain_info ds
          let (r, err) = saved
          if is_negative r then fail err else do
            set_domain d.name (λ _. ds)
            succeed ("define domain : " <> ds.name <> " success."))
        (λ err. fail err)

  unfoldable pub colod_undefine : String → M RetVal
  colod_undefine domain_name = do
    s ← test_domain_status domain_name
    if not (is_shut_off s) then fail "domain is already running." else do
      removed ← vm_undefine domain_name
      let (r, err) = removed
      if is_negative r
          then fail err
          else do erase_domain domain_name; succeed ("domain : " <> domain_name <> " undefined")
