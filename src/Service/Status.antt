-- ===== src/Service/Status.antt =====
-- `rs_init`, `test_domain_status`, `colod_list` and `colod_vm_status`, and what the handlers share.
pub mod Alive
use colo_manage_tools.Prelude.{
  is_negative, is_minus_one, not, String, ◌<>◌, Bool, false, ◌&&◌, Option, List, [], ◌∷◌, map,
  if◌then◌else◌,
}
use colo_manage_tools.Prelude.Decimal.{to_string}
use colo_manage_tools.Config.{NodeStatus, DomainStatus, is_shut_off}
use colo_manage_tools.Config.{domain_status_name, colo_domain_status_name}
use colo_manage_tools.Platform.{Yaml, Os, ColodDomainStatus, RetVal}
use colo_manage_tools.Domains
use colo_manage_tools.World.{
  M, pure, ◌>>=◌, ◌>>◌, gets, modify, fail, succeed, on_option, domain_at, set_domain,
}
use colo_manage_tools.SaveFile.{domains_init, remove_domain_pid}
use colo_manage_tools.RunVm.{is_gone}
use colo_manage_tools.Domain.{Domain}
use colo_manage_tools.Domain.Files.{get_domain}

abbrev pub rule_line : String
rule_line = "-------------------------------------------\n"

module _ ⦃Y : Yaml⦄ ⦃O : Os⦄ where
  abbrev pub set_peer_init : Bool → M (Unit {0})
  set_peer_init b = modify λ w. record w { peer_init = b }

  -- A call that did not come back clears `peer_init`; a refusal of the peer is passed on.
  abbrev pub unless_refused : Option RetVal → String → M RetVal → M RetVal
  unless_refused reply timeout_msg k =
      on_option reply (do set_peer_init false; fail timeout_msg)
        (λ crv. if is_negative crv.code then fail crv.msg else k)

  abbrev pub with_domain : Option Domain → (Domain → M RetVal) → M RetVal
  with_domain found k = on_option found (fail "can not get domain data.") k

  unfoldable pub rs_init : M (Unit {0})
  rs_init = do
    modify λ w. record w {
      current_status = record w.current_status { local_status = NodeStatus.none };
      peer_init = false;
    }
    r ← domains_init
    pure tt

  unfoldable pub test_domain_status : String → M DomainStatus
  test_domain_status domain_name = do
    ds ← domain_at domain_name
    if is_minus_one ds.pid then pure DomainStatus.shut_off else do
      gone ← is_gone ds.pid
      if not gone then pure ds.status else do
        set_domain domain_name (λ d. record d { status = DomainStatus.shut_off })
        r ← remove_domain_pid domain_name
        pure DomainStatus.shut_off

  -- What `colod_list` prints of a domain.
  unfoldable pub list_entry : ColodDomainStatus → String
  list_entry d =
      ("       name : " <> d.name <> "\n")
      <> ("     status : " <> domain_status_name d.status <> "\n")
      <> ("       path : " <> d.config_file_path <> "\n")
      <> (if d.colo_enable
          then "colo enable : on\n"
            <> ("colo status : " <> colo_domain_status_name d.colo_status <> "\n")
          else "colo enable : off\n")
      <> rule_line

  unfoldable pub list_loop : Bool → List String → String → M String
  list_loop show_all [] text = pure text
  list_loop show_all (name ∷ names) text = do
    tested ← test_domain_status name
    d ← gets (λ w. Domains.get name w.domains)
    list_loop show_all names
        (if not show_all && is_shut_off d.status then text else text <> list_entry d)

  -- The order of the entries of an unordered_map is that of the association list.
  unfoldable pub list_domains : Bool → List String → M RetVal
  list_domains show_all [] = succeed "no defined domain."
  list_domains show_all (name ∷ names) = do
    text ← list_loop show_all (name ∷ names) rule_line
    succeed text

  unfoldable pub colod_list : Bool → M RetVal
  colod_list show_all = do
    names ← gets (λ w. map (λ (k, _). k) w.domains)
    list_domains show_all names

  unfoldable pub colod_vm_status : String → M RetVal
  colod_vm_status domain_name = do
    found ← get_domain domain_name
    with_domain found λ d. do
      ds ← domain_at domain_name
      succeed (
          rule_line
          <> ("       Name: " <> d.name <> "\n")
          <> ("    OS Type: " <> d.os_type <> "\n")
          <> ("     Status: " <> domain_status_name ds.status <> "\n")
          <> ("     CPU(s): " <> to_string d.vcpu <> "\n")
          <> ("     Memory: " <> to_string d.memory_size <> " MB\n")
          <> ("  Disk Size: " <> to_string d.disk.disk_size <> " MB\n")
          <> (if ds.colo_enable then "Colo Status: on\n" else "Colo Status: off\n")
          <> rule_line)

  -- colod_domain_test
  unfoldable pub colod_domain_test : String → M RetVal
  colod_domain_test domain_name = do
    s ← test_domain_status domain_name
    succeed (domain_status_name s)
