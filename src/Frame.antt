-- ===== src/Frame.antt =====
-- The functions below the handlers touch the files and the operating system only: they keep every
-- property of the globals of src/utils/colod_service.cpp.
pub mod Globals
pub mod Tables
use colo_manage_tools.Prelude.{ℤ, String, Option, none, some, List, [], ◌∷◌}
use colo_manage_tools.Config.{ColoStatus, ColoDomainStatus}
use colo_manage_tools.Platform.{Yaml, Os, ColodDomainStatus, ShellCommand}
use colo_manage_tools.World.{World, M}
use colo_manage_tools.World.Keeps.{
  Keeps, IsLocal, Keeps-pure, Keeps-if, Keeps-bind, Keeps-modify, keeps_rules,
}
use colo_manage_tools.SaveFile.{
  parse_config_file, save_colo_status, save_domain_info, save_domain_pid, remove_domain_pid,
  set_domain_colo_enable, set_domain_colo_disable, write_flagged,
}
use colo_manage_tools.QmpSocket.{
  QmpSocket, throw, qmp_connect, qmp_send, qmp_recv, qmp_close, send_loop, send_qmp_cmds,
}
use colo_manage_tools.RunVm.{get_domain_pid, run_new_vm, kill_domain, destroy_domain}
use colo_manage_tools.Domain.{Domain}
use colo_manage_tools.Domain.Parse.{Parsed, accepted, rejected, threw}
use colo_manage_tools.Domain.Files.{
  parsed, vm_define, vm_undefine, get_loop, get_domain, colo_disable,
}

module _ ⦃Y : Yaml⦄ ⦃O : Os⦄ {P : World → Type 0} (l : IsLocal P) where
  pub Keeps-parse_config_file :
      (path : String) (cs : ColoStatus) → Keeps P (parse_config_file path cs)
  unfolding parse_config_file
  Keeps-parse_config_file path cs = search keeps_rules

  pub Keeps-save_colo_status : (cs : ColoStatus) → Keeps P (save_colo_status cs)
  unfolding save_colo_status
  Keeps-save_colo_status cs = search keeps_rules depth 12

  pub Keeps-save_domain_info : (ds : ColodDomainStatus) → Keeps P (save_domain_info ds)
  unfolding save_domain_info
  Keeps-save_domain_info ds = search keeps_rules depth 12

  pub Keeps-save_domain_pid : (name : String) (pid : ℤ) → Keeps P (save_domain_pid name pid)
  unfolding save_domain_pid
  Keeps-save_domain_pid name pid = search keeps_rules depth 12

  pub Keeps-remove_domain_pid : (name : String) → Keeps P (remove_domain_pid name)
  unfolding remove_domain_pid
  Keeps-remove_domain_pid name = search keeps_rules depth 12

  Keeps-write_flagged : (sf : Y.Node) (found : Option Y.Node) → Keeps P (write_flagged sf found)
  unfolding write_flagged
  Keeps-write_flagged sf none = search keeps_rules
  Keeps-write_flagged sf (some doms) = search keeps_rules depth 12

  pub Keeps-set_domain_colo_enable :
      (name : String) (cds : ColoDomainStatus) → Keeps P (set_domain_colo_enable name cds)
  unfolding set_domain_colo_enable
  Keeps-set_domain_colo_enable name cds = search (keeps_rules, Keeps-write_flagged) depth 12

  pub Keeps-set_domain_colo_disable : (name : String) → Keeps P (set_domain_colo_disable name)
  unfolding set_domain_colo_disable
  Keeps-set_domain_colo_disable name = search (keeps_rules, Keeps-write_flagged) depth 12

  ruleset file_rules = (
    keeps_rules, Keeps-parse_config_file, Keeps-save_colo_status, Keeps-save_domain_info,
    Keeps-save_domain_pid, Keeps-remove_domain_pid, Keeps-set_domain_colo_enable,
    Keeps-set_domain_colo_disable,
  )

  Keeps-qmp_connect : (qs : QmpSocket) → Keeps P (qmp_connect qs)
  unfolding qmp_connect
  Keeps-qmp_connect qs = search keeps_rules depth 12

  Keeps-qmp_send : (qs : QmpSocket) (msg : String) → Keeps P (qmp_send qs msg)
  unfolding qmp_send
  Keeps-qmp_send qs msg = search keeps_rules depth 12

  Keeps-throw : {A : Type 0} → Keeps P (throw {A = A})
  unfolding throw
  Keeps-throw = record { at = λ w h. h }

  Keeps-qmp_recv : (qs : QmpSocket) → Keeps P (qmp_recv qs)
  unfolding qmp_recv
  Keeps-qmp_recv qs = search (keeps_rules, Keeps-throw) depth 12

  Keeps-qmp_close : (qs : QmpSocket) → Keeps P (qmp_close qs)
  unfolding qmp_close
  Keeps-qmp_close qs = Keeps-modify _ (λ w h. l.os w _ h)

  Keeps-send_loop : (qs : QmpSocket) (cmds : List String) → Keeps P (send_loop qs cmds)
  unfolding send_loop
  Keeps-send_loop qs [] = search (keeps_rules, Keeps-qmp_close)
  Keeps-send_loop qs (cmd ∷ cmds) = Keeps-bind _ _ (Keeps-qmp_send qs cmd) λ ret.
      Keeps-if _ _ _ (Keeps-pure ret) (
        Keeps-bind _ _ (Keeps-qmp_recv qs)
          λ (answer : ℤ × String). Keeps-if _ _ _ (Keeps-pure _) (Keeps-send_loop qs cmds))

  pub Keeps-send_qmp_cmds : (cmds : List String) → Keeps P (send_qmp_cmds cmds)
  unfolding send_qmp_cmds
  Keeps-send_qmp_cmds cmds =
      search (keeps_rules, Keeps-qmp_connect, Keeps-qmp_recv, Keeps-send_loop) depth 12

  pub Keeps-run_new_vm : (name : String) (cmd : ShellCommand) → Keeps P (run_new_vm name cmd)
  unfolding run_new_vm
  Keeps-run_new_vm name cmd = search file_rules depth 12

  Keeps-kill_domain : (name : String) (pid : ℤ) → Keeps P (kill_domain name pid)
  unfolding kill_domain
  Keeps-kill_domain name pid = search file_rules depth 12

  pub Keeps-destroy_domain : (name : String) → Keeps P (destroy_domain name)
  unfolding destroy_domain get_domain_pid
  Keeps-destroy_domain name = search (file_rules, Keeps-kill_domain) depth 12

  pub Keeps-parsed :
      {A : Type 0} (r : Parsed Domain) (f : Domain → M A) (g : String → M A)
      → ((d : Domain) → Keeps P (f d))
      → ((err : String) → Keeps P (g err))
      → Keeps P (parsed r f g)
  Keeps-parsed (accepted d) f g kf kg = kf d
  Keeps-parsed (rejected err) f g kf kg = kg err
  Keeps-parsed threw f g kf kg = record { at = λ w h. h }

  pub Keeps-vm_define : (path save_path : String) → Keeps P (vm_define path save_path)
  unfolding vm_define
  Keeps-vm_define path save_path = search (file_rules, Keeps-parsed) depth 14

  pub Keeps-vm_undefine : (name : String) → Keeps P (vm_undefine name)
  unfolding vm_undefine
  Keeps-vm_undefine name = search file_rules depth 12

  Keeps-get_loop :
      (name : String) (es : List Y.Node) (d : Option Domain) → Keeps P (get_loop name es d)
  unfolding get_loop
  Keeps-get_loop name [] d = search file_rules
  Keeps-get_loop name (e ∷ es) d =
      let ih = Keeps-get_loop name es in search (file_rules, Keeps-parsed, ih) depth 14

  pub Keeps-get_domain : (name : String) → Keeps P (get_domain name)
  unfolding get_domain
  Keeps-get_domain name = search (file_rules, Keeps-get_loop) depth 12

  pub Keeps-colo_disable : (name : String) → Keeps P (colo_disable name)
  unfolding colo_disable
  Keeps-colo_disable name = search file_rules depth 12
