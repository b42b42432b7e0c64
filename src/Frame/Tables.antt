-- ===== src/Frame/Tables.antt =====
-- The functions below the handlers leave the entries of the save file with different names.
use colo_manage_tools.Prelude.{Option, ℤ, String, List, [], ◌∷◌}
use colo_manage_tools.Platform.{Yaml, Os, ShellCommand}
use colo_manage_tools.Platform.Laws.{IsYaml}
use colo_manage_tools.World.{M}
use colo_manage_tools.World.Keeps.{Keeps, Keeps-bind, Keeps-if, Keeps-pure}
use colo_manage_tools.World.Filed.{IsFiled, Filed-set_domain, Filed-close, filed_rules}
use colo_manage_tools.SaveFile.Distinct.Tables.{HasTable, HasTable-IsFiled}
use colo_manage_tools.SaveFile.Distinct.Kept.{
  Keeps-save_domain_info, Keeps-save_domain_pid, Keeps-remove_domain_pid,
  Keeps-set_domain_colo_enable, Keeps-set_domain_colo_disable, Keeps-save_colo_status,
  Keeps-vm_undefine,
}
use colo_manage_tools.Domain.Parse.{Parsed, accepted, rejected, threw}
use colo_manage_tools.QmpSocket.{
  QmpSocket, qmp_connect, qmp_send, qmp_recv, qmp_close, send_loop, send_qmp_cmds, throw,
}
use colo_manage_tools.RunVm.{get_domain_pid, run_new_vm, kill_domain, destroy_domain}
use colo_manage_tools.Domain.{Domain}
use colo_manage_tools.Domain.Files.{parsed, colo_disable, get_loop, get_domain}

pub ruleset table_rules = (
  filed_rules, HasTable-IsFiled, Keeps-save_domain_info, Keeps-save_domain_pid,
  Keeps-remove_domain_pid, Keeps-set_domain_colo_enable, Keeps-set_domain_colo_disable,
  Keeps-save_colo_status, Keeps-vm_undefine,
)

module _ ⦃Y : Yaml⦄ ⦃O : Os⦄ (L : IsYaml Y) where
  Table-qmp_connect : (qs : QmpSocket) → Keeps HasTable (qmp_connect qs)
  unfolding qmp_connect
  Table-qmp_connect qs = search table_rules depth 12

  Table-qmp_send : (qs : QmpSocket) (msg : String) → Keeps HasTable (qmp_send qs msg)
  unfolding qmp_send
  Table-qmp_send qs msg = search table_rules depth 8

  Table-throw : {A : Type 0} → Keeps HasTable (throw {A = A})
  unfolding throw
  Table-throw = record { at = λ w h. h }

  Table-qmp_recv : (qs : QmpSocket) → Keeps HasTable (qmp_recv qs)
  unfolding qmp_recv
  Table-qmp_recv qs = search (table_rules, Table-throw) depth 12

  Table-qmp_close : (qs : QmpSocket) → Keeps HasTable (qmp_close qs)
  unfolding qmp_close
  Table-qmp_close qs = Filed-close HasTable-IsFiled (λ s. O.close s qs.sockfd)

  Table-send_loop : (qs : QmpSocket) (cmds : List String) → Keeps HasTable (send_loop qs cmds)
  unfolding send_loop
  Table-send_loop qs [] = search (table_rules, Table-qmp_close)
  Table-send_loop qs (cmd ∷ cmds) = Keeps-bind _ _ (Table-qmp_send qs cmd) λ ret.
      Keeps-if _ _ _ (Keeps-pure ret) (
        Keeps-bind _ _ (Table-qmp_recv qs)
          λ (answer : ℤ × String). Keeps-if _ _ _ (Keeps-pure _) (Table-send_loop qs cmds))

  pub Table-send_qmp_cmds : (cmds : List String) → Keeps HasTable (send_qmp_cmds cmds)
  unfolding send_qmp_cmds
  Table-send_qmp_cmds cmds =
      search (table_rules, Table-qmp_connect, Table-qmp_recv, Table-send_loop) depth 12

  pub Table-parsed :
      {A : Type 0} (r : Parsed Domain) (f : Domain → M A) (g : String → M A)
      → ((d : Domain) → Keeps HasTable (f d))
      → ((err : String) → Keeps HasTable (g err))
      → Keeps HasTable (parsed r f g)
  Table-parsed (accepted d) f g kf kg = kf d
  Table-parsed (rejected err) f g kf kg = kg err
  Table-parsed threw f g kf kg = record { at = λ w h. h }

  Table-get_loop :
      (name : String) (es : List Y.Node) (d : Option Domain) → Keeps HasTable (get_loop name es d)
  unfolding get_loop
  Table-get_loop name [] d = search table_rules
  Table-get_loop name (e ∷ es) d =
      let ih = Table-get_loop name es in search (table_rules, Table-parsed, ih) depth 14

  pub Table-get_domain : (name : String) → Keeps HasTable (get_domain name)
  unfolding get_domain
  Table-get_domain name = search (table_rules, Table-get_loop) depth 12

  pub Table-get_domain_pid : (name : String) → Keeps HasTable (get_domain_pid name)
  unfolding get_domain_pid
  Table-get_domain_pid name = search table_rules depth 12

  pub Table-run_new_vm : (name : String) (cmd : ShellCommand) → Keeps HasTable (run_new_vm name cmd)
  unfolding run_new_vm
  Table-run_new_vm name cmd = search table_rules depth 12

  Table-kill_domain : (name : String) (pid : ℤ) → Keeps HasTable (kill_domain name pid)
  unfolding kill_domain
  Table-kill_domain name pid = search table_rules depth 12

  pub Table-destroy_domain : (name : String) → Keeps HasTable (destroy_domain name)
  unfolding destroy_domain
  Table-destroy_domain name = search (table_rules, Table-get_domain_pid, Table-kill_domain) depth 12

  pub Table-colo_disable : (name : String) → Keeps HasTable (colo_disable name)
  unfolding colo_disable
  Table-colo_disable name = search table_rules depth 12
