-- ===== src/Domain.antt =====
-- include/domain.h: the definition of a virtual machine. The fields `domain_status` and `emulator` are
-- never assigned or read, and are left out.
pub mod Parse
pub mod Files
pub mod Total
pub mod Undefine
pub mod Command
pub mod Qmp
use colo_manage_tools.Prelude.{ℕ, ℤ, String}

pub record Disk : Type 0 where
  pub driver : String
  pub disk_size : ℤ
  pub path : String
  pub hidden_path : String
  pub active_path : String

pub record Net : Type 0 where
  pub id : String
  pub br : String
  pub helper : String
  pub mac : String

pub record Pri : Type 0 where
  pub telnet_port : ℕ
  pub mirror_port : ℕ
  pub cmp0_port : ℕ
  pub cmp1_port : ℕ
  pub cmp_out_port : ℕ

pub record Sec : Type 0 where
  pub telnet_port : ℕ
  pub nbd_port : ℕ
  pub migrate_port : ℕ
  pub red0_port : ℕ
  pub red1_port : ℕ

pub record Domain : Type 0 where
  pub name : String
  pub qemu_path : String
  pub memory_size : ℤ
  pub vcpu : ℤ
  pub os_arch_type : String
  pub os_machine : String
  pub os_type : String
  pub os_name : String
  pub cpu_type : String
  pub vnc_port : ℕ
  pub disk : Disk
  pub net : Net
  pub pri : Pri
  pub sec : Sec
