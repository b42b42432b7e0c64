-- ===== src/Domain/Parse/Complete.antt =====
-- Every document that has the keys of a definition is accepted by `vm_config_parse`.
use colo_manage_tools.Prelude.{String, true, false, Option, some, ◌≡◌, arith}
use colo_manage_tools.Platform.{Yaml, at}
use colo_manage_tools.Domain.{Domain, Disk, Net, Pri, Sec}
use colo_manage_tools.Domain.Parse.{
  accepted, child, scalar_child, text_of, port_of, int_of, parse_disk, parse_net, parse_pri,
  parse_sec, vm_config_parse,
}

module _ ⦃Y : Yaml⦄ where
  -- The map has the key, and its value is read as `x`.
  abbrev Has : {A : Type 0} → (Y.Node → Option A) → Y.Node → String → A → Type 0
  Has read n key x = (Y.is_defined (Y.field n key) ≡ true) × (read (Y.field n key) ≡ some x)

  abbrev HasDisk : Y.Node → Disk → Type 0
  HasDisk n x =
      (Y.is_scalar n ≡ false)
      × Has Y.as_string n "driver" x.driver
      × Has Y.as_int n "size" x.disk_size
      × (Y.is_scalar (Y.field n "size") ≡ true)
      × Has Y.as_string n "path" x.path
      × Has Y.as_string n "hidden_path" x.hidden_path
      × Has Y.as_string n "active_path" x.active_path

  abbrev HasNet : Y.Node → Net → Type 0
  HasNet n x =
      (Y.is_scalar n ≡ false)
      × Has Y.as_string n "id" x.id
      × Has Y.as_string n "br" x.br
      × Has Y.as_string n "helper" x.helper
      × Has Y.as_string n "mac" x.mac

  abbrev HasPri : Y.Node → Pri → Type 0
  HasPri n x =
      (Y.is_scalar n ≡ false)
      × Has Y.as_ushort n "telnet_port" x.telnet_port
      × Has Y.as_ushort n "mirror_port" x.mirror_port
      × Has Y.as_ushort n "cmp0_port" x.cmp0_port
      × Has Y.as_ushort n "cmp1_port" x.cmp1_port
      × Has Y.as_ushort n "cmp_out_port" x.cmp_out_port

  abbrev HasSec : Y.Node → Sec → Type 0
  HasSec n x =
      (Y.is_scalar n ≡ false)
      × Has Y.as_ushort n "telnet_port" x.telnet_port
      × Has Y.as_ushort n "nbd_port" x.nbd_port
      × Has Y.as_ushort n "migrate_port" x.migrate_port
      × Has Y.as_ushort n "red0_port" x.red0_port
      × Has Y.as_ushort n "red1_port" x.red1_port

  disk_accepted : (n : Y.Node) (x : Disk) → HasDisk n x → parse_disk n ≡ accepted x
  unfolding parse_disk text_of int_of child scalar_child at
  disk_accepted n x h = ground (arith, h)

  net_accepted : (n : Y.Node) (x : Net) → HasNet n x → parse_net n ≡ accepted x
  unfolding parse_net text_of child at
  net_accepted n x h = ground (arith, h)

  pri_accepted : (n : Y.Node) (x : Pri) → HasPri n x → parse_pri n ≡ accepted x
  unfolding parse_pri port_of child at
  pri_accepted n x h = ground (arith, h)

  sec_accepted : (n : Y.Node) (x : Sec) → HasSec n x → parse_sec n ≡ accepted x
  unfolding parse_sec port_of child at
  sec_accepted n x h = ground (arith, h)

  -- The document of a definition, key by key.
  pub record IsDocument (n : Y.Node) (d : Domain) : Type 0 where
    pub maps :
        (Y.is_scalar n ≡ false)
        × (Y.is_scalar (Y.field n "os") ≡ false)
        × (Y.is_scalar (Y.field n "display") ≡ false)
        × (Y.is_scalar (Y.field n "colo") ≡ false)
    pub named : Y.as_string (Y.field n "name") ≡ some d.name
    pub machine :
        Has Y.as_string n "qemu" d.qemu_path
        × Has Y.as_int n "memory" d.memory_size
        × (Y.is_scalar (Y.field n "memory") ≡ true)
        × Has Y.as_int n "vcpu" d.vcpu
        × (Y.is_scalar (Y.field n "vcpu") ≡ true)
        × Has Y.as_string n "cpu" d.cpu_type
    pub os :
        (Y.is_defined (Y.field n "os") ≡ true)
        × Has Y.as_string (Y.field n "os") "arch" d.os_arch_type
        × Has Y.as_string (Y.field n "os") "machine" d.os_machine
        × Has Y.as_string (Y.field n "os") "type" d.os_type
        × Has Y.as_string (Y.field n "os") "OS" d.os_name
    pub display :
        (Y.is_defined (Y.field n "display") ≡ true)
        × Has Y.as_ushort (Y.field n "display") "vnc_port" d.vnc_port
    pub disk : (Y.is_defined (Y.field n "disk") ≡ true) × HasDisk (Y.field n "disk") d.disk
    pub net : (Y.is_defined (Y.field n "net") ≡ true) × HasNet (Y.field n "net") d.net
    pub colo :
        (Y.is_defined (Y.field n "colo") ≡ true)
        × (Y.is_defined (Y.field (Y.field n "colo") "pri") ≡ true)
        × HasPri (Y.field (Y.field n "colo") "pri") d.pri
        × (Y.is_defined (Y.field (Y.field n "colo") "sec") ≡ true)
        × HasSec (Y.field (Y.field n "colo") "sec") d.sec

  -- `vm_config_parse` accepts a document that has every key of a definition, the two sizes and the one
  -- of the disk as scalars, and answers this definition.
  pub vm_config_parse-accepted :
      (n : Y.Node) (d : Domain) → IsDocument n d → vm_config_parse n ≡ accepted d
  unfolding vm_config_parse text_of int_of port_of child scalar_child at
  vm_config_parse-accepted n d h = ground (
    arith,
    h.maps,
    h.named,
    h.machine,
    h.os,
    h.display,
    h.disk,
    h.net,
    h.colo,
    disk_accepted (Y.field n "disk") d.disk,
    net_accepted (Y.field n "net") d.net,
    pri_accepted (Y.field (Y.field n "colo") "pri") d.pri,
    sec_accepted (Y.field (Y.field n "colo") "sec") d.sec,
  )
