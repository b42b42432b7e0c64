-- ===== src/Domain/Parse/Document.antt =====
-- A definition that `vm_config_parse` accepts is what its document says.
use colo_manage_tools.Prelude.{String, false, Option, some, List, [], ◌∷◌, ◌≡◌, arith}
use colo_manage_tools.Prelude.Throws.{◌>>=◌}
use colo_manage_tools.Platform.{Yaml, at}
use colo_manage_tools.Domain.{Domain, Disk, Net, Pri, Sec}
use colo_manage_tools.Domain.Parse.{
  accepted, child, scalar_child, text_of, port_of, int_of, parse_disk, parse_net, parse_pri,
  parse_sec, vm_config_parse,
}

module _ ⦃Y : Yaml⦄ where
  -- The value at a path of keys.
  abbrev reach : {A : Type 0} → (Y.Node → Option A) → Y.Node → List String → Option A
  reach read n [] = read n
  reach read n (key ∷ keys) = at n key >>= λ m. reach read m keys

  abbrev pub HoldsMachine : Y.Node → Domain → Type 0
  HoldsMachine n d =
      (reach Y.as_string n ("name" ∷ []) ≡ some d.name)
      × (reach Y.as_string n ("qemu" ∷ []) ≡ some d.qemu_path)
      × (reach Y.as_int n ("memory" ∷ []) ≡ some d.memory_size)
      × (reach Y.as_int n ("vcpu" ∷ []) ≡ some d.vcpu)
      × (reach Y.as_string n ("os" ∷ "arch" ∷ []) ≡ some d.os_arch_type)
      × (reach Y.as_string n ("os" ∷ "machine" ∷ []) ≡ some d.os_machine)
      × (reach Y.as_string n ("os" ∷ "type" ∷ []) ≡ some d.os_type)
      × (reach Y.as_string n ("os" ∷ "OS" ∷ []) ≡ some d.os_name)
      × (reach Y.as_string n ("cpu" ∷ []) ≡ some d.cpu_type)
      × (reach Y.as_ushort n ("display" ∷ "vnc_port" ∷ []) ≡ some d.vnc_port)

  vm_config_parse-machine :
      (n : Y.Node) (d : Domain) → vm_config_parse n ≡ accepted d → HoldsMachine n d
  unfolding vm_config_parse text_of int_of port_of child scalar_child at
  vm_config_parse-machine n d h = ground (arith, h)

  abbrev pub HoldsDisk : Y.Node → Disk → Type 0
  HoldsDisk n x =
      (reach Y.as_string n ("driver" ∷ []) ≡ some x.driver)
      × (reach Y.as_int n ("size" ∷ []) ≡ some x.disk_size)
      × (reach Y.as_string n ("path" ∷ []) ≡ some x.path)
      × (reach Y.as_string n ("hidden_path" ∷ []) ≡ some x.hidden_path)
      × (reach Y.as_string n ("active_path" ∷ []) ≡ some x.active_path)

  abbrev pub HoldsNet : Y.Node → Net → Type 0
  HoldsNet n x =
      (reach Y.as_string n ("id" ∷ []) ≡ some x.id)
      × (reach Y.as_string n ("br" ∷ []) ≡ some x.br)
      × (reach Y.as_string n ("helper" ∷ []) ≡ some x.helper)
      × (reach Y.as_string n ("mac" ∷ []) ≡ some x.mac)

  abbrev pub HoldsPri : Y.Node → Pri → Type 0
  HoldsPri n x =
      (reach Y.as_ushort n ("telnet_port" ∷ []) ≡ some x.telnet_port)
      × (reach Y.as_ushort n ("mirror_port" ∷ []) ≡ some x.mirror_port)
      × (reach Y.as_ushort n ("cmp0_port" ∷ []) ≡ some x.cmp0_port)
      × (reach Y.as_ushort n ("cmp1_port" ∷ []) ≡ some x.cmp1_port)
      × (reach Y.as_ushort n ("cmp_out_port" ∷ []) ≡ some x.cmp_out_port)

  abbrev pub HoldsSec : Y.Node → Sec → Type 0
  HoldsSec n x =
      (reach Y.as_ushort n ("telnet_port" ∷ []) ≡ some x.telnet_port)
      × (reach Y.as_ushort n ("nbd_port" ∷ []) ≡ some x.nbd_port)
      × (reach Y.as_ushort n ("migrate_port" ∷ []) ≡ some x.migrate_port)
      × (reach Y.as_ushort n ("red0_port" ∷ []) ≡ some x.red0_port)
      × (reach Y.as_ushort n ("red1_port" ∷ []) ≡ some x.red1_port)

  parse_disk-holds : (n : Y.Node) (x : Disk) → parse_disk n ≡ accepted x → HoldsDisk n x
  unfolding parse_disk text_of int_of child scalar_child at
  parse_disk-holds n x h = ground (arith, h)

  parse_net-holds : (n : Y.Node) (x : Net) → parse_net n ≡ accepted x → HoldsNet n x
  unfolding parse_net text_of child at
  parse_net-holds n x h = ground (arith, h)

  parse_pri-holds : (n : Y.Node) (x : Pri) → parse_pri n ≡ accepted x → HoldsPri n x
  unfolding parse_pri port_of child at
  parse_pri-holds n x h = ground (arith, h)

  parse_sec-holds : (n : Y.Node) (x : Sec) → parse_sec n ≡ accepted x → HoldsSec n x
  unfolding parse_sec port_of child at
  parse_sec-holds n x h = ground (arith, h)

  parts :
      (n : Y.Node) (d : Domain)
      → vm_config_parse n ≡ accepted d
      → (Y.is_scalar n ≡ false)
        × (Y.is_scalar (Y.field n "colo") ≡ false)
        × (parse_disk (Y.field n "disk") ≡ accepted d.disk)
        × (parse_net (Y.field n "net") ≡ accepted d.net)
        × (parse_pri (Y.field (Y.field n "colo") "pri") ≡ accepted d.pri)
        × (parse_sec (Y.field (Y.field n "colo") "sec") ≡ accepted d.sec)
  unfolding vm_config_parse child scalar_child at
  parts n d h = ground (arith, h)

  -- Every field of a definition that `vm_config_parse` accepts is the value that the document has
  -- under the keys of that field; the maps on the way to it are no scalars.
  pub vm_config_parse-holds :
      (n : Y.Node) (d : Domain)
      → vm_config_parse n ≡ accepted d
      → HoldsMachine n d
        × HoldsDisk (Y.field n "disk") d.disk
        × HoldsNet (Y.field n "net") d.net
        × HoldsPri (Y.field (Y.field n "colo") "pri") d.pri
        × HoldsSec (Y.field (Y.field n "colo") "sec") d.sec
        × (Y.is_scalar n ≡ false)
        × (Y.is_scalar (Y.field n "colo") ≡ false)
  vm_config_parse-holds n d h =
      let (flat, flat', disk, net, pri, sec) = parts n d h in
      (
        vm_config_parse-machine n d h,
        parse_disk-holds _ _ disk,
        parse_net-holds _ _ net,
        parse_pri-holds _ _ pri,
        parse_sec-holds _ _ sec,
        flat,
        flat',
      )
