-- ===== src/Domain/Parse.antt =====
-- `vm_config_parse` of src/utils/domain.cpp.
pub mod Document
pub mod Complete
use colo_manage_tools.Prelude.{ℕ, ℤ, String, Bool, true, false, ◌&&◌, Option, none, some}
use colo_manage_tools.Platform.{Yaml, at}
use colo_manage_tools.Domain.{Domain, Disk, Net, Pri, Sec}

-- A value, the `err` of a return of -1, or an exception.
pub data Parsed (A : Type 0) : Type 0 where
  accepted : A → Parsed A
  rejected : String → Parsed A
  threw : Parsed A

infixl 5 ◌>>=◌ ◌>>◌
abbrev pub ◌>>=◌ : {A B : Type 0} → Parsed A → (A → Parsed B) → Parsed B
accepted a >>= f = f a
rejected err >>= f = rejected err
threw >>= f = threw

abbrev pub ◌>>◌ : {B : Type 0} → Parsed (Unit {0}) → Parsed B → Parsed B
m >> k = m >>= λ _. k

abbrev pub convert : {A : Type 0} → Option A → Parsed A
convert none = threw
convert (some a) = accepted a

-- `if (!test) { err = ...; return -1; }`
abbrev pub require : Bool → String → Parsed (Unit {0})
require true err = accepted tt
require false err = rejected err

module _ ⦃Y : Yaml⦄ where
  -- node[key], which must be defined
  unfoldable pub child : Y.Node → String → String → Parsed Y.Node
  unfolding at
  child n key err = do c ← convert (at n key); require (Y.is_defined c) err; accepted c

  -- node[key], which must be a defined scalar
  unfoldable pub scalar_child : Y.Node → String → String → Parsed Y.Node
  unfolding at
  scalar_child n key err = do
    c ← convert (at n key)
    require (Y.is_defined c && Y.is_scalar c) err
    accepted c

  -- config[key].as<T>() behind its tests
  unfoldable pub text_of : Y.Node → String → String → Parsed String
  unfolding child
  text_of n key err = do c ← child n key err; convert (Y.as_string c)

  unfoldable pub port_of : Y.Node → String → String → Parsed ℕ
  unfolding child
  port_of n key err = do c ← child n key err; convert (Y.as_ushort c)

  unfoldable pub int_of : Y.Node → String → String → Parsed ℤ
  unfolding scalar_child
  int_of n key err = do c ← scalar_child n key err; convert (Y.as_int c)

  -- The part below config["disk"].
  unfoldable pub parse_disk : Y.Node → Parsed Disk
  parse_disk n = do
    driver ← text_of n "driver" "cannot find disk driver."
    size ← int_of n "size" "cannot find disk size."
    path ← text_of n "path" "cannot find disk path."
    hidden_path ← text_of n "hidden_path" "cannot find disk hidden_path."
    active_path ← text_of n "active_path" "cannot find disk active_path."
    accepted (record {
      driver = driver;
      disk_size = size;
      path = path;
      hidden_path = hidden_path;
      active_path = active_path;
    })

  -- config["net"]
  unfoldable pub parse_net : Y.Node → Parsed Net
  parse_net n = do
    id ← text_of n "id" "cannot find net id."
    br ← text_of n "br" "cannot find net br."
    helper ← text_of n "helper" "cannot find net helper."
    mac ← text_of n "mac" "cannot find net mac."
    accepted (record { id = id; br = br; helper = helper; mac = mac })

  -- config["colo"]["pri"]
  unfoldable pub parse_pri : Y.Node → Parsed Pri
  parse_pri n = do
    telnet_port ← port_of n "telnet_port" "cannot find colo pri telnet_port."
    mirror_port ← port_of n "mirror_port" "cannot find colo pri mirror_port."
    cmp0_port ← port_of n "cmp0_port" "cannot find colo pri cmp0_port."
    cmp1_port ← port_of n "cmp1_port" "cannot find colo pri cmp1_port."
    cmp_out_port ← port_of n "cmp_out_port" "cannot find colo pri cmp_out_port."
    accepted (record {
      telnet_port = telnet_port;
      mirror_port = mirror_port;
      cmp0_port = cmp0_port;
      cmp1_port = cmp1_port;
      cmp_out_port = cmp_out_port;
    })

  -- config["colo"]["sec"]
  unfoldable pub parse_sec : Y.Node → Parsed Sec
  parse_sec n = do
    telnet_port ← port_of n "telnet_port" "cannot find colo sec telnet_port."
    nbd_port ← port_of n "nbd_port" "cannot find colo sec nbd_port."
    migrate_port ← port_of n "migrate_port" "cannot find colo sec migrate_port."
    red0_port ← port_of n "red0_port" "cannot find colo sec red0_port."
    red1_port ← port_of n "red1_port" "cannot find colo sec red1_port."
    accepted (record {
      telnet_port = telnet_port;
      nbd_port = nbd_port;
      migrate_port = migrate_port;
      red0_port = red0_port;
      red1_port = red1_port;
    })

  unfoldable pub vm_config_parse : Y.Node → Parsed Domain
  unfolding at
  vm_config_parse config = do
    name_node ← convert (at config "name")
    name ← convert (Y.as_string name_node)
    qemu ← text_of config "qemu" "cannot find qemu emulator."
    memory ← int_of config "memory" "cannot parse vm memory size."
    vcpu ← int_of config "vcpu" "cannot parse vcpu size."
    os ← child config "os" "cannot find os definition."
    arch ← text_of os "arch" "cannot find os architecture."
    machine ← text_of os "machine" "cannot find os machine."
    type ← text_of os "type" "cannot find os type."
    os_name ← text_of os "OS" "cannot find operate system."
    cpu ← text_of config "cpu" "cannot find cpu def."
    disk_node ← child config "disk" "cannot find disk definition."
    disk ← parse_disk disk_node
    display ← child config "display" "cannot find display definition."
    vnc_port ← port_of display "vnc_port" "cannot find display vnc_port."
    net_node ← child config "net" "cannot find net definition."
    net ← parse_net net_node
    colo ← child config "colo" "cannot find colo definition."
    pri_node ← child colo "pri" "cannot find colo pri definition."
    pri ← parse_pri pri_node
    sec_node ← child colo "sec" "cannot find colo sec definition."
    sec ← parse_sec sec_node
    accepted (record {
      name = name;
      qemu_path = qemu;
      memory_size = memory;
      vcpu = vcpu;
      os_arch_type = arch;
      os_machine = machine;
      os_type = type;
      os_name = os_name;
      cpu_type = cpu;
      vnc_port = vnc_port;
      disk = disk;
      net = net;
      pri = pri;
      sec = sec;
    })
