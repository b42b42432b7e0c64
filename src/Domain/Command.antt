-- ===== src/Domain/Command.antt =====
-- src/utils/shell_command.cpp, and the command lines that src/utils/domain.cpp generates for QEMU.
use colo_manage_tools.Prelude.{
  ℕ, ◌+◌, ℤ, pos, minus_one, String, ◌<>◌, [], ◌∷◌, ◌++◌, ◌==◌, if◌then◌else◌,
}
use colo_manage_tools.Prelude.Decimal.{decimal, to_string}
use colo_manage_tools.Config.{ColoStatus, is_primary_node}
use colo_manage_tools.Platform.{ShellCommand}
use colo_manage_tools.Domain.{Domain}

-- shell_command_add_arg
abbrev pub add_arg : ShellCommand → String → ShellCommand
add_arg qc arg = record qc { args = qc.args ++ arg ∷ []; nargs = qc.nargs + 1 }

-- shell_command_add_args
abbrev pub add_args : ShellCommand → String → String → ShellCommand
add_args qc arg1 arg2 = record qc { args = qc.args ++ arg1 ∷ arg2 ∷ []; nargs = qc.nargs + 2 }

-- ADD_ARG and ADD_ARGS
infixl 20 ◌◃◌ ◌◂◌
abbrev ◌◃◌ : ShellCommand → String → ShellCommand
qc ◃ arg = add_arg qc arg

abbrev ◌◂◌ : ShellCommand → String × String → ShellCommand
qc ◂ (arg1, arg2) = add_args qc arg1 arg2

-- The lines that the three generators have in common before the guest is looked at. They differ in
-- the character device of the monitor.
unfoldable pub machine_args : Domain → String → ShellCommand → ShellCommand
machine_args d qmp_device cmd =
    record cmd { binary_path = d.qemu_path }
    ◃ d.qemu_path
    ◃ "-enable-kvm"
    ◃ "-machine"
    ◃ (d.os_machine <> ",accel=kvm,usb=off,dump-guest-core=off,kernel_irqchip=on")
    ◂ ("-m", to_string d.memory_size)
    ◂ ("-smp", to_string d.vcpu)
    ◂ ("-overcommit", "mem-lock=off")
    ◂ ("-chardev", qmp_device)
    ◂ ("-mon", "chardev=qmp,mode=control,pretty=off")
    ◂ ("-vnc", ":" <> decimal d.vnc_port)
    ◂ ("-rtc", "base=utc")
    ◂ ("-smbios", "type=1")
    ◃ "-no-user-config"
    ◃ "-nodefaults"
    ◂ ("-boot", "menu=on,strict=on")

-- ADD_ARGS of the processor and the display, by guest
unfoldable pub linux_args : Domain → ShellCommand → ShellCommand
linux_args d cmd =
    cmd ◂ ("-cpu", d.cpu_type) ◂ ("-device", "cirrus-vga,id=video0,bus=pci.0,addr=0x2")

unfoldable pub windows_args : Domain → ShellCommand → ShellCommand
windows_args d cmd =
    cmd
    ◂ (
      "-cpu",
      d.cpu_type
          <> ",kvm=off,hv-vapic,hv-vpindex,hv-frequencies,hv-time,hv-relaxed,hv-spinlocks=0x1000",
    )
    ◂ ("-device", "VGA,vgamem_mb=256,id=video0,bus=pci.0,addr=0x2")

-- The lines that the three generators have in common after the guest.
unfoldable pub device_args : Domain → ShellCommand → ShellCommand
device_args d cmd =
    cmd
    ◂ ("-device", "piix3-usb-uhci,id=usb,bus=pci.0,addr=0x1.0x2")
    ◂ ("-device", "usb-tablet,id=input0,bus=usb.0,port=1")
    ◂ (
      "-netdev",
      "tap,id=" <> d.net.id <> ",vhost=off,br=" <> d.net.br <> ",helper=" <> d.net.helper,
    )
    ◂ (
      "-device",
      "virtio-net-pci,id=e0,netdev=" <> d.net.id <> ",csum=false,mrg_rxbuf=false,gso=false,mac="
          <> d.net.mac,
    )

-- A generator from its middle and its end: it returns -1, with the arguments so far, for a guest
-- that is neither linux nor windows.
unfoldable pub for_guest : Domain → (ShellCommand → ShellCommand) → ShellCommand → ℤ × ShellCommand
unfolding linux_args windows_args device_args
for_guest d rest cmd =
    if d.os_name == "linux"
    then (pos 0, rest (device_args d (linux_args d cmd)))
    else if d.os_name == "windows"
    then (pos 0, rest (device_args d (windows_args d cmd)))
    else (minus_one, cmd)

abbrev quorum_drive : Domain → String
quorum_drive d =
    "if=virtio,id=colo-disk0,driver=quorum,read-pattern=fifo,vote-threshold=1,children.0.file.filename="
    <> d.disk.path <> ",children.0.driver=" <> d.disk.driver

unfoldable pub generate_vm_cmd : Domain → ShellCommand → ℤ × ShellCommand
unfolding machine_args for_guest
generate_vm_cmd d cmd =
    let device =
      "socket,id=qmp,port=" <> decimal d.pri.telnet_port <> ",host=localhost,server=on,wait=off" in
    for_guest d (λ c. c ◂ ("-drive", quorum_drive d)) (machine_args d device cmd)

-- "socket,id=ID,host=IP,port=PORT" and what follows
abbrev pub socket_device : String → String → ℕ → String → String
socket_device id ip port options =
    "socket,id=" <> id <> ",host=" <> ip <> ",port=" <> decimal port <> options

-- The `host_ip` of `generate_pvm_cmd` and the `pri_ip` of `generate_svm_cmd`.
unfoldable pub pvm_host_ip : ColoStatus → String
pvm_host_ip cs = if is_primary_node cs.local_status then cs.host_ip else cs.peer_ip

unfoldable pub svm_pri_ip : ColoStatus → String
svm_pri_ip cs = if is_primary_node cs.local_status then cs.host_ip else cs.peer_ip

unfoldable pub pvm_args : Domain → String → ShellCommand → ShellCommand
pvm_args d host_ip cmd =
    cmd
    ◂ ("-chardev", socket_device "mirror0" host_ip d.pri.mirror_port ",server=on,wait=off")
    ◂ ("-chardev", socket_device "compare1" host_ip d.pri.cmp1_port ",server=on,wait=on")
    ◂ ("-chardev", socket_device "compare0" host_ip d.pri.cmp0_port ",server=on,wait=off")
    ◂ ("-chardev", socket_device "compare0-0" host_ip d.pri.cmp0_port ",reconnect=1")
    ◂ ("-chardev", socket_device "compare_out" host_ip d.pri.cmp_out_port ",server=on,wait=off")
    ◂ ("-chardev", socket_device "compare_out0" host_ip d.pri.cmp_out_port ",reconnect=1")
    ◂ ("-object", "filter-mirror,id=m0,netdev=" <> d.net.id <> ",queue=tx,outdev=mirror0")
    ◂ (
      "-object",
      "filter-redirector,netdev=" <> d.net.id <> ",id=redire0,queue=rx,indev=compare_out",
    )
    ◂ ("-object", "filter-redirector,netdev=" <> d.net.id <> ",id=redire1,queue=rx,outdev=compare0")
    ◂ ("-object", "iothread,id=iothread1")
    ◂ (
      "-object",
      "colo-compare,id=comp0,primary_in=compare0-0,secondary_in=compare1,outdev=compare_out0,iothread=iothread1",
    )
    ◂ ("-drive", quorum_drive d)
    ◃ "-S"

unfoldable pub generate_pvm_cmd : Domain → ColoStatus → ShellCommand → ℤ × ShellCommand
unfolding machine_args for_guest pvm_args pvm_host_ip
generate_pvm_cmd d cs cmd =
    let device = "socket,id=qmp,port=" <> decimal d.pri.telnet_port <> ",host=localhost,server" in
    for_guest d (pvm_args d (pvm_host_ip cs)) (machine_args d device cmd)

unfoldable pub svm_args : Domain → String → ShellCommand → ShellCommand
svm_args d pri_ip cmd =
    cmd
    ◂ ("-chardev", socket_device "red0" pri_ip d.sec.red0_port ",reconnect=1")
    ◂ ("-chardev", socket_device "red1" pri_ip d.sec.red1_port ",reconnect=1")
    ◂ (
      "-object",
      "filter-redirector,id=f1,netdev=" <> d.net.id <> ",queue=tx,indev=red0,vnet_hdr_support",
    )
    ◂ (
      "-object",
      "filter-redirector,id=f2,netdev=" <> d.net.id <> ",queue=rx,outdev=red1,vnet_hdr_support",
    )
    ◂ ("-object", "filter-rewriter,id=rew0,netdev=" <> d.net.id <> ",queue=all,vnet_hdr_support")
    ◂ ("-drive", "if=none,id=parent0,file.filename=" <> d.disk.path)
    ◂ (
      "-drive",
      "if=none,id=childs0,driver=replication,mode=secondary,file.driver=" <> d.disk.driver
          <> ",top-id=colo-disk0,file.file.filename=" <> d.disk.active_path
          <> ",file.backing.driver=" <> d.disk.driver <> ",file.backing.file.filename="
          <> d.disk.hidden_path <> ",file.backing.backing=parent0",
    )
    ◂ (
      "-drive",
      "if=virtio,id=colo-disk0,driver=quorum,read-pattern=fifo,vote-threshold=1,children.0=childs0",
    )
    ◂ ("-incoming", "tcp:0:" <> decimal d.sec.migrate_port)

unfoldable pub generate_svm_cmd : Domain → ColoStatus → ShellCommand → ℤ × ShellCommand
unfolding machine_args for_guest svm_args svm_pri_ip
generate_svm_cmd d cs cmd =
    let device = "socket,id=qmp,port=" <> decimal d.sec.telnet_port <> ",host=localhost,server" in
    for_guest d (svm_args d (svm_pri_ip cs)) (machine_args d device cmd)
