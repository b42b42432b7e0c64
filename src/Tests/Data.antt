-- ===== src/Tests/Data.antt =====
-- The documents, the machine and the worlds of the sample runs.
use colo_manage_tools.Prelude.{
  ℕ, pos, minus_one, String, true, false, Option, none, some, [], ◌∷◌, ◌==◌, if◌then◌else◌,
}
use colo_manage_tools.Config.{NodeStatus, DomainStatus, ColoDomainStatus, ColoStatus, save_file}
use colo_manage_tools.Platform.{ColodDomainStatus, RetVal, Request}
use colo_manage_tools.Platform.Sample.{
  Tree, Fields, sample_yaml, scalar, sequence, map, cons, nil, entry, end, text, int, flag,
}
use colo_manage_tools.Platform.Sample.Machine.{Machine, sample_os}
use colo_manage_tools.Domain.{Domain}
use colo_manage_tools.World.{World, Outcome, returned, thrown}

-- What a run returned; `a` stands for a run that ended in an exception.
abbrev pub value : {A : Type 0} → A → Outcome A → A
value a (returned b w) = b
value a (thrown w) = a

abbrev pub no_answer : RetVal
no_answer = record { code = minus_one; msg = "" }

abbrev str : String → String → Fields → Fields
str k v = entry k (scalar (text v))

abbrev num : String → ℕ → Fields → Fields
num k v = entry k (scalar (int (pos v)))

abbrev pub vm_doc : Tree
vm_doc = map (
    str "name" "vm" (
      str "qemu" "/usr/bin/qemu" (
        num "memory" 1024 (
          num "vcpu" 2 (
            entry "os"
              (map (
                str "arch" "x86_64" (str "machine" "pc" (str "type" "hvm" (str "OS" "linux" end)))))
              (str "cpu" "host" (
                entry "disk"
                  (map (
                    str "driver" "qcow2" (
                      num "size" 10
                        (str "path" "/d" (str "hidden_path" "/h" (str "active_path" "/a" end))))))
                  (entry "display" (map (num "vnc_port" 0 end)) (
                    entry "net"
                      (map (
                        str "id" "n0"
                          (str "br" "br0" (str "helper" "/hp" (str "mac" "52:54" end)))))
                      (entry "colo"
                        (map (
                          entry "pri"
                            (map (
                              num "telnet_port" 4444 (
                                num "mirror_port" 9003 (
                                  num "cmp0_port" 9001
                                    (num "cmp1_port" 9004 (num "cmp_out_port" 9005 end))))))
                            (entry "sec"
                              (map (
                                num "telnet_port" 4445 (
                                  num "nbd_port" 9999 (
                                    num "migrate_port" 9998
                                      (num "red0_port" 9003 (num "red1_port" 9004 end))))))
                              end)))
                        end))))))))))

abbrev pub vm_definition : Domain
vm_definition = record {
  name = "vm";
  qemu_path = "/usr/bin/qemu";
  memory_size = pos 1024;
  vcpu = pos 2;
  os_arch_type = "x86_64";
  os_machine = "pc";
  os_type = "hvm";
  os_name = "linux";
  cpu_type = "host";
  vnc_port = 0;
  disk = record {
    driver = "qcow2";
    disk_size = pos 10;
    path = "/d";
    hidden_path = "/h";
    active_path = "/a";
  };
  net = record { id = "n0"; br = "br0"; helper = "/hp"; mac = "52:54" };
  pri = record {
    telnet_port = 4444;
    mirror_port = 9003;
    cmp0_port = 9001;
    cmp1_port = 9004;
    cmp_out_port = 9005;
  };
  sec = record {
    telnet_port = 4445;
    nbd_port = 9999;
    migrate_port = 9998;
    red0_port = 9003;
    red1_port = 9004;
  };
}

abbrev pub colo_doc : Tree
colo_doc = map (
    entry "colo"
      (map (
        str "local_status" "primary" (
          str "host_ip" "10.0.0.1" (
            str "host_user" "root" (
              str "host_file_path" "/vms/" (
                str "peer_ip" "10.0.0.2"
                  (str "peer_user" "admin" (str "peer_file_path" "/peer/" end))))))))
      end)

-- An entry of the save file.
abbrev pub saved_vm : String → String → Tree
saved_vm name status = map (
    str "name" name (
      str "path" "/vms/vm.yaml" (
        entry "pid" (scalar (int (pos 77))) (
          str "status" status
            (entry "colo_enable" (scalar (flag false)) (str "colo_status" "none" end))))))

abbrev pub save_doc : String → Tree
save_doc status = map (
    entry "domains" (sequence (cons (saved_vm "vm" status) (cons (saved_vm "other" "shutoff") nil)))
      end)

abbrev pub files : String → String → Option Tree
files status p =
    if save_file == p
    then some (save_doc status)
    else if "/vms/vm.yaml" == p
    then some vm_doc
    else if "colo.yaml" == p
    then some colo_doc
    else none

abbrev pub accepting : Request → Option RetVal
accepting r = some (record { code = pos 0; msg = "ok" })

abbrev pub refusing : Request → Option RetVal
refusing r = some (record { code = minus_one; msg = "no" })

-- A machine on which every call succeeds.
abbrev pub machine : Machine
machine = record {
  running = λ pid. true;
  can_kill = true;
  fork_result = pos 99;
  send_result = pos 1;
  recv_result = pos 2;
  reply = accepting;
  log = [];
}

abbrev pub primary_node : ColoStatus
primary_node = record {
  local_status = NodeStatus.primary;
  port = pos 5678;
  host_ip = "10.0.0.1";
  host_user = "root";
  host_file_path = "/vms/";
  peer_ip = "10.0.0.2";
  peer_user = "admin";
  peer_file_path = "/peer/";
}

abbrev pub vm_record : DomainStatus → ColoDomainStatus → ColodDomainStatus
vm_record status role = record {
  pid = pos 77;
  name = "vm";
  status = status;
  colo_enable = true;
  colo_status = role;
  config_file_path = "/vms/vm.yaml";
}

-- A primary node that is connected, with one domain.
abbrev pub node : String → Machine → ColodDomainStatus → World
node status m d = record {
  current_status = primary_node;
  domains = ("vm", d) ∷ [];
  remote_address = some ("10.0.0.2", 5678);
  remote_client_init = true;
  peer_init = true;
  files = files status;
  os = m;
}
