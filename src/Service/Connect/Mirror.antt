-- ===== src/Service/Connect/Mirror.antt =====
-- Two nodes that connected see the same pair, each from its side.
use colo_manage_tools.Prelude.{pos, true, ◌≡◌, ◌⊎◌, arith, refl}
use colo_manage_tools.Config.{ColoStatus, colod_port, is_primary_node, is_secondary_node}
use colo_manage_tools.Platform.{ColodDomainStatus}
use colo_manage_tools.Domain.{Domain}
use colo_manage_tools.Domain.Command.{pvm_host_ip, svm_pri_ip, generate_pvm_cmd, generate_svm_cmd}
use colo_manage_tools.Domain.Qmp.{snd_ip, generate_pvm_qmpcmd, generate_svm_qmpcmd}
use colo_manage_tools.Service.Connect.{opposite, mirrored}
use colo_manage_tools.Service.Colo.{peer_domain}
use colo_manage_tools.Service.Start.{new_command}

-- A node that is one of a pair.
abbrev pub IsPaired : ColoStatus → Type 0
IsPaired cs = (is_primary_node cs.local_status ≡ true) ⊎ (is_secondary_node cs.local_status ≡ true)

-- A node that reflects what its peer made of its status gets its own status back, with the port of
-- the daemon; the status must be the one of a primary or of a secondary node.
pub mirrored-mirrored :
    (cs : ColoStatus) → IsPaired cs → mirrored (mirrored cs) ≡ record cs { port = pos colod_port }
unfolding mirrored opposite
mirrored-mirrored cs p = ground (arith, p)

same_host : (cs : ColoStatus) → IsPaired cs → pvm_host_ip (mirrored cs) ≡ pvm_host_ip cs
unfolding pvm_host_ip mirrored opposite
same_host cs p = ground (arith, p)

same_pri : (cs : ColoStatus) → IsPaired cs → svm_pri_ip (mirrored cs) ≡ svm_pri_ip cs
unfolding svm_pri_ip mirrored opposite
same_pri cs p = ground (arith, p)

same_snd :
    (cs : ColoStatus) (ds : ColodDomainStatus)
    → ds.colo_enable ≡ true
    → snd_ip (mirrored cs) (peer_domain ds) ≡ snd_ip cs ds
unfolding snd_ip mirrored peer_domain
same_snd cs ds on = ground (arith, on)

-- Both nodes of a pair generate the same command lines for the two virtual machines of a domain, and
-- the same QMP commands for each of them, though each does it from its own status and its own record
-- of the domain; the status must be the one of a primary or of a secondary node, and the domain must
-- be colo-enabled.
pub generate-mirrored :
    (d : Domain) (cs : ColoStatus) (ds : ColodDomainStatus)
    → IsPaired cs
    → ds.colo_enable ≡ true
    → (generate_pvm_cmd d (mirrored cs) new_command ≡ generate_pvm_cmd d cs new_command)
      × (generate_svm_cmd d (mirrored cs) new_command ≡ generate_svm_cmd d cs new_command)
      × (generate_pvm_qmpcmd d (mirrored cs) (peer_domain ds) ≡ generate_pvm_qmpcmd d cs ds)
      × (generate_svm_qmpcmd d (mirrored cs) (peer_domain ds) ≡ generate_svm_qmpcmd d cs ds)
unfolding generate_pvm_cmd generate_svm_cmd generate_pvm_qmpcmd generate_svm_qmpcmd
generate-mirrored d cs ds p on =
    let host : pvm_host_ip (mirrored cs) ≡ pvm_host_ip cs = same_host cs p in
    let pri : svm_pri_ip (mirrored cs) ≡ svm_pri_ip cs = same_pri cs p in
    let snd : snd_ip (mirrored cs) (peer_domain ds) ≡ snd_ip cs ds = same_snd cs ds on in
    (rw host refl, rw pri refl, rw snd refl, rw snd refl)
