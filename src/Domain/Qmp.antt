-- ===== src/Domain/Qmp.antt =====
-- The QMP commands that src/utils/domain.cpp generates for a pair of virtual machines.
use colo_manage_tools.Prelude.{String, ◌<>◌, List, [], ◌∷◌, if◌then◌else◌}
use colo_manage_tools.Prelude.Decimal.{decimal}
use colo_manage_tools.Config.{ColoStatus, is_primary}
use colo_manage_tools.Platform.{ColodDomainStatus}
use colo_manage_tools.Domain.{Domain}

abbrev pub qmp_capabilities : String
qmp_capabilities = "{'execute':'qmp_capabilities', 'arguments': { 'enable': [ 'oob' ]}}"

-- The `snd_ip` of both generators.
unfoldable pub snd_ip : ColoStatus → ColodDomainStatus → String
snd_ip cs cds = if is_primary cds.colo_status then cs.peer_ip else cs.host_ip

unfoldable pub generate_pvm_qmpcmd : Domain → ColoStatus → ColodDomainStatus → List String
unfolding snd_ip
generate_pvm_qmpcmd d cs cds =
    let ip = snd_ip cs cds in
    qmp_capabilities
    ∷ ("{'execute': 'human-monitor-command', 'arguments': {'command-line': 'drive_add -n buddy driver=replication,mode=primary,file.driver=nbd,file.host="
        <> ip
        <> ",file.port="
        <> decimal d.sec.nbd_port
        <> ",file.export=parent0,node-name=replication0'}}")
    ∷ "{'execute': 'x-blockdev-change', 'arguments':{'parent': 'colo-disk0', 'node': 'replication0' } }"
    ∷ "{'execute': 'migrate-set-capabilities', 'arguments': {'capabilities': [ {'capability': 'x-colo', 'state': true }] } }"
    ∷ "{'execute': 'migrate-set-parameters', 'arguments': {'max-bandwidth': 40000000000 } }"
    ∷ ("{'execute': 'migrate', 'arguments': {'uri': 'tcp:"
        <> ip
        <> ":"
        <> decimal d.sec.migrate_port
        <> "', 'colo':true } }")
    ∷ []

unfoldable pub generate_svm_qmpcmd : Domain → ColoStatus → ColodDomainStatus → List String
unfolding snd_ip
generate_svm_qmpcmd d cs cds =
    qmp_capabilities
    ∷ ("{'execute': 'nbd-server-start', 'arguments': {'addr': {'type': 'inet', 'data': {'host': '"
        <> snd_ip cs cds
        <> "', 'port':'"
        <> decimal d.sec.nbd_port
        <> "' } } } }")
    ∷ "{'execute': 'nbd-server-add', 'arguments': {'device': 'parent0', 'writable': true } }"
    ∷ "{'execute': 'migrate-set-parameters', 'arguments': {'max-bandwidth': 40000000000 } }"
    ∷ []
