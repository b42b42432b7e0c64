-- ===== src/Tests/Progress.antt =====
-- Sample runs that succeed because the monitor answers.
use colo_manage_tools.Prelude.{pos, String, List, [], ◌∷◌, ◌++◌, some, ◌≡◌, refl, inl}
use colo_manage_tools.Config.{DomainStatus, ColoDomainStatus}
use colo_manage_tools.Platform.{ColodDomainStatus}
use colo_manage_tools.Platform.Sample.{sample_yaml}
use colo_manage_tools.Platform.Sample.Machine.{sample_os, Machine, Event, sent}
use colo_manage_tools.Domains
use colo_manage_tools.World.{World, returned}
use colo_manage_tools.QmpSocket.Exchange.{Exchange, done, exchanged}
use colo_manage_tools.QmpSocket.Complete.{IsOpened}
use colo_manage_tools.Domain.Qmp.{qmp_capabilities}
use colo_manage_tools.Service.Failover.{
  param_cmd, colod_set_params, colod_do_failover, secondary_failover_cmds,
}
use colo_manage_tools.Service.Failover.Progress.{
  colod_do_failover-returned, colod_set_params-returned,
}
use colo_manage_tools.Tests.Data.{node, machine, vm_record}

abbrev vm : ColodDomainStatus
vm = vm_record DomainStatus.colo_enabled ColoDomainStatus.secondary

abbrev world : World
world = node "running" machine vm

world-IsOpened : IsOpened world (pos 3) machine
world-IsOpened = record {
  opened = machine;
  socket = refl;
  valid = refl;
  connected = refl;
  greeted = refl;
  greeting = refl;
}

-- The machine after some commands were sent to it.
abbrev after : List String → Machine → Machine
after [] m = m
after (cmd ∷ cmds) m = after cmds (record m { log = m.log ++ sent cmd ∷ [] })

machine-Exchange :
    (cmds : List String) (log : List Event)
    → Exchange
        (pos 3)
        (record machine { log = log })
        cmds
        (after cmds (record machine { log = log }))
machine-Exchange [] log = done
machine-Exchange (cmd ∷ cmds) log =
    exchanged refl refl (machine-Exchange cmds (log ++ sent cmd ∷ []))

colod_do_failover-returned_example :
    (msg : String) × (w' : World) × (colod_do_failover "vm" world
      ≡ returned (record { code = pos 0; msg = msg }) w')
unfolding Domains.lookup
colod_do_failover-returned_example =
    colod_do_failover-returned world (pos 3) machine (after secondary_failover_cmds machine)
      world-IsOpened "vm" refl refl (inl refl) (machine-Exchange secondary_failover_cmds [])

abbrev cmd : String
cmd = "{'execute': 'migrate-set-parameters' , 'arguments':{ 'x-checkpoint-delay': 5 } }"

known : param_cmd "checkpoint-time" (pos 5) ≡ some cmd
unfolding param_cmd colo_manage_tools.Prelude.Decimal.to_string
known = refl

colod_set_params-returned_example :
    (w' : World) × (colod_set_params "vm" "checkpoint-time" (pos 5) world
      ≡ returned (record { code = pos 0; msg = "set params success." }) w')
unfolding Domains.lookup
colod_set_params-returned_example =
    colod_set_params-returned world (pos 3) machine (after (qmp_capabilities ∷ cmd ∷ []) machine)
      world-IsOpened "vm" "checkpoint-time" cmd (pos 5) refl refl known
      (machine-Exchange (qmp_capabilities ∷ cmd ∷ []) [])
