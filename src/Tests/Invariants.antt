-- ===== src/Tests/Invariants.antt =====
-- A sample world that meets the invariant of the service, and a call in it.
use colo_manage_tools.Prelude.{
  ℕ, pos, minus_one, String, ◌<>◌, List, [], if◌then◌else◌, true, false, some, none, ◌==◌, ◌≡◌,
  refl, arith,
}
use colo_manage_tools.Config.{DomainStatus, ColoDomainStatus}
use colo_manage_tools.Platform.{ColodDomainStatus}
use colo_manage_tools.Platform.Sample.{sample_yaml}
use colo_manage_tools.Platform.Sample.Machine.{sample_os}
use colo_manage_tools.Domains
use colo_manage_tools.World.{World}
use colo_manage_tools.World.Keeps.{final}
use colo_manage_tools.Service.Peer.{Call, serve}
use colo_manage_tools.Service.Others.Serve.{serve-lookup}
use colo_manage_tools.Service.Invariant.{IsSound, IsValid}
use colo_manage_tools.Service.Invariant.Rules.{or_new-if, new_status-IsSound}
use colo_manage_tools.Service.Invariant.Serve.{serve-IsValid}
use colo_manage_tools.Prelude.Decimal.{decimal}
use colo_manage_tools.Prelude.Decimal.Digits.{codes}
use colo_manage_tools.Pretest.{colod_pretest, colod_test_exist}
use colo_manage_tools.Pretest.Found.{colod_pretest-found}
use colo_manage_tools.Cli.{Args, cli_main}
use colo_manage_tools.Cli.Sound.{daemon, cli_main-IsValid}
use colo_manage_tools.Tests.Data.{node, machine, vm_record, primary_node}

abbrev colo_vm : ColodDomainStatus
colo_vm = vm_record DomainStatus.colo_enabled ColoDomainStatus.primary

abbrev world : World
world = node "running" machine colo_vm

colo_vm-IsSound : IsSound colo_vm
colo_vm-IsSound = record { roled = λ e x. cc; started = λ e. refl }

world-IsValid : IsValid world
unfolding Domains.lookup
world-IsValid = record {
  client = λ e x. cc;
  peer = λ e x. cc;
  sound = λ k. or_new-if ("vm" == k) (some colo_vm) none colo_vm-IsSound new_status-IsSound;
}

serve-IsValid_example : IsValid (final (serve (Call.start "vm" true) world))
serve-IsValid_example = serve-IsValid (Call.start "vm" true) world tt world-IsValid

abbrev args : Args
args = record {
  command_type = "start";
  vm_file = none;
  config_file = none;
  domain = some "vm";
  all = false;
  colo = true;
  checkpoint_time = none;
  compare_timeout = none;
  max_queue_size = none;
  restart_colod = false;
}

abbrev pidof : String → List ℕ
pidof name = if name == "colod" then codes "4711 4710\n" else []

cli_main-IsValid_example : IsValid (final (cli_main daemon pidof primary_node args world))
cli_main-IsValid_example = cli_main-IsValid pidof primary_node args world world-IsValid

colod_pretest-found_example :
    (colod_pretest pidof ≡ (pos 0, "colod is running with pid : " <> decimal 4711))
    × (colod_test_exist pidof ≡ (minus_one, "colod is already running with pid : " <> decimal 4711))
unfolding decimal
colod_pretest-found_example =
    colod_pretest-found pidof 4711 (codes " 4710\n") refl (omega arith) (omega arith) refl

serve-lookup_example :
    Domains.lookup "other" (final (serve (Call.destroy "vm") world)).domains
    ≡ Domains.lookup "other" world.domains
serve-lookup_example = serve-lookup (Call.destroy "vm") "vm" "other" world refl refl
