-- ===== src/Tests/Daemon.antt =====
-- A start of the daemon on the sample machine, and a server that keeps its table as a list.
use mathlib.Core.Option
use colo_manage_tools.Prelude.{
  pos, minus_one, String, false, true, Option, none, some, List, [], ◌∷◌, map, ◌≡◌, refl, ◌==◌, inr,
  if◌then◌else◌, All,
}
use colo_manage_tools.Platform.{at}
use colo_manage_tools.Platform.Sample.{sample_yaml}
use colo_manage_tools.Platform.Sample.Machine.{sample_os}
use colo_manage_tools.World.Keeps.{final}
use colo_manage_tools.SaveFile.Document.{string_at, bool_at}
use colo_manage_tools.SaveFile.Refines.{saved_items}
use colo_manage_tools.Service.Peer.{Call, serve}
use colo_manage_tools.Service.Invariant.{IsValid}
use colo_manage_tools.Server.{Procedure, Rpc, IsRpc, colod_server, server_init, handle, message}
use colo_manage_tools.Server.Bound.{handle-message}
use colo_manage_tools.Daemon.{Process, Answers, exited, detached, colod_daemon, boot, colod_main}
use colo_manage_tools.Daemon.Detached.{IsDetached, colod_daemon-IsDetached, colod_daemon-exited}
use colo_manage_tools.Daemon.Lifetime.{IsSoundEntry, colod_main-IsValid}
use colo_manage_tools.Tests.Data.{files, saved_vm, machine}

abbrev pub find : List (String × Procedure) → String → Option Procedure
find [] k = none
find ((j, f) ∷ fs) k = if j == k then some f else find fs k

abbrev pub rpc : Rpc
rpc = record {
  Server = List (String × Procedure);
  new = [];
  as_server = λ port s. s;
  bind = λ k f s. (k, f) ∷ s;
  handler = find;
}

pub rpc-IsRpc : IsRpc rpc
rpc-IsRpc = record { handler-bind = λ s k j f. refl }

handle-message_example :
    handle rpc (server_init rpc (colod_server rpc (pos 0) 5678)) (message (Call.list true))
    ≡ some (serve (Call.list true))
handle-message_example = handle-message rpc rpc-IsRpc (pos 0) 5678 (Call.list true)

abbrev process : Process
process = record {
  uid = 0;
  running = true;
  leads_session = false;
  directory = "/root";
  mask = 18;
  descriptors = λ n. none;
  handles_sigterm = false;
}

abbrev answers : Answers
answers = record { fork = pos 0; getuid = 0; setuid = pos 0; open_log = pos 5 }

abbrev unprivileged : Answers
unprivileged = record { fork = pos 0; getuid = 1000; setuid = minus_one; open_log = pos 5 }

colod_daemon-IsDetached_example :
    (p' : Process) × (colod_daemon answers process ≡ detached (pos 0) p')
    × IsDetached answers process p'
colod_daemon-IsDetached_example = colod_daemon-IsDetached answers process refl refl

colod_daemon-exited_example :
    (lines : List String) × (colod_daemon unprivileged process ≡ exited 0 lines)
colod_daemon-exited_example = colod_daemon-exited unprivileged process (inr refl)

saved_vm-IsSoundEntry : IsSoundEntry (saved_vm "vm" "shutoff")
unfolding string_at bool_at at
saved_vm-IsSoundEntry = record { named = λ e. cc; roled = λ e s f x. cc }

other_vm-IsSoundEntry : IsSoundEntry (saved_vm "other" "shutoff")
unfolding string_at bool_at at
other_vm-IsSoundEntry = record { named = λ e. cc; roled = λ e s f x. cc }

abbrev calls : List Call
calls = Call.list true ∷ Call.colo_enable "vm" ∷ Call.start "vm" true ∷ []

saved_entries : All IsSoundEntry (saved_items (boot (files "shutoff") machine))
unfolding saved_items Option.bind
saved_entries = (saved_vm-IsSoundEntry, (other_vm-IsSoundEntry, tt))

colod_main-IsValid_example :
    IsValid
      (final (colod_main rpc answers process (map message calls) (boot (files "shutoff") machine)))
colod_main-IsValid_example =
    colod_main-IsValid rpc answers process (files "shutoff") machine calls rpc-IsRpc saved_entries
      (tt, (tt, (tt, tt)))
