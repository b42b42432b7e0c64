-- ===== src/Platform/Sample/Machine.antt =====
-- An operating system whose answers are given by a record, with a log of what was asked of it.
use colo_manage_tools.Prelude.{true, false, ℤ, pos, String, Bool, Option, List, [], ◌∷◌, ◌++◌}
use colo_manage_tools.Platform.{Os, Request, RetVal, ShellCommand}

pub data Event : Type 0 where
  killed : ℤ → Event
  forked : ShellCommand → Event
  sent : String → Event
  called : Request → Event

pub record Machine : Type 0 where
  pub running : ℤ → Bool
  pub can_kill : Bool
  pub fork_result : ℤ
  pub send_result : ℤ
  pub recv_result : ℤ
  pub reply : Request → Option RetVal
  pub log : List Event

abbrev note : Event → Machine → Machine
note e m = record m { log = m.log ++ e ∷ [] }

instance abbrev pub sample_os : Os
sample_os = record {
  State = Machine;
  exists_process = λ m pid. m.running pid;
  kill_process = λ m pid. (m.can_kill, note (killed pid) m);
  fork_exec = λ m cmd. (m.fork_result, note (forked cmd) m);
  wait_process = λ m pid. (m.can_kill, m);
  socket = λ m. (pos 3, m);
  connect = λ m fd ip port. (pos 0, m);
  send = λ m fd msg. (m.send_result, note (sent msg) m);
  recv = λ m fd. (m.recv_result, "{}", m);
  close = λ m fd. m;
  can_open = λ m path. true;
  same_file = λ p q. false;
  is_endpoint = λ m ip port. true;
  call_throws = λ m ip port r. false;
  call = λ m ip port r. (m.reply r, note (called r) m);
}
