-- ===== src/Daemon.antt =====
-- src/colod.cpp: the start of the daemon, and its `main`.
pub mod Detached
pub mod Lifetime
use colo_manage_tools.Prelude.{
  ℕ, ℤ, pos, negsuc, is_negative, is_minus_one, is_positive, String, ◌<>◌, Bool, true, false,
  Option, none, some, List, [], ◌∷◌, ltb, if◌then◌else◌,
}
use Prim.Native.Nat.{compare, Ordering}
use colo_manage_tools.Prelude.Decimal.{to_string}
use colo_manage_tools.Config.{NodeStatus, ColoStatus}
use colo_manage_tools.Platform.{Yaml, Os, RetVal}
use colo_manage_tools.World.{World, M, pure, ◌>>=◌, ◌>>◌, on_option}
use colo_manage_tools.Service.Status.{rs_init}
use colo_manage_tools.Server.{Arguments, Rpc, ColodServer, colod_server, server_init, handle}

-- DEFAULT_LOG_FILE (include/config.h)
abbrev pub log_file : String
log_file = "/usr/local/etc/colod/colod.log"

-- What the process has of the operating system, and the globals `uid` and `_running`.
pub record Process : Type 0 where
  pub uid : ℕ
  pub running : Bool
  -- whether it leads a session of its own, its directory, and its mask for new files
  pub leads_session : Bool
  pub directory : String
  pub mask : ℕ
  -- the file that a descriptor stands for
  pub descriptors : ℕ → Option String
  -- whether SIGTERM is given to `sigterm_handler`
  pub handles_sigterm : Bool

-- What the system calls answer: fork, getuid, setuid(0), and open of the log file.
pub record Answers : Type 0 where
  pub fork : ℤ
  pub getuid : ℕ
  pub setuid : ℤ
  pub open_log : ℤ

-- The process ends with a status and with lines printed, or goes on with the value returned.
pub data Start : Type 0 where
  exited : ℕ → List String → Start
  detached : ℤ → Process → Start

unfoldable pub sigterm_handler : Process → Process
sigterm_handler p = record p { running = false }

abbrev same_number : ℕ → ℕ → Bool
same_number a b = elim (compare a b) [ Ordering.eq ↦ true | _ ↦ false ]

-- dup2(from, to), and close(fd)
unfoldable pub dup2 : ℕ → ℕ → Process → Process
dup2 from to p = record p {
  descriptors = λ n. if same_number n to then p.descriptors from else p.descriptors n;
}

unfoldable pub close : ℕ → Process → Process
close fd p = record p { descriptors = λ n. if same_number n fd then none else p.descriptors n }

-- The log file takes the place of the standard descriptors, where it could be opened; `open` answers
-- -1 or a descriptor.
unfoldable pub redirect : ℤ → Process → Process
unfolding dup2 close
redirect (negsuc n) p = p
redirect (pos fd) p =
    let p0 = record p {
      descriptors = λ n. if same_number n fd then some log_file else p.descriptors n;
    } in
    let p3 = dup2 fd 2 (dup2 fd 1 (dup2 fd 0 p0)) in if ltb 2 fd then close fd p3 else p3

unfoldable pub colod_daemon : Answers → Process → Start
unfolding redirect
colod_daemon a p =
    if is_negative a.fork
    then exited 1 []
    else if is_positive a.fork
    then exited 0 (("colod now is running with pid = " <> to_string a.fork) ∷ [])
    else (let p1 = record p { uid = a.getuid } in
        if is_negative a.setuid
        then exited 0 ("switch to root user failed, please run with sudo." ∷ [])
        else (let p2 = record p1 { leads_session = true; directory = "/"; mask = 0 } in
            let p3 = redirect a.open_log p2 in
            detached a.fork (record p3 { handles_sigterm = true })))

module _ ⦃Y : Yaml⦄ ⦃O : Os⦄ where
  -- The globals of src/utils/colod_service.cpp as the process finds them: static, so zero.
  abbrev pub boot : (String → Option Y.Text) → O.State → World
  boot files os = record {
    current_status = record {
      local_status = NodeStatus.none;
      port = pos 0;
      host_ip = "";
      host_user = "";
      host_file_path = "";
      peer_ip = "";
      peer_user = "";
      peer_file_path = "";
    };
    domains = [];
    remote_address = none;
    remote_client_init = false;
    peer_init = false;
    files = files;
    os = os;
  }

  module _ (R : Rpc) where
    -- ColodServer::run, on the messages that arrive, one after the other; `none` is the answer of
    -- the RPC library to a message whose name is not bound.
    unfoldable pub run : ColodServer R → List (String × Arguments) → M (List (Option RetVal))
    unfolding handle
    run s [] = pure []
    run s (m ∷ ms) = do
      a ← on_option (handle R s m) (pure none) (λ f. f >>= λ ret. pure (some ret))
      rest ← run s ms
      pure (a ∷ rest)

    -- The rest of `main`: the server, on the messages that arrive.
    unfoldable pub serve_messages : ℤ → List (String × Arguments) → M (List (Option RetVal))
    serve_messages pid ms = do rs_init; run (server_init R (colod_server R pid 5678)) ms

    -- `main` after `colod_daemon`, on the messages that arrive; a process that has ended has no answers.
    unfoldable pub after_start : Start → List (String × Arguments) → M (List (Option RetVal))
    unfolding serve_messages
    after_start (exited code lines) ms = pure []
    after_start (detached pid p) ms = serve_messages pid ms

    unfoldable pub colod_main :
        Answers → Process → List (String × Arguments) → M (List (Option RetVal))
    unfolding after_start
    colod_main a p ms = after_start (colod_daemon a p) ms
