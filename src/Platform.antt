-- ===== src/Platform.antt =====
-- What the program uses and does not implement: yaml-cpp, the operating system and the RPC client
-- (include/yaml-cpp, POSIX, include/buttonrpc.hpp). They are instance arguments of the model.
pub mod Laws
pub mod Sample
use colo_manage_tools.Prelude.{ℕ, ℤ, String, Bool, Option, none, some, List, if◌then◌else◌}
use colo_manage_tools.Config.{DomainStatus, ColoDomainStatus, ColoStatus}

-- colod_domain_status (include/colod.h)
pub record ColodDomainStatus : Type 0 where
  pub pid : ℤ
  pub name : String
  pub status : DomainStatus
  pub colo_enable : Bool
  pub colo_status : ColoDomainStatus
  pub config_file_path : String

-- colod_ret_val (include/colod_service.h)
pub record RetVal : Type 0 where
  pub code : ℤ
  pub msg : String

-- shell_command (include/shell_command.h)
pub record ShellCommand : Type 0 where
  pub binary_path : String
  pub args : List String
  pub nargs : ℕ

-- The procedures that one colod calls on its peer, with their arguments.
pub data Request : Type 0 where
  connect_reply : Request
  peer_save_status : ColoStatus → Request
  peer_save_domain : ColodDomainStatus → Request
  peer_start_domain : String → Bool → Request
  peer_destroy_domain : String → Request
  peer_send_qmpcmds : String → ColoDomainStatus → Request

-- YAML::Node. `none` in place of a value is a C++ exception.
pub record Yaml : Type 1 where
  pub Node : Type 0
  pub Text : Type 0
  -- LoadFile, on the text of the file, and `ofstream << node`
  pub load : Text → Option Node
  pub emit : Node → Text
  -- what a file has that was opened by ofstream and not written to
  pub blank : Text
  -- Node(), and node[key] where the key is not there
  pub empty : Node
  pub is_defined : Node → Bool
  pub is_null : Node → Bool
  pub is_scalar : Node → Bool
  pub is_sequence : Node → Bool
  -- node[key] and node[key] = value, on a node that is no scalar
  pub field : Node → String → Node
  pub set_field : Node → String → Node → Node
  -- node[0], ... , node[node.size() - 1]; node[i] = value; node.push_back(value)
  pub items : Node → List Node
  pub set_item : Node → ℕ → Node → Node
  pub push_back : Node → Node → Node
  -- node.as<T>() and assignment of a value
  pub as_string : Node → Option String
  pub as_int : Node → Option ℤ
  pub as_ushort : Node → Option ℕ
  pub as_bool : Node → Option Bool
  pub of_string : String → Node
  pub of_int : ℤ → Node
  pub of_bool : Bool → Node

-- The system calls and the RPC client, over a state of which the program sees the answers only.
pub record Os : Type 1 where
  pub State : Type 0
  -- kill(pid, 0) >= 0, and kill(pid, SIGKILL) >= 0
  pub exists_process : State → ℤ → Bool
  pub kill_process : State → ℤ → Bool × State
  -- fork() as the parent sees it, with execvp of the command in the child; waitpid(pid) > 0
  pub fork_exec : State → ShellCommand → ℤ × State
  pub wait_process : State → ℤ → Bool × State
  -- socket, connect, send, recv with the text received, shutdown and close
  pub socket : State → ℤ × State
  pub connect : State → ℤ → String → ℕ → ℤ × State
  pub send : State → ℤ → String → ℤ × State
  pub recv : State → ℤ → ℤ × String × State
  pub close : State → ℤ → State
  -- whether an ofstream on this path opens, and whether two paths name the same file
  pub can_open : State → String → Bool
  pub same_file : String → String → Bool
  -- whether zmq takes the address in as_client; it throws on one that is no endpoint
  pub is_endpoint : State → String → ℕ → Bool
  -- whether zmq throws in remote_client.call, as it does on a socket that is not ready to send
  pub call_throws : State → String → ℕ → Request → Bool
  -- remote_client.call to an address, where it does not throw; `none` is an error_code() other than
  -- RPC_ERR_SUCCESS
  pub call : State → String → ℕ → Request → Option RetVal × State

-- node[key]; yaml-cpp throws BadSubscript on a scalar.
module _ ⦃Y : Yaml⦄ where
  unfoldable pub at : Y.Node → String → Option Y.Node
  at n key = if Y.is_scalar n then none else some (Y.field n key)

  unfoldable pub set_at : Y.Node → String → Y.Node → Option Y.Node
  set_at n key v = if Y.is_scalar n then none else some (Y.set_field n key v)
