-- ===== src/Server.antt =====
-- src/utils/colod_server.cpp and include/colod_server.h: the class `ColodServer`, the table of
-- procedures that it binds, and the messages by which the callers name them. The RPC library of
-- include/buttonrpc.hpp is third-party code: its server is a parameter.
pub mod Bound
use colo_manage_tools.Prelude.{ℕ, ℤ, String, Bool, Option, none, some, ◌≡◌, ◌==◌, if◌then◌else◌}
use colo_manage_tools.Prelude.Throws
use colo_manage_tools.Config.{ColoStatus, ColoDomainStatus}
use colo_manage_tools.Platform.{Yaml, Os, ColodDomainStatus, RetVal, Request}
use colo_manage_tools.Platform.{connect_reply, peer_save_status, peer_save_domain}
use colo_manage_tools.Platform.{peer_start_domain, peer_destroy_domain, peer_send_qmpcmds}
use colo_manage_tools.World.{M}
use colo_manage_tools.Service.Status.{colod_list, colod_vm_status, colod_domain_test}
use colo_manage_tools.Service.Connect.{
  colod_connect_peer, colod_connect_status, peer_colod_connect_test, peer_colod_connect_test_reply,
  peer_colod_save_status,
}
use colo_manage_tools.Service.Define.{colod_define, colod_undefine}
use colo_manage_tools.Service.Start.{colod_start, peer_colod_start_domain}
use colo_manage_tools.Service.Destroy.{colod_destroy, peer_colod_destroy_domain}
use colo_manage_tools.Service.Colo.{colod_colo_enable, colod_colo_disable, peer_colod_save_domain}
use colo_manage_tools.Service.Failover.{
  colod_set_params, colod_do_failover, peer_colod_send_qmpcmds,
}
use colo_manage_tools.Service.Peer.{Call}
use colo_manage_tools.Cli.{CommandType, command_name}

-- The arguments of a message, as the caller packs them.
pub data Arguments : Type 0 where
  nothing : Arguments
  text : String → Arguments
  flag : Bool → Arguments
  text_flag : String → Bool → Arguments
  param : String → String → ℤ → Arguments
  status : ColoStatus → Arguments
  domain : ColodDomainStatus → Arguments
  text_role : String → ColoDomainStatus → Arguments

module _ ⦃Y : Yaml⦄ ⦃O : Os⦄ where
  -- What can be bound: a function of the program, by the types of its parameters.
  pub data Procedure : Type 0 where
    of_nothing : M RetVal → Procedure
    of_text : (String → M RetVal) → Procedure
    of_flag : (Bool → M RetVal) → Procedure
    of_text_flag : (String → Bool → M RetVal) → Procedure
    of_param : (String → String → ℤ → M RetVal) → Procedure
    of_status : (ColoStatus → M RetVal) → Procedure
    of_domain : (ColodDomainStatus → M RetVal) → Procedure
    of_text_role : (String → ColoDomainStatus → M RetVal) → Procedure

  -- The server of buttonrpc.
  pub record Rpc : Type 1 where
    pub Server : Type 0
    pub new : Server
    pub as_server : ℕ → Server → Server
    pub bind : String → Procedure → Server → Server
    -- the procedure that a message of this name is given to
    pub handler : Server → String → Option Procedure

  -- A name has the procedure that it was bound to last.
  pub record IsRpc (R : Rpc) : Type 0 where
    pub handler-bind :
        (s : R.Server) (k j : String) (f : Procedure)
        → R.handler (R.bind k f s) j ≡ (if k == j then some f else R.handler s j)

  -- A procedure on the arguments of a message; `none` where they are of other types.
  abbrev pub invoke : Procedure → Arguments → Option (M RetVal)
  invoke (of_nothing f) nothing = some f
  invoke (of_text f) (text s) = some (f s)
  invoke (of_flag f) (flag b) = some (f b)
  invoke (of_text_flag f) (text_flag s b) = some (f s b)
  invoke (of_param f) (param s p v) = some (f s p v)
  invoke (of_status f) (status cs) = some (f cs)
  invoke (of_domain f) (domain ds) = some (f ds)
  invoke (of_text_role f) (text_role s r) = some (f s r)
  invoke _ _ = none

  module _ (R : Rpc) where
    -- ColodServer
    pub record ColodServer : Type 0 where
      pub pid : ℤ
      pub port : ℕ
      pub brpc : R.Server

    -- ColodServer(pid, port)
    unfoldable pub colod_server : ℤ → ℕ → ColodServer
    colod_server pid port = record { pid = pid; port = port; brpc = R.new }

    -- The calls of `bind` for the command line tool, and those for the peer.
    bind_commands : R.Server → R.Server
    bind_commands s =
        let name = command_name in
        let s1 = R.bind (name CommandType.connect_peer) (of_text colod_connect_peer) s in
        let s2 = R.bind (name CommandType.connect_status) (of_nothing colod_connect_status) s1 in
        let s3 = R.bind (name CommandType.define) (of_text colod_define) s2 in
        let s4 = R.bind (name CommandType.undefine) (of_text colod_undefine) s3 in
        let s5 = R.bind (name CommandType.list) (of_flag colod_list) s4 in
        let s6 = R.bind (name CommandType.start) (of_text_flag colod_start) s5 in
        let s7 = R.bind (name CommandType.destroy) (of_text colod_destroy) s6 in
        let s8 = R.bind (name CommandType.colo_enabling) (of_text colod_colo_enable) s7 in
        let s9 = R.bind (name CommandType.colo_disabling) (of_text colod_colo_disable) s8 in
        let s10 = R.bind (name CommandType.vm_status) (of_text colod_vm_status) s9 in
        let s11 = R.bind (name CommandType.set_params) (of_param colod_set_params) s10 in
        R.bind (name CommandType.do_failover) (of_text colod_do_failover) s11

    bind_peer : R.Server → R.Server
    bind_peer s =
        let s1 = R.bind "connect-test" (of_nothing peer_colod_connect_test) s in
        let s2 = R.bind "connect-reply" (of_nothing peer_colod_connect_test_reply) s1 in
        let s3 = R.bind "domain-test" (of_text colod_domain_test) s2 in
        let s4 = R.bind "peer-save-status" (of_status peer_colod_save_status) s3 in
        let s5 = R.bind "peer-save-domain" (of_domain peer_colod_save_domain) s4 in
        let s6 = R.bind "peer-start-domain" (of_text_flag peer_colod_start_domain) s5 in
        let s7 = R.bind "peer-destroy-domain" (of_text peer_colod_destroy_domain) s6 in
        R.bind "peer-send-qmpcmds" (of_text_role peer_colod_send_qmpcmds) s7

    unfoldable pub server_init : ColodServer → ColodServer
    unfolding bind_commands bind_peer
    server_init s = record s { brpc = bind_peer (bind_commands (R.as_server s.port s.brpc)) }

    -- What the server runs for a message; `none` where nothing is bound to its name.
    unfoldable pub handle : ColodServer → String × Arguments → Option (M RetVal)
    handle s (name, args) = Throws.◌>>=◌ (R.handler s.brpc name) (λ f. invoke f args)

-- The messages of `remote_client.call` in src/utils/colod_service.cpp.
unfoldable pub request_message : Request → String × Arguments
request_message connect_reply = ("connect-reply", nothing)
request_message (peer_save_status cs) = ("peer-save-status", status cs)
request_message (peer_save_domain ds) = ("peer-save-domain", domain ds)
request_message (peer_start_domain name colo) = ("peer-start-domain", text_flag name colo)
request_message (peer_destroy_domain name) = ("peer-destroy-domain", text name)
request_message (peer_send_qmpcmds name cds) = ("peer-send-qmpcmds", text_role name cds)

-- The messages of `local_client.call` in src/main.cpp; "connect-test" is bound and called nowhere.
unfoldable pub message : Call → String × Arguments
unfolding request_message
message (Call.connect_peer path) = (command_name CommandType.connect_peer, text path)
message Call.connect_status = (command_name CommandType.connect_status, nothing)
message (Call.define path) = (command_name CommandType.define, text path)
message (Call.undefine name) = (command_name CommandType.undefine, text name)
message (Call.list all) = (command_name CommandType.list, flag all)
message (Call.start name colo) = (command_name CommandType.start, text_flag name colo)
message (Call.destroy name) = (command_name CommandType.destroy, text name)
message (Call.colo_enable name) = (command_name CommandType.colo_enabling, text name)
message (Call.colo_disable name) = (command_name CommandType.colo_disabling, text name)
message (Call.vm_status name) = (command_name CommandType.vm_status, text name)
message (Call.set_params name property value) =
    (command_name CommandType.set_params, param name property value)
message (Call.do_failover name) = (command_name CommandType.do_failover, text name)
message Call.connect_test = ("connect-test", nothing)
message (Call.domain_test name) = ("domain-test", text name)
message (Call.from_peer r) = request_message r
