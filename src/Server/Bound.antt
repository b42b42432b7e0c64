-- ===== src/Server/Bound.antt =====
-- The table of src/utils/colod_server.cpp against the names that the callers use.
use colo_manage_tools.Prelude.{ℕ, ℤ, some, ◌≡◌}
use colo_manage_tools.Platform.{Yaml, Os, Request}
use colo_manage_tools.Platform.{connect_reply, peer_save_status, peer_save_domain}
use colo_manage_tools.Platform.{peer_start_domain, peer_destroy_domain, peer_send_qmpcmds}
use colo_manage_tools.Service.Peer.{Call, answer, serve}
use colo_manage_tools.Cli.{command_name}
use colo_manage_tools.Server.{
  Rpc, IsRpc, colod_server, server_init, handle, request_message, message,
}

module _ ⦃Y : Yaml⦄ ⦃O : Os⦄ (R : Rpc) (L : IsRpc R) (pid : ℤ) (port : ℕ) where
  handle-request :
      (r : Request)
      → handle R (server_init R (colod_server R pid port)) (request_message r) ≡ some (answer r)
  unfolding handle server_init colod_server request_message answer command_name
  handle-request connect_reply = simp (L.handler-bind)
  handle-request (peer_save_status cs) = simp (L.handler-bind)
  handle-request (peer_save_domain ds) = simp (L.handler-bind)
  handle-request (peer_start_domain name colo) = simp (L.handler-bind)
  handle-request (peer_destroy_domain name) = simp (L.handler-bind)
  handle-request (peer_send_qmpcmds name cds) = simp (L.handler-bind)

  -- A message that the command line tool or a peer sends is given to the procedure that the
  -- server runs for that call, with the arguments of the call; a name of the RPC library must have
  -- the procedure that it was bound to last.
  pub handle-message :
      (c : Call) → handle R (server_init R (colod_server R pid port)) (message c) ≡ some (serve c)
  unfolding handle server_init colod_server message serve command_name
  handle-message (Call.connect_peer path) = simp (L.handler-bind)
  handle-message (Call.from_peer r) = handle-request r
  handle-message _ = simp (L.handler-bind)
