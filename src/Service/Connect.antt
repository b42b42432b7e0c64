-- ===== src/Service/Connect.antt =====
-- `colod_connect_peer`, `colod_connect_status` and the procedures that answer them on the peer.
pub mod Agree
pub mod Mirror
use colo_manage_tools.Prelude.{pos, is_negative, not, String, ◌<>◌, true, false, if◌then◌else◌}
use colo_manage_tools.Config.{NodeStatus, ColoStatus, node_status_name, colod_port}
use colo_manage_tools.Platform.{Yaml, Os, RetVal, connect_reply, peer_save_status}
use colo_manage_tools.World.{
  M, pure, ◌>>=◌, ◌>>◌, gets, modify, fail, succeed, on_option, set_remote_client, remote_call,
}
use colo_manage_tools.SaveFile.{parse_config_file, save_colo_status}
use colo_manage_tools.Service.Status.{rule_line, set_peer_init}

-- The first part of `peer_colod_save_status`: the status of the caller, seen from the peer.
unfoldable pub opposite : NodeStatus → NodeStatus
opposite NodeStatus.primary = NodeStatus.secondary
opposite NodeStatus.secondary = NodeStatus.primary
opposite _ = NodeStatus.none

unfoldable pub mirrored : ColoStatus → ColoStatus
unfolding opposite
mirrored cs = record {
  local_status = opposite cs.local_status;
  port = pos colod_port;
  host_ip = cs.peer_ip;
  host_user = cs.peer_user;
  host_file_path = cs.peer_file_path;
  peer_ip = cs.host_ip;
  peer_user = cs.host_user;
  peer_file_path = cs.host_file_path;
}

module _ ⦃Y : Yaml⦄ ⦃O : Os⦄ where
  -- The part of `colod_connect_peer` after the call of the peer.
  unfoldable pub record_connection : ColoStatus → M RetVal
  record_connection cs = do
    r ← save_colo_status cs
    if is_negative r
        then fail "cannot save colo status"
        else do set_peer_init true; succeed "connect peer success."

  -- `parse_config_file` writes to `rs.current_status`, also what it reads before it fails.
  unfoldable pub colod_connect_peer : String → M RetVal
  colod_connect_peer config_file_path = do
    old ← gets (λ w. w.current_status)
    parsed ← parse_config_file config_file_path old
    let (r, cs) = parsed
    modify (λ w. record w { current_status = cs })
    if is_negative r then fail "can not parse config file." else do
      set_remote_client cs.peer_ip colod_port
      modify (λ w. record w { remote_client_init = true })
      reply ← remote_call (peer_save_status cs)
      on_option reply (fail "connect to peer colod timeout.")
          (λ crv. if is_negative crv.code then fail crv.msg else record_connection cs)

  unfoldable pub status_text : ColoStatus → String
  status_text cs =
      rule_line
      <> ("  local status : " <> node_status_name cs.local_status <> "\n")
      <> ("       host ip : " <> cs.host_ip <> "\n")
      <> ("     host user : " <> cs.host_user <> "\n")
      <> ("host file path : " <> cs.host_file_path <> "\n")
      <> ("       peer ip : " <> cs.peer_ip <> "\n")
      <> ("     peer user : " <> cs.peer_user <> "\n")
      <> ("peer file path : " <> cs.peer_file_path <> "\n")

  unfoldable pub colod_connect_status : M RetVal
  colod_connect_status = do
    connected ← gets (λ w. w.peer_init)
    if not connected then fail "connect-peer first" else do
      cs ← gets (λ w. w.current_status)
      reply ← remote_call connect_reply
      on_option reply
          (do
            set_peer_init false
            succeed (status_text cs <> "   peer status : inactive\n" <> rule_line))
          (λ crv. succeed (status_text cs <> ("   peer status : " <> crv.msg <> "\n") <> rule_line))

  unfoldable pub peer_colod_connect_test_reply : M RetVal
  peer_colod_connect_test_reply = do
    cs ← gets (λ w. w.current_status)
    succeed (node_status_name cs.local_status)

  unfoldable pub peer_colod_connect_test : M RetVal
  peer_colod_connect_test = do
    connected ← gets (λ w. w.peer_init)
    if not connected then succeed "connect-peer first." else do
      reply ← remote_call connect_reply
      on_option reply (do set_peer_init false; fail "connect to peer colod timeout.")
          (λ crv. succeed crv.msg)

  unfoldable pub peer_colod_save_status : ColoStatus → M RetVal
  unfolding mirrored
  peer_colod_save_status cs = do
    let cs' = mirrored cs
    modify (λ w. record w { current_status = cs' })
    init ← gets (λ w. w.remote_client_init)
    if init then pure tt else set_remote_client cs'.peer_ip colod_port
    r ← save_colo_status cs'
    if is_negative r
        then fail "cannot save colo status"
        else do set_peer_init true; succeed "peer colod save status success."
