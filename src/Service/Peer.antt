-- ===== src/Service/Peer.antt =====
-- src/utils/colod_server.cpp: the procedures that a colod offers, under their names.
use colo_manage_tools.Prelude.{ℤ, String, Bool}
use colo_manage_tools.Platform.{Yaml, Os, RetVal, Request}
use colo_manage_tools.Platform.{connect_reply, peer_save_status, peer_save_domain}
use colo_manage_tools.Platform.{peer_start_domain, peer_destroy_domain, peer_send_qmpcmds}
use colo_manage_tools.World.{M}
use colo_manage_tools.Service.Status.{colod_list, colod_vm_status, colod_domain_test}
use colo_manage_tools.Service.Connect.{
  colod_connect_peer, colod_connect_status, peer_colod_connect_test, peer_colod_connect_test_reply,
  peer_colod_save_status,
}
use colo_manage_tools.Service.Define.{colod_define, colod_undefine}
use colo_manage_tools.Service.Start.{colod_start, peer_colod_start_domain}
use colo_manage_tools.Service.Destroy.{colod_destroy, peer_colod_destroy_domain}
use colo_manage_tools.Service.Colo.{colod_colo_enable, colod_colo_disable, peer_colod_save_domain}
use colo_manage_tools.Service.Failover.{
  colod_set_params, colod_do_failover, peer_colod_send_qmpcmds,
}

-- The calls that a colod answers: those of the command line tool, and those of its peer.
pub data Call : Type 0 where
  connect_peer : String → Call
  connect_status : Call
  define : String → Call
  undefine : String → Call
  list : Bool → Call
  start : String → Bool → Call
  destroy : String → Call
  colo_enable : String → Call
  colo_disable : String → Call
  vm_status : String → Call
  set_params : String → String → ℤ → Call
  do_failover : String → Call
  connect_test : Call
  domain_test : String → Call
  from_peer : Request → Call

module _ ⦃Y : Yaml⦄ ⦃O : Os⦄ where
  -- The procedures that are bound for the calls of a peer.
  unfoldable pub answer : Request → M RetVal
  answer connect_reply = peer_colod_connect_test_reply
  answer (peer_save_status cs) = peer_colod_save_status cs
  answer (peer_save_domain ds) = peer_colod_save_domain ds
  answer (peer_start_domain name colo) = peer_colod_start_domain name colo
  answer (peer_destroy_domain name) = peer_colod_destroy_domain name
  answer (peer_send_qmpcmds name cds) = peer_colod_send_qmpcmds name cds

  unfoldable pub serve : Call → M RetVal
  serve (connect_peer path) = colod_connect_peer path
  serve connect_status = colod_connect_status
  serve (define path) = colod_define path
  serve (undefine name) = colod_undefine name
  serve (list all) = colod_list all
  serve (start name colo) = colod_start name colo
  serve (destroy name) = colod_destroy name
  serve (colo_enable name) = colod_colo_enable name
  serve (colo_disable name) = colod_colo_disable name
  serve (vm_status name) = colod_vm_status name
  serve (set_params name property value) = colod_set_params name property value
  serve (do_failover name) = colod_do_failover name
  serve connect_test = peer_colod_connect_test
  serve (domain_test name) = colod_domain_test name
  serve (from_peer r) = answer r
