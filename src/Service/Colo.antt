-- ===== src/Service/Colo.antt =====
-- `colod_colo_enable`, `colod_colo_disable` and `peer_colod_save_domain`.
pub mod Agree
pub mod Peer
pub mod Roles
use colo_manage_tools.Prelude.{
  is_negative, String, ◌<>◌, true, false, Option, none, some, if◌then◌else◌,
}
use colo_manage_tools.Config.{NodeStatus, ColoDomainStatus, colod_port, is_primary}
use colo_manage_tools.Platform.{Yaml, Os, ColodDomainStatus, RetVal, peer_save_domain}
use colo_manage_tools.World.{
  M, pure, ◌>>=◌, ◌>>◌, gets, fail, succeed, on_option, domain_at, set_domain, set_remote_client,
  remote_call,
}
use colo_manage_tools.SaveFile.{save_domain_info, set_domain_colo_enable}
use colo_manage_tools.Domain.Files.{colo_disable}
use colo_manage_tools.Service.Status.{set_peer_init}

-- The role of a domain on a node that is connected; `none` where the guard of the code stops.
unfoldable pub role_of : NodeStatus → Option ColoDomainStatus
role_of NodeStatus.primary = some ColoDomainStatus.primary
role_of NodeStatus.secondary = some ColoDomainStatus.secondary
role_of _ = none

-- `nds` of `peer_colod_save_domain`
unfoldable pub peer_domain : ColodDomainStatus → ColodDomainStatus
peer_domain ds =
    if ds.colo_enable
    then record ds {
      colo_status =
          if is_primary ds.colo_status
          then ColoDomainStatus.secondary
          else ColoDomainStatus.primary;
    }
    else ds

module _ ⦃Y : Yaml⦄ ⦃O : Os⦄ where
  -- The three failures behind the guard. The line `rs.current_status.local_status ==
  -- COLO_NODE_NONE;` of each is a comparison, and changes nothing.
  unfoldable pub give_up : String → String → M RetVal
  give_up domain_name err = do
    set_domain domain_name (λ d. record d { colo_enable = false })
    fail err

  -- `colod_colo_enable` after the guard, in the role that it chose.
  unfoldable pub enable_as : ColoDomainStatus → String → M RetVal
  enable_as role domain_name = do
    set_domain domain_name (λ d. record d { colo_enable = true; colo_status = role })
    init ← gets (λ w. w.remote_client_init)
    cs ← gets (λ w. w.current_status)
    if init then pure tt else set_remote_client cs.peer_ip colod_port
    ds ← domain_at domain_name
    reply ← remote_call (peer_save_domain ds)
    on_option reply (do set_peer_init false; give_up domain_name "connect to peer colod timeout.")
        (λ crv. if is_negative crv.code then give_up domain_name crv.msg else do
          ds' ← domain_at domain_name
          r ← set_domain_colo_enable domain_name ds'.colo_status
          if is_negative r
              then give_up domain_name "can not set config file."
              else succeed ("build colo domain " <> domain_name <> " success."))

  unfoldable pub colod_colo_enable : String → M RetVal
  colod_colo_enable domain_name = do
    cs ← gets (λ w. w.current_status)
    on_option (role_of cs.local_status) (fail "please connect peer colod first.")
        (λ role. enable_as role domain_name)

  unfoldable pub colod_colo_disable : String → M RetVal
  colod_colo_disable domain_name = do
    r ← colo_disable domain_name
    if is_negative r then fail "can not disable colo domain." else do
      set_domain domain_name (λ d. record d { colo_enable = false })
      succeed "colo disable success"

  unfoldable pub peer_colod_save_domain : ColodDomainStatus → M RetVal
  unfolding peer_domain
  peer_colod_save_domain ds = do
    let nds = peer_domain ds
    saved ← save_domain_info nds
    let (r, err) = saved
    if is_negative r then fail err else do
      r' ← set_domain_colo_enable nds.name nds.colo_status
      if is_negative r'
          then fail "can not set colo peer enable"
          else do set_domain ds.name (λ _. nds); succeed "peer colod save domain success."
