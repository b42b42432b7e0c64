-- ===== src/Service/Destroy.antt =====
-- `colod_destroy` and `peer_colod_destroy_domain`.
pub mod Stopped
use colo_manage_tools.Prelude.{minus_one, is_negative, not, String, ◌<>◌, if◌then◌else◌}
use colo_manage_tools.Config.{DomainStatus, is_shut_off, is_running, is_colo_enabled}
use colo_manage_tools.Platform.{Yaml, Os, RetVal, peer_destroy_domain}
use colo_manage_tools.World.{M, ◌>>=◌, ◌>>◌, fail, succeed, domain_at, set_domain, remote_call}
use colo_manage_tools.RunVm.{destroy_domain}
use colo_manage_tools.Service.Status.{unless_refused, test_domain_status}

module _ ⦃Y : Yaml⦄ ⦃O : Os⦄ where
  -- The end of both branches, and of the peer's procedure: the local machine.
  unfoldable pub destroy_here : String → String → M RetVal
  destroy_here domain_name done = do
    r ← destroy_domain domain_name
    if is_negative r then fail "can not destroy domain." else do
      set_domain domain_name (λ d. record d { pid = minus_one; status = DomainStatus.shut_off })
      succeed done

  -- The branch DOMAIN_COLO_ENABLED.
  unfoldable pub destroy_colo : String → M RetVal
  destroy_colo domain_name = do
    reply ← remote_call (peer_destroy_domain domain_name)
    unless_refused reply ("colo domain " <> domain_name <> " peer destroy failed.")
        (destroy_here domain_name ("colo domain " <> domain_name <> " destroy."))

  unfoldable pub colod_destroy : String → M RetVal
  colod_destroy domain_name = do
    s ← test_domain_status domain_name
    if is_shut_off s then fail "domain is shutoff." else do
      ds ← domain_at domain_name
      if is_running ds.status
          then destroy_here domain_name ("domain " <> domain_name <> " destroy.")
          else (if is_colo_enabled ds.status
              then destroy_colo domain_name
              else fail ("can not destroy domain " <> domain_name <> " : wrong status."))

  unfoldable pub peer_colod_destroy_domain : String → M RetVal
  peer_colod_destroy_domain domain_name = do
    ds ← domain_at domain_name
    if not ds.colo_enable then fail "can not destroy non-colo domain." else do
      s ← test_domain_status domain_name
      if is_shut_off s
          then fail "remote domain is shutoff."
          else destroy_here domain_name ("colo domain " <> domain_name <> " destroy.")
