-- ===== src/Config/Names.antt =====
-- The maps between states and names of include/config.h, in both directions.
use colo_manage_tools.Prelude.{◌≡◌, refl}
use colo_manage_tools.Config.{NodeStatus, DomainStatus, ColoDomainStatus}
use colo_manage_tools.Config.{node_status, node_status_name, domain_status, domain_status_name}
use colo_manage_tools.Config.{colo_domain_status, colo_domain_status_name}

-- Each state of a node is found again under the name that is written for it.
pub node_status-name : (s : NodeStatus) → node_status (node_status_name s) ≡ s
unfolding node_status node_status_name
node_status-name NodeStatus.none = refl
node_status-name NodeStatus.primary = refl
node_status-name NodeStatus.secondary = refl
node_status-name NodeStatus.error = refl

pub domain_status-name : (s : DomainStatus) → domain_status (domain_status_name s) ≡ s
unfolding domain_status domain_status_name
domain_status-name DomainStatus.shut_off = refl
domain_status-name _ = refl

pub colo_domain_status-name :
    (s : ColoDomainStatus) → colo_domain_status (colo_domain_status_name s) ≡ s
unfolding colo_domain_status colo_domain_status_name
colo_domain_status-name ColoDomainStatus.none = refl
colo_domain_status-name _ = refl
