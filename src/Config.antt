-- ===== src/Config.antt =====
-- include/config.h: the states of a node and of a domain, their names, and the status of a node.
pub mod Names
use colo_manage_tools.Prelude.{ℕ, ℤ, String, Bool, true, false, ◌==◌, if◌then◌else◌}

-- COLO_NODE_STATUS
pub data NodeStatus : Type 0 where
  none primary secondary error : NodeStatus

-- DOMAIN_STATUS
pub data DomainStatus : Type 0 where
  shut_off start running colo_enabled error : DomainStatus

-- COLO_DOMAIN_STATUS
pub data ColoDomainStatus : Type 0 where
  none primary secondary failover degrade dead : ColoDomainStatus

-- colo_node_status_to_str_map
unfoldable pub node_status_name : NodeStatus → String
node_status_name NodeStatus.none = "none"
node_status_name NodeStatus.primary = "primary"
node_status_name NodeStatus.secondary = "secondary"
node_status_name NodeStatus.error = "error"

-- colo_node_status_map[s]; `operator[]` gives the first enumerator for a text that is no key.
unfoldable pub node_status : String → NodeStatus
node_status s =
    if s == "none"
    then NodeStatus.none
    else if s == "primary"
    then NodeStatus.primary
    else if s == "secondary"
    then NodeStatus.secondary
    else if s == "error"
    then NodeStatus.error
    else NodeStatus.none

-- domain_status_to_str_map
unfoldable pub domain_status_name : DomainStatus → String
domain_status_name DomainStatus.shut_off = "shutoff"
domain_status_name DomainStatus.start = "start"
domain_status_name DomainStatus.running = "running"
domain_status_name DomainStatus.colo_enabled = "colo-enabled"
domain_status_name DomainStatus.error = "error"

-- domain_status_map[s]
unfoldable pub domain_status : String → DomainStatus
domain_status s =
    if s == "shutoff"
    then DomainStatus.shut_off
    else if s == "start"
    then DomainStatus.start
    else if s == "running"
    then DomainStatus.running
    else if s == "colo-enabled"
    then DomainStatus.colo_enabled
    else if s == "error"
    then DomainStatus.error
    else DomainStatus.shut_off

-- colo_domain_status_to_str_map
unfoldable pub colo_domain_status_name : ColoDomainStatus → String
colo_domain_status_name ColoDomainStatus.none = "none"
colo_domain_status_name ColoDomainStatus.primary = "primary"
colo_domain_status_name ColoDomainStatus.secondary = "secondary"
colo_domain_status_name ColoDomainStatus.failover = "failover"
colo_domain_status_name ColoDomainStatus.degrade = "degrade"
colo_domain_status_name ColoDomainStatus.dead = "dead"

-- colo_domain_status_map[s]
unfoldable pub colo_domain_status : String → ColoDomainStatus
colo_domain_status s =
    if s == "none"
    then ColoDomainStatus.none
    else if s == "primary"
    then ColoDomainStatus.primary
    else if s == "secondary"
    then ColoDomainStatus.secondary
    else if s == "failover"
    then ColoDomainStatus.failover
    else if s == "degrade"
    then ColoDomainStatus.degrade
    else if s == "dead"
    then ColoDomainStatus.dead
    else ColoDomainStatus.none

-- The tests `==` of the code on these enumerations.
abbrev pub is_shut_off : DomainStatus → Bool
is_shut_off DomainStatus.shut_off = true
is_shut_off _ = false

abbrev pub is_running : DomainStatus → Bool
is_running DomainStatus.running = true
is_running _ = false

abbrev pub is_colo_enabled : DomainStatus → Bool
is_colo_enabled DomainStatus.colo_enabled = true
is_colo_enabled _ = false

abbrev pub is_primary_node : NodeStatus → Bool
is_primary_node NodeStatus.primary = true
is_primary_node _ = false

abbrev pub is_secondary_node : NodeStatus → Bool
is_secondary_node NodeStatus.secondary = true
is_secondary_node _ = false

abbrev pub is_primary : ColoDomainStatus → Bool
is_primary ColoDomainStatus.primary = true
is_primary _ = false

abbrev pub is_secondary : ColoDomainStatus → Bool
is_secondary ColoDomainStatus.secondary = true
is_secondary _ = false

-- DEFAULT_SAVE_FILE
abbrev pub save_file : String
save_file = "/usr/local/etc/colod/save.yaml"

-- COLOD_PORT
abbrev pub colod_port : ℕ
colod_port = 5678

-- colo_status. Its field `colod_port` is only ever assigned COLOD_PORT and read nowhere.
pub record ColoStatus : Type 0 where
  pub local_status : NodeStatus
  pub port : ℤ
  pub host_ip : String
  pub host_user : String
  pub host_file_path : String
  pub peer_ip : String
  pub peer_user : String
  pub peer_file_path : String
