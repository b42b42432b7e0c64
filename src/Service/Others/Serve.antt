-- ===== src/Service/Others/Serve.antt =====
-- A call that names a domain leaves the records of the other domains alone.
use colo_manage_tools.Prelude.{String, false, Option, none, some, ◌==◌, ◌≡◌, refl, arith}
use colo_manage_tools.Platform.{Yaml, Os, ColodDomainStatus, Request}
use colo_manage_tools.Platform.{connect_reply, peer_save_status, peer_save_domain}
use colo_manage_tools.Platform.{peer_start_domain, peer_destroy_domain, peer_send_qmpcmds}
use colo_manage_tools.Domains
use colo_manage_tools.Domains.{lookup-insert, lookup-erase}
use colo_manage_tools.World.{World}
use colo_manage_tools.World.Keeps.{Keeps, final, keeps_rules}
use colo_manage_tools.Frame.{Keeps-save_domain_info, Keeps-set_domain_colo_enable}
use colo_manage_tools.Service.Colo.{peer_colod_save_domain}
use colo_manage_tools.Service.Peer.{Call, answer, serve}
use colo_manage_tools.Service.Others.{
  IsOther, IsOther-IsLocal, IsOther-colo_disable, IsOther-colo_enable, IsOther-destroy,
  IsOther-domain_test, IsOther-failover, IsOther-peer_destroy, IsOther-peer_start,
  IsOther-send_qmpcmds, IsOther-set_domain, IsOther-set_params, IsOther-start, IsOther-undefine,
  IsOther-vm_status,
}

-- The domain that a call of a peer names, and the one that a call names.
abbrev pub named_by_peer : Request → Option String
named_by_peer (peer_save_domain ds) = some ds.name
named_by_peer (peer_start_domain name colo) = some name
named_by_peer (peer_destroy_domain name) = some name
named_by_peer (peer_send_qmpcmds name cds) = some name
named_by_peer _ = none

abbrev pub named_by : Call → Option String
named_by (Call.undefine name) = some name
named_by (Call.start name colo) = some name
named_by (Call.destroy name) = some name
named_by (Call.colo_enable name) = some name
named_by (Call.colo_disable name) = some name
named_by (Call.vm_status name) = some name
named_by (Call.set_params name property value) = some name
named_by (Call.do_failover name) = some name
named_by (Call.domain_test name) = some name
named_by (Call.from_peer r) = named_by_peer r
named_by _ = none

module _ ⦃Y : Yaml⦄ ⦃O : Os⦄ (k : String) (o : Option ColodDomainStatus) where
  IsOther-save_domain :
      (ds : ColodDomainStatus)
      → (ds.name == k) ≡ false
      → Keeps (IsOther k o) (peer_colod_save_domain ds)
  unfolding peer_colod_save_domain
  IsOther-save_domain ds apart =
      search
        (
          keeps_rules, IsOther-IsLocal, IsOther-set_domain, Keeps-save_domain_info,
          Keeps-set_domain_colo_enable,
        )
        depth 16

  IsOther-answer :
      (r : Request) (name : String)
      → named_by_peer r ≡ some name
      → (name == k) ≡ false
      → Keeps (IsOther k o) (answer r)
  unfolding answer
  IsOther-answer (peer_save_domain ds) name e apart =
      IsOther-save_domain ds (ground (arith, e, apart))
  IsOther-answer connect_reply name e apart = absurd (ground (arith, e))
  IsOther-answer (peer_save_status cs) name e apart = absurd (ground (arith, e))
  IsOther-answer (peer_start_domain n colo) name e apart =
      IsOther-peer_start k o n (ground (arith, e, apart)) colo
  IsOther-answer (peer_destroy_domain n) name e apart =
      IsOther-peer_destroy k o n (ground (arith, e, apart))
  IsOther-answer (peer_send_qmpcmds n cds) name e apart =
      IsOther-send_qmpcmds k o n (ground (arith, e, apart)) cds

  IsOther-serve :
      (c : Call) (name : String)
      → named_by c ≡ some name
      → (name == k) ≡ false
      → Keeps (IsOther k o) (serve c)
  unfolding serve
  IsOther-serve (Call.connect_peer path) name e apart = absurd (ground (arith, e))
  IsOther-serve Call.connect_status name e apart = absurd (ground (arith, e))
  IsOther-serve (Call.define path) name e apart = absurd (ground (arith, e))
  IsOther-serve (Call.list all) name e apart = absurd (ground (arith, e))
  IsOther-serve Call.connect_test name e apart = absurd (ground (arith, e))
  IsOther-serve (Call.undefine n) name e apart = IsOther-undefine k o n (ground (arith, e, apart))
  IsOther-serve (Call.start n colo) name e apart =
      IsOther-start k o n (ground (arith, e, apart)) colo
  IsOther-serve (Call.destroy n) name e apart = IsOther-destroy k o n (ground (arith, e, apart))
  IsOther-serve (Call.colo_enable n) name e apart =
      IsOther-colo_enable k o n (ground (arith, e, apart))
  IsOther-serve (Call.colo_disable n) name e apart =
      IsOther-colo_disable k o n (ground (arith, e, apart))
  IsOther-serve (Call.vm_status n) name e apart = IsOther-vm_status k o n (ground (arith, e, apart))
  IsOther-serve (Call.set_params n property value) name e apart =
      IsOther-set_params k o n (ground (arith, e, apart)) property value
  IsOther-serve (Call.do_failover n) name e apart =
      IsOther-failover k o n (ground (arith, e, apart))
  IsOther-serve (Call.domain_test n) name e apart =
      IsOther-domain_test k o n (ground (arith, e, apart))
  IsOther-serve (Call.from_peer r) name e apart = IsOther-answer r name e apart

module _ ⦃Y : Yaml⦄ ⦃O : Os⦄ where
  -- A call that names a domain leaves the record of every domain with another name as it was, or
  -- not there as it was not there, whether it returns or ends the process.
  pub serve-lookup :
      (c : Call) (name k : String) (w : World)
      → named_by c ≡ some name
      → (name == k) ≡ false
      → Domains.lookup k (final (serve c w)).domains ≡ Domains.lookup k w.domains
  serve-lookup c name k w e apart =
      ((IsOther-serve k (Domains.lookup k w.domains) c name e apart).at w
        (record { same = refl })).same
