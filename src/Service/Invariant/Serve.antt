-- ===== src/Service/Invariant/Serve.antt =====
-- The handlers that set the flags or the role of a domain, and the server as a whole.
use colo_manage_tools.Prelude.{
  ℕ, String, Bool, true, false, some, ◌≡◌, ◌≢◌, refl, arith, if◌then◌else◌,
}
use colo_manage_tools.Config.{NodeStatus, ColoDomainStatus, ColoStatus}
use colo_manage_tools.Platform.{Yaml, Os, ColodDomainStatus, Request}
use colo_manage_tools.Platform.{connect_reply, peer_save_status, peer_save_domain}
use colo_manage_tools.Platform.{peer_start_domain, peer_destroy_domain, peer_send_qmpcmds}
use colo_manage_tools.World.{World, M, pure, ◌>>=◌, gets, set_remote_client}
use colo_manage_tools.World.Keeps.{
  final-set_remote_client, Keeps, final, Keeps-pure, Keeps-bind, Keeps-found, Keeps-if, Keeps-gets,
  keeps_rules,
}
use colo_manage_tools.Frame.{
  Keeps-parse_config_file, Keeps-save_colo_status, Keeps-save_domain_info,
  Keeps-set_domain_colo_enable,
}
use colo_manage_tools.Service.Connect.{
  record_connection, colod_connect_peer, colod_connect_status, peer_colod_connect_test,
  peer_colod_connect_test_reply, peer_colod_save_status,
}
use colo_manage_tools.Service.Colo.{
  role_of, peer_domain, give_up, enable_as, colod_colo_enable, peer_colod_save_domain,
}
use colo_manage_tools.Service.Peer.{Call, answer, serve}
use colo_manage_tools.Service.Invariant.{IsSound, IsValid, IsReachable}
use colo_manage_tools.Service.Invariant.Rules.{
  IsValid-IsLax, IsValid-IsLocal, IsReachable-IsLocal, Keeps-domain_at, Keeps-set_domain,
  Keeps-peer_lost, Keeps-status, Keeps-client_init, Keeps-peer_init, Keeps-set_remote_client,
  Keeps-new_address, set_remote_client-IsReachable,
}
use colo_manage_tools.Service.Invariant.Handlers.{
  handler_rules, Keeps-colod_list, Keeps-colod_vm_status, Keeps-colod_domain_test,
  Keeps-colod_define, Keeps-colod_undefine, Keeps-colod_start, Keeps-peer_colod_start_domain,
  Keeps-colod_destroy, Keeps-peer_colod_destroy_domain, Keeps-colod_colo_disable,
  Keeps-colod_set_params, Keeps-colod_do_failover, Keeps-peer_colod_send_qmpcmds,
}

peer_domain-IsSound : (ds : ColodDomainStatus) → IsSound ds → IsSound (peer_domain ds)
unfolding peer_domain
peer_domain-IsSound ds h = record {
  roled = λ e x. ground (arith, e, x);
  started = λ e. ground (arith, e, h.started);
}

IsSound-role :
    (role : ColoDomainStatus)
    → role ≢ ColoDomainStatus.none
    → (d : ColodDomainStatus) → IsSound d
    → IsSound (record d { colo_enable = true; colo_status = role })
IsSound-role role r d h = record { roled = λ e. r; started = h.started }

role_of-ne-none :
    (s : NodeStatus) (role : ColoDomainStatus)
    → role_of s ≡ some role
    → role ≢ ColoDomainStatus.none
unfolding role_of
role_of-ne-none s role e x = ground arith

module _ ⦃Y : Yaml⦄ ⦃O : Os⦄ where
  Keeps-record_connection : (cs : ColoStatus) → Keeps IsReachable (record_connection cs)
  unfolding record_connection
  Keeps-record_connection cs =
      search (keeps_rules, IsReachable-IsLocal, Keeps-save_colo_status, Keeps-peer_init) depth 10

  Keeps-colod_connect_peer : (path : String) → Keeps IsValid (colod_connect_peer path)
  unfolding colod_connect_peer
  Keeps-colod_connect_peer path = Keeps-bind _ _ (Keeps-gets _) λ old.
      Keeps-bind _ _ (Keeps-parse_config_file IsValid-IsLax.local path old) λ parsed.
        Keeps-bind _ _ (Keeps-status IsValid-IsLax _) λ done. Keeps-if _ _ _ (Keeps-pure _) (
          Keeps-set_remote_client _ _ _ (
            search (keeps_rules, IsReachable-IsLocal, Keeps-client_init, Keeps-record_connection)
              depth 10))

  Keeps-colod_connect_status : Keeps IsValid colod_connect_status
  unfolding colod_connect_status
  Keeps-colod_connect_status =
      search (keeps_rules, IsValid-IsLax, IsValid-IsLocal, Keeps-peer_lost) depth 12

  Keeps-peer_colod_connect_test : Keeps IsValid peer_colod_connect_test
  unfolding peer_colod_connect_test
  Keeps-peer_colod_connect_test =
      search (keeps_rules, IsValid-IsLax, IsValid-IsLocal, Keeps-peer_lost) depth 12

  Keeps-peer_colod_connect_test_reply : Keeps IsValid peer_colod_connect_test_reply
  unfolding peer_colod_connect_test_reply
  Keeps-peer_colod_connect_test_reply = search keeps_rules

  -- The address is set unless the flag says that there is one.
  with_client :
      {A : Type 0} (init : Bool) (ip : String) (port : ℕ) (k : M A) (w : World)
      → w.remote_client_init ≡ init
      → IsValid w
      → Keeps IsReachable k
      → IsValid (final (((if init then pure tt else set_remote_client ip port) >>= λ _. k) w))
  unfolding ◌>>=◌
  with_client true ip port k w e v kk = (kk.at w (record { valid = v; address = v.client e })).valid
  with_client false ip port k w e v kk =
      final-set_remote_client IsValid ip port k w v
        (kk.at _ (set_remote_client-IsReachable ip port w v)).valid

  Keeps-with_client :
      {A : Type 0} (ip : String) (port : ℕ) (k : M A)
      → Keeps IsReachable k
      → Keeps IsValid (
          gets (λ w. w.remote_client_init) >>= λ init.
          (if init then pure tt else set_remote_client ip port) >>= λ _. k)
  unfolding ◌>>=◌
  Keeps-with_client ip port k kk = record {
    at = λ w v. with_client w.remote_client_init ip port k w refl v kk;
  }

  Keeps-peer_colod_save_status : (cs : ColoStatus) → Keeps IsValid (peer_colod_save_status cs)
  unfolding peer_colod_save_status
  Keeps-peer_colod_save_status cs = Keeps-bind _ _ (Keeps-status IsValid-IsLax _) λ done.
      Keeps-with_client _ _ _ (
        search (keeps_rules, IsReachable-IsLocal, Keeps-save_colo_status, Keeps-peer_init) depth 10)

  Keeps-give_up : (name err : String) → Keeps IsValid (give_up name err)
  unfolding give_up
  Keeps-give_up name err = search (handler_rules, IsValid-IsLax) depth 8

  Keeps-enable_as :
      (role : ColoDomainStatus) (name : String)
      → role ≢ ColoDomainStatus.none
      → Keeps IsValid (enable_as role name)
  unfolding enable_as
  Keeps-enable_as role name r =
      Keeps-bind _ _ (Keeps-set_domain IsValid-IsLax name _ (IsSound-role role r)) λ done.
        search
          (
            keeps_rules, IsValid-IsLax, IsValid-IsLocal, Keeps-new_address, Keeps-give_up,
            Keeps-peer_lost, Keeps-domain_at, Keeps-set_domain_colo_enable,
          )
          depth 16

  Keeps-colod_colo_enable : (name : String) → Keeps IsValid (colod_colo_enable name)
  unfolding colod_colo_enable
  Keeps-colod_colo_enable name = Keeps-bind _ _ (Keeps-gets _) λ cs.
      Keeps-found _ _ _ (Keeps-pure _)
        λ role e. Keeps-enable_as role name (role_of-ne-none cs.local_status role e)

  Keeps-peer_colod_save_domain :
      (ds : ColodDomainStatus) → IsSound ds → Keeps IsValid (peer_colod_save_domain ds)
  unfolding peer_colod_save_domain
  Keeps-peer_colod_save_domain ds h =
      let stored : (d : ColodDomainStatus) → IsSound d → IsSound (peer_domain ds) =
        λ d hd. peer_domain-IsSound ds h in
      search
        (
          keeps_rules, IsValid-IsLax, IsValid-IsLocal, Keeps-save_domain_info,
          Keeps-set_domain_colo_enable, Keeps-set_domain, stored,
        )
        depth 12

  -- A peer sends the record of a domain that is sound on its side.
  abbrev pub IsSoundRequest : Request → Type 0
  IsSoundRequest (peer_save_domain ds) = IsSound ds
  IsSoundRequest _ = Unit

  abbrev pub IsSoundCall : Call → Type 0
  IsSoundCall (Call.from_peer r) = IsSoundRequest r
  IsSoundCall _ = Unit

  Keeps-answer : (r : Request) → IsSoundRequest r → Keeps IsValid (answer r)
  unfolding answer
  Keeps-answer (peer_save_domain ds) h = Keeps-peer_colod_save_domain ds h
  Keeps-answer connect_reply h = Keeps-peer_colod_connect_test_reply
  Keeps-answer (peer_save_status cs) h = Keeps-peer_colod_save_status cs
  Keeps-answer (peer_start_domain name colo) h =
      Keeps-peer_colod_start_domain IsValid-IsLax name colo
  Keeps-answer (peer_destroy_domain name) h = Keeps-peer_colod_destroy_domain IsValid-IsLax name
  Keeps-answer (peer_send_qmpcmds name cds) h = Keeps-peer_colod_send_qmpcmds IsValid-IsLax name cds

  pub Keeps-serve : (c : Call) → IsSoundCall c → Keeps IsValid (serve c)
  unfolding serve
  Keeps-serve (Call.connect_peer path) h = Keeps-colod_connect_peer path
  Keeps-serve Call.connect_status h = Keeps-colod_connect_status
  Keeps-serve (Call.define path) h = Keeps-colod_define IsValid-IsLax path
  Keeps-serve (Call.undefine name) h = Keeps-colod_undefine IsValid-IsLax name
  Keeps-serve (Call.list all) h = Keeps-colod_list IsValid-IsLax all
  Keeps-serve (Call.start name colo) h = Keeps-colod_start IsValid-IsLax name colo
  Keeps-serve (Call.destroy name) h = Keeps-colod_destroy IsValid-IsLax name
  Keeps-serve (Call.colo_enable name) h = Keeps-colod_colo_enable name
  Keeps-serve (Call.colo_disable name) h = Keeps-colod_colo_disable IsValid-IsLax name
  Keeps-serve (Call.vm_status name) h = Keeps-colod_vm_status IsValid-IsLax name
  Keeps-serve (Call.set_params name property value) h =
      Keeps-colod_set_params IsValid-IsLax name property value
  Keeps-serve (Call.do_failover name) h = Keeps-colod_do_failover IsValid-IsLax name
  Keeps-serve Call.connect_test h = Keeps-peer_colod_connect_test
  Keeps-serve (Call.domain_test name) h = Keeps-colod_domain_test IsValid-IsLax name
  Keeps-serve (Call.from_peer r) h = Keeps-answer r h

  -- A call of any handler, whether it returns or ends the process, leaves a world in which the RPC
  -- client has an address wherever a flag says that the peer is connected, every colo-enabled domain
  -- has a role, and every domain that runs in colo mode has the pid of a process; the world before
  -- must be such a world, and a domain record that a peer sends must be sound.
  pub serve-IsValid :
      (c : Call) (w : World) → IsSoundCall c → IsValid w → IsValid (final (serve c w))
  serve-IsValid c w h v = (Keeps-serve c h).at w v
