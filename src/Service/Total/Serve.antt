-- ===== src/Service/Total/Serve.antt =====
-- The server of src/utils/colod_server.cpp answers the calls that it can answer on its own.
use colo_manage_tools.Prelude.{
  ℕ, suc, ℤ, String, false, true, Option, some, List, [], ◌∷◌, map, All, ◌≡◌, refl, ap, arith,
  length,
}
use colo_manage_tools.Platform.{Yaml, Os, RetVal, Request}
use colo_manage_tools.Platform.{connect_reply, peer_save_status, peer_save_domain}
use colo_manage_tools.Platform.{peer_start_domain, peer_destroy_domain, peer_send_qmpcmds}
use colo_manage_tools.Platform.Laws.{IsYaml}
use colo_manage_tools.World.{World, returned, M, pure, ◌>>=◌}
use colo_manage_tools.World.Returns.{Returns, returns_rules}
use colo_manage_tools.SaveFile.Total.{IsIntact}
use colo_manage_tools.Service.Connect.{peer_colod_connect_test_reply}
use colo_manage_tools.Service.Peer.{Call, answer, serve}
use colo_manage_tools.Service.Total.{
  Returns-colod_undefine, Returns-colod_list, Returns-start_plain_only, Returns-colod_colo_disable,
  Returns-colod_vm_status, Returns-colod_domain_test, Returns-peer_colod_start_domain,
  Returns-peer_colod_destroy_domain,
}
use colo_manage_tools.Server.{
  Arguments, Rpc, IsRpc, ColodServer, colod_server, server_init, handle, message,
}
use colo_manage_tools.Server.Bound.{handle-message}
use colo_manage_tools.Daemon.{run}

-- The calls that are answered without a call of the peer, a command for the monitor or a file of the
-- caller.
abbrev pub IsLocalRequest : Request → Type 0
IsLocalRequest connect_reply = Unit
IsLocalRequest (peer_start_domain name colo) = Unit
IsLocalRequest (peer_destroy_domain name) = Unit
IsLocalRequest _ = ⊥

abbrev pub IsLocalCall : Call → Type 0
IsLocalCall (Call.undefine name) = Unit
IsLocalCall (Call.list all) = Unit
IsLocalCall (Call.start name false) = Unit
IsLocalCall (Call.colo_disable name) = Unit
IsLocalCall (Call.vm_status name) = Unit
IsLocalCall (Call.domain_test name) = Unit
IsLocalCall (Call.from_peer r) = IsLocalRequest r
IsLocalCall _ = ⊥

module _ ⦃Y : Yaml⦄ ⦃O : Os⦄ where
  run-cons :
      (R : Rpc) (s : ColodServer R) (m : String × Arguments) (ms : List (String × Arguments))
      (f : M RetVal) (w w1 w2 : World) (ret : RetVal) (rest : List (Option RetVal))
      → handle R s m ≡ some f
      → f w ≡ returned ret w1
      → run R s ms w1 ≡ returned rest w2
      → run R s (m ∷ ms) w ≡ returned (some ret ∷ rest) w2
  unfolding run ◌>>=◌
  run-cons R s m ms f w w1 w2 ret rest bound served more = ground (arith, bound, served, more)

module _ ⦃Y : Yaml⦄ ⦃O : Os⦄ (L : IsYaml Y) where
  Returns-connect_test_reply : Returns IsIntact peer_colod_connect_test_reply
  unfolding peer_colod_connect_test_reply
  Returns-connect_test_reply = search returns_rules

  Returns-answer : (r : Request) → IsLocalRequest r → Returns IsIntact (answer r)
  unfolding answer
  Returns-answer connect_reply h = Returns-connect_test_reply
  Returns-answer (peer_save_status cs) h = absurd h
  Returns-answer (peer_save_domain ds) h = absurd h
  Returns-answer (peer_start_domain name colo) h = Returns-peer_colod_start_domain L name colo
  Returns-answer (peer_destroy_domain name) h = Returns-peer_colod_destroy_domain L name
  Returns-answer (peer_send_qmpcmds name cds) h = absurd h

  Returns-serve : (c : Call) → IsLocalCall c → Returns IsIntact (serve c)
  unfolding serve
  Returns-serve (Call.connect_peer path) h = absurd h
  Returns-serve Call.connect_status h = absurd h
  Returns-serve (Call.define path) h = absurd h
  Returns-serve (Call.undefine name) h = Returns-colod_undefine L name
  Returns-serve (Call.list all) h = Returns-colod_list L all
  Returns-serve (Call.start name false) h = Returns-start_plain_only L name
  Returns-serve (Call.start name true) h = absurd h
  Returns-serve (Call.destroy name) h = absurd h
  Returns-serve (Call.colo_enable name) h = absurd h
  Returns-serve (Call.colo_disable name) h = Returns-colod_colo_disable L name
  Returns-serve (Call.vm_status name) h = Returns-colod_vm_status L name
  Returns-serve (Call.set_params name property value) h = absurd h
  Returns-serve (Call.do_failover name) h = absurd h
  Returns-serve Call.connect_test h = absurd h
  Returns-serve (Call.domain_test name) h = Returns-colod_domain_test L name
  Returns-serve (Call.from_peer r) h = Returns-answer r h

  -- The server answers each message of a sequence of calls, whatever their number and order, and
  -- can read its save file afterwards; no exception ends it. The save file must be readable at the
  -- start: a map with a list of entries that have their keys in their types, whose paths lead to other
  -- files than the save file, with documents that `vm_config_parse` can convert. The calls must be of
  -- those that are answered without a call of the peer, a command for the monitor or a file of the
  -- caller: undefine, list, start without colo, colo-disable, vm-status, domain-test and, of the peer,
  -- connect-reply, start and destroy. A name of the RPC library must have the procedure that it was
  -- bound to last, and yaml-cpp must meet its laws.
  pub run-answered :
      (R : Rpc) (pid : ℤ) (port : ℕ) (cs : List Call) (w : World)
      → IsRpc R
      → All IsLocalCall cs
      → IsIntact w
      → (answers : List RetVal) × (w' : World) × (run R
            (server_init R (colod_server R pid port))
            (map message cs)
            w
          ≡ returned (map (λ ret. some ret) answers) w')
        × (length answers ≡ length cs)
        × IsIntact w'
  unfolding run pure
  run-answered R pid port [] w bound plain h = ([], w, refl, refl, h)
  run-answered R pid port (c ∷ cs) w bound plain h =
      let (ret, w1, served, h1) = (Returns-serve c plain.0).at w h in
      let (answers, w2, rest, same, h2) = run-answered R pid port cs w1 bound plain.1 h1 in
      (
        ret ∷ answers,
        w2,
        run-cons R (server_init R (colod_server R pid port)) _ _ (serve c) w w1 w2 ret _
            (handle-message R bound pid port c) served rest,
        ap suc same,
        h2,
      )
