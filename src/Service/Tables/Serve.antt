-- ===== src/Service/Tables/Serve.antt =====
-- A colod keeps the entries of its save file apart: no two have the same name.
use mathlib.Core.Option
use colo_manage_tools.Prelude.{ℤ, String, ◌<>◌, false, some, ◌≡◌, arith, Option-cases, inl, inr}
use colo_manage_tools.Config.{ColoStatus, save_file}
use colo_manage_tools.Platform.{Yaml, Os, Request, ColodDomainStatus, at}
use colo_manage_tools.Platform.{connect_reply, peer_save_status, peer_save_domain}
use colo_manage_tools.Platform.{peer_start_domain, peer_destroy_domain, peer_send_qmpcmds}
use colo_manage_tools.Platform.Laws.{IsYaml}
use colo_manage_tools.World.{World, is_same, gets, ◌>>=◌, load_file, write_file}
use colo_manage_tools.World.Keeps.{Keeps, Keeps-bind, Keeps-gets, final, final-bind}
use colo_manage_tools.World.Filed.{Filed-status, filed_rules}
use colo_manage_tools.SaveFile.{parse_config_file}
use colo_manage_tools.SaveFile.Document.{string_at}
use colo_manage_tools.SaveFile.Distinct.Tables.{HasTable, HasTable-IsFiled, HasTable-same}
use colo_manage_tools.SaveFile.Distinct.Kept.{
  Keeps-save_domain_info, Keeps-save_colo_status, Keeps-set_domain_colo_enable,
}
use colo_manage_tools.Domain.Files.{vm_define, save_new_vm_file}
use colo_manage_tools.Service.Connect.{
  record_connection, colod_connect_peer, colod_connect_status, peer_colod_connect_test,
  peer_colod_connect_test_reply, peer_colod_save_status,
}
use colo_manage_tools.Service.Define.{colod_define}
use colo_manage_tools.Service.Colo.{peer_colod_save_domain}
use colo_manage_tools.Service.Peer.{Call, answer, serve}
use colo_manage_tools.Frame.Tables.{Table-parsed}
use colo_manage_tools.Service.Tables.{
  Table-colod_undefine, Table-colod_list, Table-colod_start, Table-colod_destroy,
  Table-colod_colo_enable, Table-colod_colo_disable, Table-colod_vm_status, Table-colod_set_params,
  Table-colod_do_failover, Table-colod_domain_test, Table-peer_colod_start_domain,
  Table-peer_colod_destroy_domain, Table-peer_colod_send_qmpcmds,
}

module _ ⦃Y : Yaml⦄ ⦃O : Os⦄ where
  -- The definition in the file would not be stored over the save file.
  abbrev pub IsOutside : World → String → Type 0
  IsOutside w path =
      (doc : Y.Node) (name : String)
      → Option.bind (w.files path) Y.load ≡ some doc
      → string_at doc "name" ≡ some name
      → is_same (w.current_status.host_file_path <> name <> ".yaml") save_file ≡ false

  abbrev pub IsApart : World → Call → Type 0
  IsApart w (Call.define path) = IsOutside w path
  IsApart w _ = Unit

  ruleset connect_rules = (
    filed_rules, HasTable-IsFiled, Keeps-save_domain_info, Keeps-save_colo_status,
    Keeps-set_domain_colo_enable,
  )

  module _ (L : IsYaml Y) where
    Table-connect_status : Keeps HasTable colod_connect_status
    unfolding colod_connect_status
    Table-connect_status = search connect_rules depth 12

    Table-connect_test : Keeps HasTable peer_colod_connect_test
    unfolding peer_colod_connect_test
    Table-connect_test = search connect_rules depth 12

    Table-connect_test_reply : Keeps HasTable peer_colod_connect_test_reply
    unfolding peer_colod_connect_test_reply
    Table-connect_test_reply = search connect_rules depth 12

    Table-peer_save_status : (cs : ColoStatus) → Keeps HasTable (peer_colod_save_status cs)
    unfolding peer_colod_save_status
    Table-peer_save_status cs =
        Keeps-bind _ _ (Filed-status HasTable-IsFiled _) λ done. search connect_rules depth 16

    Table-peer_save_domain : (ds : ColodDomainStatus) → Keeps HasTable (peer_colod_save_domain ds)
    unfolding peer_colod_save_domain
    Table-peer_save_domain ds = search connect_rules depth 16

    Table-parse_config_file :
        (path : String) (cs : ColoStatus) → Keeps HasTable (parse_config_file path cs)
    unfolding parse_config_file
    Table-parse_config_file path cs = search connect_rules

    Table-record_connection : (cs : ColoStatus) → Keeps HasTable (record_connection cs)
    unfolding record_connection
    Table-record_connection cs = search connect_rules depth 12

    Table-connect_peer : (path : String) → Keeps HasTable (colod_connect_peer path)
    unfolding colod_connect_peer
    Table-connect_peer path = Keeps-bind _ _ (Keeps-gets _) λ old.
        Keeps-bind _ _ (Table-parse_config_file path old) λ (parsed : ℤ × ColoStatus).
          Keeps-bind _ _ (Filed-status HasTable-IsFiled _)
            λ done. search (connect_rules, Table-record_connection) depth 16

    vm_define-same :
        (path dir : String) (w : World)
        → ((doc : Y.Node) (name : String)
            → Option.bind (w.files path) Y.load ≡ some doc
            → string_at doc "name" ≡ some name
            → is_same (dir <> name <> ".yaml") save_file ≡ false)
        → w.files save_file ≡ (final (vm_define path dir w)).files save_file
    unfolding vm_define save_new_vm_file load_file write_file string_at at ◌>>=◌
    vm_define-same path dir w apart = elim (Option-cases (Option.bind (w.files path) Y.load)) [
      | inr bad ↦ ground (arith, bad)
      | inl (doc, good) ↦ elim (Option-cases (string_at doc "name")) [
        | inr bad ↦ ground (arith, good, bad)
        | inl (name, read) ↦ ground (arith, good, read, apart doc name good read)
      ]
    ]

    pub Table-define :
        (path : String) (w : World)
        → IsOutside w path
        → HasTable w
        → HasTable (final (colod_define path w))
    unfolding colod_define gets ◌>>=◌
    Table-define path w apart h =
        let dir = w.current_status.host_file_path in
        final-bind (vm_define path dir) _ w
          (λ defined.
            Table-parsed L defined _ _ (λ d. search connect_rules depth 16)
              (λ err. search connect_rules))
          (HasTable-same w _ (vm_define-same path dir w apart) h)

    Table-answer : (r : Request) → Keeps HasTable (answer r)
    unfolding answer
    Table-answer connect_reply = Table-connect_test_reply
    Table-answer (peer_save_status cs) = Table-peer_save_status cs
    Table-answer (peer_save_domain ds) = Table-peer_save_domain ds
    Table-answer (peer_start_domain name colo) = Table-peer_colod_start_domain L name colo
    Table-answer (peer_destroy_domain name) = Table-peer_colod_destroy_domain L name
    Table-answer (peer_send_qmpcmds name cds) = Table-peer_colod_send_qmpcmds L name cds

    -- Every call that a colod answers, whatever it returns and also where an exception ends it, leaves
    -- the save file with a list of entries of which no two have the same name, or as a file that
    -- cannot be read; one of the two must hold before, a definition must not have a name that leads to
    -- the path of the save file, and yaml-cpp must meet its laws.
    pub serve-HasTable :
        (c : Call) (w : World) → IsApart w c → HasTable w → HasTable (final (serve c w))
    unfolding serve
    serve-HasTable (Call.connect_peer path) w apart h = (Table-connect_peer path).at w h
    serve-HasTable Call.connect_status w apart h = Table-connect_status.at w h
    serve-HasTable (Call.define path) w apart h = Table-define path w apart h
    serve-HasTable (Call.undefine name) w apart h = (Table-colod_undefine L name).at w h
    serve-HasTable (Call.list all) w apart h = (Table-colod_list L all).at w h
    serve-HasTable (Call.start name colo) w apart h = (Table-colod_start L name colo).at w h
    serve-HasTable (Call.destroy name) w apart h = (Table-colod_destroy L name).at w h
    serve-HasTable (Call.colo_enable name) w apart h = (Table-colod_colo_enable L name).at w h
    serve-HasTable (Call.colo_disable name) w apart h = (Table-colod_colo_disable L name).at w h
    serve-HasTable (Call.vm_status name) w apart h = (Table-colod_vm_status L name).at w h
    serve-HasTable (Call.set_params name property value) w apart h =
        (Table-colod_set_params L name property value).at w h
    serve-HasTable (Call.do_failover name) w apart h = (Table-colod_do_failover L name).at w h
    serve-HasTable Call.connect_test w apart h = Table-connect_test.at w h
    serve-HasTable (Call.domain_test name) w apart h = (Table-colod_domain_test L name).at w h
    serve-HasTable (Call.from_peer r) w apart h = (Table-answer r).at w h
