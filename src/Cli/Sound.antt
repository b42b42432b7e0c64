-- ===== src/Cli/Sound.antt =====
-- The command line tool with the daemon that it calls.
use colo_manage_tools.Prelude.{refl, ℕ, ◌≡◌, ℤ, String, Option, some, List, [], ◌∷◌}
use colo_manage_tools.Config.{ColoStatus}
use colo_manage_tools.Platform.{Yaml, Os, RetVal}
use colo_manage_tools.World.{World, returned, M, pure, ◌>>=◌}
use colo_manage_tools.World.Keeps.{
  Keeps, IsLocal, final, Keeps-pure, Keeps-bind, Keeps-if, Keeps-on_option, keeps_rules,
}
use colo_manage_tools.SaveFile.{get_connect_status}
use colo_manage_tools.RunVm.{get_domain_config_file_path, transfer_file}
use colo_manage_tools.Domain.{Domain}
use colo_manage_tools.Domain.Files.{transfer_domain, colo_enable}
use colo_manage_tools.Frame.{Keeps-get_domain}
use colo_manage_tools.Service.Peer.{Call, serve}
use colo_manage_tools.Service.Invariant.{IsValid}
use colo_manage_tools.Service.Invariant.Rules.{IsValid-IsLocal}
use colo_manage_tools.Service.Invariant.Serve.{IsSoundCall, Keeps-serve}
use colo_manage_tools.Cli.{
  Args, CommandType, ask, enable_colo, set_param, dispatch, run, params, cli_main,
}
use colo_manage_tools.Pretest.Found.{colod_pretest-absent}

module _ ⦃Y : Yaml⦄ ⦃O : Os⦄ where
  module _ {P : World → Type 0} (l : IsLocal P) where
    Keeps-transfer_file : (src dst : String) → Keeps P (transfer_file src dst)
    unfolding transfer_file
    Keeps-transfer_file src dst = search keeps_rules depth 12

    Keeps-transfer_domain :
        (d : Domain) (path : String) (cs : ColoStatus) → Keeps P (transfer_domain d path cs)
    unfolding transfer_domain
    Keeps-transfer_domain d path cs = search (keeps_rules, Keeps-transfer_file) depth 12

    Keeps-colo_enable : (cs : ColoStatus) (name : String) → Keeps P (colo_enable cs name)
    unfolding colo_enable get_domain_config_file_path get_connect_status
    Keeps-colo_enable cs name =
        search (keeps_rules, Keeps-get_domain, Keeps-transfer_domain) depth 16

  -- A daemon that answers each call at once.
  abbrev pub daemon : Call → M (Option RetVal)
  daemon c = serve c >>= λ ret. pure (some ret)

  Keeps-daemon : (c : Call) → IsSoundCall c → Keeps IsValid (daemon c)
  Keeps-daemon c h = Keeps-bind _ _ (Keeps-serve c h) λ ret. Keeps-pure _

  Keeps-ask : (c : Call) → IsSoundCall c → Keeps IsValid (ask daemon c)
  unfolding ask
  Keeps-ask c h = search (keeps_rules, Keeps-serve) depth 8

  Keeps-enable_colo : (cs : ColoStatus) (name : String) → Keeps IsValid (enable_colo daemon cs name)
  unfolding enable_colo
  Keeps-enable_colo cs name = Keeps-bind _ _ (Keeps-daemon (Call.domain_test name) tt) λ tested.
      Keeps-on_option tested _ _ (Keeps-pure _) λ crv. Keeps-if _ _ _ (Keeps-pure _) (
        Keeps-bind _ _ (Keeps-colo_enable IsValid-IsLocal cs name)
          λ r. Keeps-bind _ _ (Keeps-ask (Call.colo_enable name) tt) λ lines. Keeps-pure _)

  Keeps-set_param :
      (name : String) (ps : List (String × ℤ)) → Keeps IsValid (set_param daemon name ps)
  unfolding set_param
  Keeps-set_param name [] = search keeps_rules
  Keeps-set_param name ((property, value) ∷ []) = Keeps-ask (Call.set_params name property value) tt
  Keeps-set_param name (p ∷ q ∷ rest) = search keeps_rules

  Keeps-dispatch :
      (cs : ColoStatus) (c : CommandType) (a : Args) → Keeps IsValid (dispatch daemon cs c a)
  unfolding dispatch
  Keeps-dispatch cs CommandType.connect_peer a = Keeps-ask _ tt
  Keeps-dispatch cs CommandType.connect_status a = Keeps-ask _ tt
  Keeps-dispatch cs CommandType.define a = Keeps-on_option _ _ _ (Keeps-pure _) λ s. Keeps-ask _ tt
  Keeps-dispatch cs CommandType.undefine a =
      Keeps-on_option _ _ _ (Keeps-pure _) λ s. Keeps-ask _ tt
  Keeps-dispatch cs CommandType.list a = Keeps-ask _ tt
  Keeps-dispatch cs CommandType.start a = Keeps-on_option _ _ _ (Keeps-pure _) λ s. Keeps-ask _ tt
  Keeps-dispatch cs CommandType.destroy a = Keeps-on_option _ _ _ (Keeps-pure _) λ s. Keeps-ask _ tt
  Keeps-dispatch cs CommandType.colo_enabling a =
      Keeps-on_option _ _ _ (Keeps-pure _) λ s. Keeps-enable_colo cs s
  Keeps-dispatch cs CommandType.colo_disabling a =
      Keeps-on_option _ _ _ (Keeps-pure _) λ s. Keeps-ask _ tt
  Keeps-dispatch cs CommandType.vm_status a =
      Keeps-on_option _ _ _ (Keeps-pure _) λ s. Keeps-ask _ tt
  Keeps-dispatch cs CommandType.set_params a =
      Keeps-on_option _ _ _ (Keeps-pure _) λ s. Keeps-set_param s (params a)
  Keeps-dispatch cs CommandType.do_failover a =
      Keeps-on_option _ _ _ (Keeps-pure _) λ s. Keeps-ask _ tt

  Keeps-run : (cs : ColoStatus) (a : Args) → Keeps IsValid (run daemon cs a)
  unfolding run
  Keeps-run cs a =
      Keeps-if _ _ _ (Keeps-pure _)
        (Keeps-on_option _ _ _ (Keeps-pure _) λ c. Keeps-dispatch cs c a)

  pub run-IsValid :
      (cs : ColoStatus) (a : Args) (w : World) → IsValid w → IsValid (final (run daemon cs a w))
  run-IsValid cs a w v = (Keeps-run cs a).at w v

  Keeps-cli_main :
      (pidof : String → List ℕ) (cs : ColoStatus) (a : Args)
      → Keeps IsValid (cli_main daemon pidof cs a)
  unfolding cli_main
  Keeps-cli_main pidof cs a =
      Keeps-if _ _ _ (Keeps-pure _) (Keeps-bind _ _ (Keeps-run cs a) λ lines. Keeps-pure _)

  pub cli_main-IsValid :
      (pidof : String → List ℕ) (cs : ColoStatus) (a : Args) (w : World)
      → IsValid w
      → IsValid (final (cli_main daemon pidof cs a w))
  cli_main-IsValid pidof cs a w v = (Keeps-cli_main pidof cs a).at w v

  -- Where `pidof` prints nothing for the daemon, the tool says so and changes nothing.
  cli_main-absent :
      (pidof : String → List ℕ) (cs : ColoStatus) (a : Args) (w : World)
      → pidof "colod" ≡ []
      → cli_main daemon pidof cs a w ≡ returned ("please start colod." ∷ []) w
  unfolding cli_main pure
  cli_main-absent pidof cs a w nothing = rw (colod_pretest-absent pidof nothing).0 refl
