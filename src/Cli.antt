-- ===== src/Cli.antt =====
-- src/main.cpp: the command line tool. The parser of include/commandline.h and the RPC client are third-party
-- code: the arguments come parsed, and the call of the local daemon is a parameter.
pub mod Names
pub mod Sound
use colo_manage_tools.Prelude.{
  ℕ, ℤ, is_negative, not, String, ◌<>◌, Bool, Option, none, some, List, [], ◌∷◌, ◌++◌, ◌==◌,
  if◌then◌else◌,
}
use colo_manage_tools.Config.{ColoStatus}
use colo_manage_tools.Platform.{Yaml, Os, RetVal}
use colo_manage_tools.World.{M, pure, ◌>>=◌, on_option}
use colo_manage_tools.Domain.Files.{colo_enable}
use colo_manage_tools.Service.Peer.{Call}
use colo_manage_tools.Pretest.{colod_pretest}

-- What was given on the command line; `none` where `exist` is false.
pub record Args : Type 0 where
  pub command_type : String
  pub vm_file : Option String
  pub config_file : Option String
  pub domain : Option String
  pub all : Bool
  pub colo : Bool
  pub checkpoint_time : Option ℤ
  pub compare_timeout : Option ℤ
  pub max_queue_size : Option ℤ
  pub restart_colod : Bool

-- COLO_COMMAND_TYPE (include/config.h)
pub data CommandType : Type 0 where
  connect_peer connect_status define undefine list start : CommandType
  destroy colo_enabling colo_disabling vm_status set_params do_failover : CommandType

-- command_type_map, with the test `count` before it
unfoldable pub command_type_of : String → Option CommandType
command_type_of s =
    if s == "connect-peer"
    then some CommandType.connect_peer
    else if s == "connect-status"
    then some CommandType.connect_status
    else if s == "define"
    then some CommandType.define
    else if s == "undefine"
    then some CommandType.undefine
    else if s == "list"
    then some CommandType.list
    else if s == "start"
    then some CommandType.start
    else if s == "destroy"
    then some CommandType.destroy
    else if s == "colo-enable"
    then some CommandType.colo_enabling
    else if s == "colo-disable"
    then some CommandType.colo_disabling
    else if s == "vm-status"
    then some CommandType.vm_status
    else if s == "set-params"
    then some CommandType.set_params
    else if s == "do-failover"
    then some CommandType.do_failover
    else none

-- colo_cmd_type_to_str_map
unfoldable pub command_name : CommandType → String
command_name CommandType.connect_peer = "connect-peer"
command_name CommandType.connect_status = "connect-status"
command_name CommandType.define = "define"
command_name CommandType.undefine = "undefine"
command_name CommandType.list = "list"
command_name CommandType.start = "start"
command_name CommandType.destroy = "destroy"
command_name CommandType.colo_enabling = "colo-enable"
command_name CommandType.colo_disabling = "colo-disable"
command_name CommandType.vm_status = "vm-status"
command_name CommandType.set_params = "set-params"
command_name CommandType.do_failover = "do-failover"

-- DEFAULT_CONFIG_FILE_PATH
abbrev pub default_config : String
default_config = "/usr/local/etc/colod/default_config.yaml"

abbrev param : String → Option ℤ → List (String × ℤ)
param property none = []
param property (some value) = (property, value) ∷ []

-- The properties that are given, in the order of the tests.
unfoldable pub params : Args → List (String × ℤ)
params a =
    param "checkpoint-time" a.checkpoint_time
    ++ param "compare-timeout" a.compare_timeout
    ++ param "max-queue-size" a.max_queue_size

-- The lines that a reply of the daemon prints.
abbrev pub printed : Option RetVal → List String
printed none = "connect to colod timeout." ∷ []
printed (some crv) = crv.msg ∷ []

module _ ⦃Y : Yaml⦄ ⦃O : Os⦄ (local_call : Call → M (Option RetVal)) where
  unfoldable pub ask : Call → M (List String)
  ask c = do reply ← local_call c; pure (printed reply)

  abbrev pub for_domain : Option String → (String → M (List String)) → M (List String)
  for_domain name k = on_option name (pure ("no domain name." ∷ [])) k

  -- COMMAND_COLO_ENABLE. A failure of the transfer is printed, and the daemon is asked all the same;
  -- `cs` is the uninitialised local of `colo_enable`.
  unfoldable pub enable_colo : ColoStatus → String → M (List String)
  enable_colo cs name = do
    tested ← local_call (Call.domain_test name)
    on_option tested (pure ("connect to colod timeout." ∷ [])) λ crv.
        if not (crv.msg == "shutoff")
        then pure ("canot colo enable a running domain." ∷ [])
        else (do
          r ← colo_enable cs name
          lines ← ask (Call.colo_enable name)
          pure ((if is_negative r then "can not enable colo." ∷ [] else []) ++ lines))

  -- COMMAND_SET_PARAMS
  unfoldable pub set_param : String → List (String × ℤ) → M (List String)
  set_param name [] = pure ("no params to set." ∷ [])
  set_param name ((property, value) ∷ []) = ask (Call.set_params name property value)
  set_param name (p ∷ q ∷ rest) = pure ("can only set one param." ∷ [])

  -- The lines that a command prints at its end.
  unfoldable pub dispatch : ColoStatus → CommandType → Args → M (List String)
  dispatch cs CommandType.connect_peer a =
      ask (Call.connect_peer (elim a.config_file [ none ↦ default_config | some path ↦ path ]))
  dispatch cs CommandType.connect_status a = ask Call.connect_status
  dispatch cs CommandType.define a =
      on_option a.vm_file (pure ("no vm definition file" ∷ [])) λ path. ask (Call.define path)
  dispatch cs CommandType.undefine a = for_domain a.domain λ name. ask (Call.undefine name)
  dispatch cs CommandType.list a = ask (Call.list a.all)
  dispatch cs CommandType.start a = for_domain a.domain λ name. ask (Call.start name a.colo)
  dispatch cs CommandType.destroy a = for_domain a.domain λ name. ask (Call.destroy name)
  dispatch cs CommandType.colo_enabling a = for_domain a.domain λ name. enable_colo cs name
  dispatch cs CommandType.colo_disabling a =
      for_domain a.domain λ name. ask (Call.colo_disable name)
  dispatch cs CommandType.vm_status a = for_domain a.domain λ name. ask (Call.vm_status name)
  dispatch cs CommandType.set_params a = for_domain a.domain λ name. set_param name (params a)
  dispatch cs CommandType.do_failover a = for_domain a.domain λ name. ask (Call.do_failover name)

  unfoldable pub run : ColoStatus → Args → M (List String)
  run cs a =
      if a.restart_colod
      then pure ("todo : restart colod." ∷ [])
      else on_option (command_type_of a.command_type)
          (pure (("command " <> a.command_type <> " is not defined!") ∷ [])) (λ c. dispatch cs c a)

  -- main, over what `pidof` prints: without a daemon it ends after the line of `colod_pretest`.
  unfoldable pub cli_main : (String → List ℕ) → ColoStatus → Args → M (List String)
  unfolding run
  cli_main pidof cs a =
      let (ret, line) = colod_pretest pidof in
      if is_negative ret then pure (line ∷ []) else (do lines ← run cs a; pure (line ∷ lines))
