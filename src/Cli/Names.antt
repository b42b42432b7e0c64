-- ===== src/Cli/Names.antt =====
-- The names of the commands.
use colo_manage_tools.Prelude.{some, ◌≡◌, refl}
use colo_manage_tools.Cli.{CommandType, command_type_of, command_name}

-- The tool finds each command under the name that the daemon binds its procedure to.
pub command_type_of-name : (c : CommandType) → command_type_of (command_name c) ≡ some c
unfolding command_type_of command_name
command_type_of-name CommandType.connect_peer = refl
command_type_of-name CommandType.connect_status = refl
command_type_of-name _ = refl
