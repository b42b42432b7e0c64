-- ===== src/Lib.antt =====
-- colo-manage-tools: the daemon `colod` that runs pairs of QEMU machines in COLO mode on two nodes.
--
-- A colod keeps the status of its node, which is the primary or the secondary one of a pair, and a
-- record of each domain. The command line tool calls it over RPC; it calls the colod of the peer over
-- the same RPC, starts QEMU by fork and execvp, sends it QMP commands over a socket, and writes what
-- it has to survive a restart to a save file in YAML. A handler answers a code and a message.
--
-- The files, with the code that they model:
--   Prelude    shared names, `int`, decimal texts, options as exceptions
--   Config     include/config.h: the states, their names, the status of a node
--   Platform   yaml-cpp, the operating system and the RPC client as records `Yaml` and `Os` of
--              operations, which the model takes as instance arguments; Platform/Laws has what is
--              assumed of yaml-cpp, and Platform/Sample instances that meet it
--   Domains    the map `run_status::domains` of include/colod.h
--   World      the globals of src/utils/colod_service.cpp with the files and the operating system,
--              and the monad of functions that change them; World/Keeps and World/Filed have the rules for its
--              invariants, World/Called what a return of a call tells, and World/Returns those for functions that no exception ends
--   SaveFile   src/utils/config_parser.cpp and `save_domain_info` of src/utils/colod_service.cpp;
--              SaveFile/Document has the loops on a document, SaveFile/Table, Entries, Refines, Marked
--              and Marks what they do to a table from names to entries, SaveFile/Distinct that the
--              entries keep different names, SaveFile/Restored and Reload what a start of the
--              daemon reads back, SaveFile/Printed the functions that only print
--   QmpSocket  `qmp_socket` of src/utils/colod_utils.cpp, `send_qmp_cmds`
--   RunVm      src/utils/runvm.cpp
--   Domain     src/utils/domain.cpp: Domain/Parse is `vm_config_parse`, Domain/Files the functions on
--              files, Domain/Command and Domain/Qmp the commands for QEMU
--   Service    src/utils/colod_service.cpp, one module for the handlers of a kind with their peer
--              procedures, and Service/Peer for the bindings of src/utils/colod_server.cpp;
--              Service/Invariant has the invariant of the whole server, Service/Others what a call
--              leaves alone, Service/Tables that the save file keeps its form, Service/Total that the
--              handlers without a call of the peer or the monitor come back
--   Server     src/utils/colod_server.cpp and include/colod_server.h: the class `ColodServer` over the
--              server of the RPC library, and the messages that the callers send; Server/Bound has
--              that each is bound to its procedure
--   Daemon     src/colod.cpp: `colod_daemon` over the answers of the system calls, and `main` on the
--              messages that arrive; Daemon/Lifetime has the invariant from the start on
--   Serialize  the operators `<<` and `>>` of include/config.h, include/colod.h and
--              include/colod_service.h, over the serializer as a parameter
--   Pretest    the search for the daemon by `pidof` in src/utils/colod_utils.cpp
--   Cli        src/main.cpp: the commands of the command line tool, over the call of the daemon as a
--              parameter; Cli/Sound runs it against the server
--   Frame      what the functions below the handlers leave alone; Frame/Tables has that they keep
--              the form of the save file
--   Tests      sample runs on the instances of Platform/Sample
--
-- Conventions. A function of the code keeps its name; a part of a long one is a function of its own,
-- and says which part it is. A function that may throw, or changes a global, a file or the state of
-- the operating system, is a function in the monad `M`: it returns a value and a world, or ends the
-- process by an exception, in the world that it had. `none` in place of a value of yaml-cpp is an
-- exception. An `int` is `pos n` or `negsuc n`; the code does no arithmetic on it, so no width is
-- kept. A port is read by yaml-cpp as an `unsigned short`. Every loop of the code runs over a list
-- and is a recursion on it, so no fuel is needed. A call of the RPC client that was given no address
-- ends the process, and so does an exception of zmq: whether it takes an address, and whether it throws
-- in a call, are answers of `Os`. So are whether a path can be opened for writing and which paths name
-- the same file. A save file that was read is taken to be writable, since the daemon is root. In an unordered_map the order of the entries is left open by the language; the
-- model has that of an association list. What the code prints, and its waits, are left out.
--
-- Not modelled: the libraries under include/ (yaml-cpp, buttonrpc.hpp, Serializer.hpp, zmq,
-- commandline.h), which are third-party code. Their operations are parameters. A child of `fork` is
-- modelled up to the arguments of `execvp`, and `colod_restart` is empty.
pub mod Prelude
pub mod Config
pub mod Platform
pub mod Domains
pub mod World
pub mod SaveFile
pub mod QmpSocket
pub mod RunVm
pub mod Domain
pub mod Service
pub mod Frame
pub mod Cli
pub mod Server
pub mod Daemon
pub mod Serialize
pub mod Pretest
pub mod Tests
