-- ===== src/Lib.antt =====
-- Verification of the core of hakoniwa-core-pro: the events that tell a process that data have come on a
-- channel, the remote calls (services) that are built on them, the interfaces through which an asset takes
-- part in a simulation, the conductor, and the probe and the recovery of a runtime.
-- Paths are from the repository's root.
--
-- The program. Processes of a simulation share memory. A process registers for a channel in the table of
-- receive events; whoever writes the channel raises the flags of its watchers, and a watcher takes its event
-- by asking for it or by having its callbacks called. A service is a pair of channels for each client: the
-- service table says which slot has which channels, a server and its clients register for their side, and
-- two protocol objects, one in the server and one in the client, run the exchange of packets. The conductor
-- moves the world time on; an asset follows it in steps of its own length, either in a loop of the library
-- that calls its callbacks, or by polling.
--
-- The parts and their files:
--
-- RecvEvent.antt and its children: HakoRecvEventTableType of sources/core/include/hako_pro_data_types.hpp as
-- the record Table; register_data_recv_event, update_data_recv_event, get_recv_event of
-- sources/core/src/hako_pro_data_recv_event.cpp under their names, with the part below a loop or a lock as a
-- helper (allocate, take_over, consume). RecvEvent/Callbacks has call_recv_event_callbacks,
-- call_recv_event_callback and set_recv_event_pending (twice: by id, and by channel as set_channel_pending);
-- RecvEvent/Hooks has on_pdu_data_write, on_pdu_data_before_write and clear_run_flags of
-- sources/core/src/hako_pro_data.cpp; RecvEvent/Trace has a call of any process as Op, one step as apply and
-- a sequence of calls as run. The other children hold theorems.
--
-- Service.antt and its children: the service table and the methods of
-- sources/core/src/service/hako_pro_data_service.cpp. Service has the table, set_service_data and the name
-- index of sources/core/include/hako_pro_data.hpp; Service/Create has create_service and
-- create_service_client; Service/Channels has get_request, put_response, put_request and get_response;
-- Service/History has the calls of many processes on one table. Service/Slots, Service/Calls,
-- Service/Responses, Service/Reconnect, Service/Return, Service/Served and Service/Index hold theorems.
-- Outcome.out_of_bounds stands for a write past the end of `clientName`, after which nothing is said.
--
-- Protocol.antt: the codes of include/hako_service_protocol.hpp and the two packet headers.
--
-- Server.antt and its children: HakoServiceServerProtocol (hako_service_protocol_server.cpp) together with
-- its HakoServiceServer (hako_service_impl_server.cpp), one record Server; Server/Poll has poll. The rest of
-- the program is behind the interface ServerPort. Server/Run, Server/Moves and Server/Turn hold theorems.
--
-- Client.antt and its children: HakoServiceClientProtocol and its HakoServiceClient, in the same way;
-- Client/Poll has poll. Client/Moves and Client/Timeout hold theorems.
--
-- Rpc.antt and its children: a server and a client on the memory that they share. The calls of HakoProData in
-- hako_service_impl_server.cpp and hako_service_impl_client.cpp are ports of Server and Client, server_port and
-- client_port. Rpc/Wires, Rpc/Steps, Rpc/Rest, Rpc/Turns and Rpc/Answered hold theorems.
--
-- FrontEnd.antt and its children: the templates of include/hako_asset_service_client.hpp and
-- include/hako_asset_service_server.hpp, in FrontEnd/ServiceClient and FrontEnd/ServiceServer, on top of Polling.
-- FrontEnd/Steps, FrontEnd/Bodies, FrontEnd/Silent and FrontEnd/Codes hold theorems.
--
-- Recovery.antt and its children: sources/command/src/runtime_recovery.cpp, the removal of the files that a
-- stopped runtime has left. Recovery/Files has the names of the files, their order and the loop that removes
-- them; Recovery has read_runtime_pids and recover_runtime_files. Recovery/Removal and Recovery/Safety hold
-- theorems.
--
-- Probe.antt: sources/command/src/runtime_probe.cpp, the question whether a runtime is up. Probe/Agree holds a
-- theorem on it and the recovery.
--
-- Command.antt and its children: hako-cmd, sources/command/src/hako_cmd.cpp. Command has the names of the commands
-- and std::stoi; Command/Handlers the functions do_start to do_real_cid, and HakoMetaDumper::parse of
-- sources/command/src/dump_meta.cpp; Command/Main has main, over Probe, Recovery and Lifecycle. Command/Guarded,
-- Command/Exits and Command/Restored hold theorems.
--
-- RuntimeError.antt: sources/core/src/hako_runtime_error.cpp and the guard of
-- sources/core/include/hako_runtime_error_internal.hpp. A C++ function that may throw, or dereference a null
-- pointer, has an Attempt as its result; behind the guard it is an Outcome.
--
-- Session.antt: how the tables of shared memory are created, loaded and reset for a run
-- (sources/core/src/hako_pro_data.cpp); Session/RunStart holds a theorem.
--
-- Lifecycle.antt: the process-wide objects of sources/core/src/hako_pro.cpp, as the record Process, with init,
-- create_master, create_asset_controller, get_simevent_controller and destroy. Lifecycle/Ready and
-- Lifecycle/Retry hold theorems.
--
-- Asset.antt and its children: the interface with callbacks, sources/assets/callback/src. Asset has the PDU
-- definitions of a robot and their keys; Asset/Config the parsing of a configuration; Asset/Instance the
-- record Asset for HakoAssetType, and what it calls as the record Port; Asset/Setup the functions that set the
-- instance up; Asset/Loop the loops, from hako_asset_impl_wait_state to hako_asset_impl_step, without the
-- prefix; Asset/Reply what the functions of hako_asset.cpp return; Asset/Api these functions; Asset/Events those
-- on events. Asset/Unique, Asset/Clock, Asset/Initialized, Asset/Restart, Asset/Steady, Asset/Sleep and
-- Asset/Misuse hold theorems.
--
-- Polling.antt and its children: the tables of services and clients of a polling asset
-- (sources/assets/polling/src/hako_asset_service_server.cpp and hako_asset_service_client.cpp) on top of
-- Server and Client, in Polling/Servers and Polling/Clients. Polling/NullEntry and Polling/Keys hold theorems.
--
-- Capi.antt and its children: sources/assets/polling/src/hako_capi.cpp on top of Lifecycle and RuntimeError;
-- Capi/Calls has the functions that forward. Capi/Errors and Capi/Retry hold theorems.
--
-- Conductor.antt: sources/conductor/src/hako_conductor_impl.cpp and hako_conductor.cpp; one round of the
-- conductor's thread is one step. Conductor/Restart holds a theorem.
--
-- Base.antt: shared names; arrays are functions of the index, the loops `for (i = 0; i < n; i++)` are first
-- (return at the first hit) and sweep (visit all), both structural in the number of rounds. Base/Decimal has
-- the digits of std::to_string. Tests.antt and its children: the theorems at concrete inputs, and runs.
--
-- Bounds: 4096 receive events, 1024 services, 256 clients of a service, names of 128 and 64 bytes, as in
-- sources/core/include/hako_pro_config.hpp. The arrays of the service table have no end here, as the code does not test
-- their lengths; configurations for which they have no room are outside the model (undefined behaviour in C++). `int heartbeat_confirmed_time_` and the percentage in a packet
-- keep their wrap-around; other counters (world time in 64 bits, request ids, run generations) are numbers
-- without a bound, and the time that a difference is taken of does not run backwards.
--
-- Fuel: the loops of Asset/Loop, Asset/Api and of a stop in Conductor wait for other processes and have no
-- bound; each has fuel, and `none` (out_of_fuel, for a reply) is the answer of one that has used it up. While
-- the run of a simulation goes on, and its conductor moves the world time at the latest after `patience`
-- notifications of the asset without effect (the record Steady), `n` steps of an asset need no more than `n`
-- plus `patience + 1` times the length of a step in microseconds, plus 2; a stop of the conductor needs 2. Everything else is structural.
--
-- What is a parameter: the master data, PDU data and contexts of hakoniwa-core-cpp and the packet converters
-- of hakoniwa-pdu-registry, which are other repositories (records Master, PduData, ServerPort, ClientPort,
-- CorePort, Port, SetupPort, EventPort, Controllers, ControlPort, MainPort, PduConvertor, Convertor and
-- ConductorPort), and the options that cxxopts parses.
-- A write of the PDU data that succeeds is taken to store the packet and call the hook on_pdu_data_write.
--
-- What is not modelled: one call of a method is one step, since the table's lock, the channel's lock and the
-- lock of a service's entry make the parts of it that conflict exclusive, so no interleaving inside a call
-- is considered; the lock of a service's entry is taken and given back within a call. Output to the console
-- is left out. initialize_service and the initialize of the protocol objects read files and allocate
-- buffers. In Asset, times are natural numbers (a hako_time_t that stays positive), the callbacks of the user
-- do not call the interface themselves, and the error boundary around hako_asset.cpp is that of RuntimeError,
-- not repeated. Of the polling interface, the one-line wrappers of hakoniwa_asset_polling.cpp are not covered;
-- nor are the JSON
-- text and the help of hako-cmd, the measurement that is compiled in on request, and the bindings.

pub mod Base
pub mod RecvEvent
pub mod Service
pub mod Rpc
pub mod FrontEnd
pub mod Protocol
pub mod Server
pub mod Client
pub mod Recovery
pub mod Session
pub mod Lifecycle
pub mod Asset
pub mod Polling
pub mod Conductor
pub mod Probe
pub mod Command
pub mod Capi
pub mod RuntimeError
pub mod Tests
