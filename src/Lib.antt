-- ===== src/Lib.antt =====
-- A verification library for tsanet: a hub that holds tinySA spectrum analyzers on serial ports,
-- and controllers that use them over the network (src/tsanet in the repository).
--
-- The program's parts. A controller and a hub exchange frames over TCP or a Unix socket: a frame is
-- a length of four bytes and a MessagePack map, which is a request, a response or an event
-- (src/tsanet/protocol). A handshake with a shared token may run on the socket before the first
-- frame. The hub (src/tsanet/hub) admits one controller session at a time, keeps a registry of the
-- devices that it found on its ports, dispatches each request to a command of the selected device,
-- and runs at most one subscription, a thread that polls trace data and pushes events. The device
-- layer (src/tsanet/device) turns operations into text commands and reads their answers,
-- framebuffers included. The controller's RPC client (src/tsanet/controller/rpc_client.py) gives
-- each call an id and wakes the caller when the response with that id comes. The command line
-- (controller/cli/app.py) turns each of its commands into calls of the client and prints the
-- answers; it parses frequencies (controller/parse.py) and computes statistics of a trace
-- (controller/stats.py).
--
-- Which file models what. Paths are relative to src/tsanet.
--   Prelude, Prelude/*: shared names, lists, text, association lists, integers over the native
--     numbers.
--   Errors: common/errors.py, the exceptions as a sum of kinds, results, and state passing with
--     exceptions (`Exec`), in which a raised exception keeps the state reached so far.
--   Protocol/Value, Value/Text, Value/Access: the values of MessagePack, their `str` and `repr`,
--     and what Python does with them: indexing, membership, iteration, comparison.
--   Protocol/Messages, Messages/RoundTrip: protocol/messages.py.
--   Protocol/Codec, Codec/Laws: protocol/codec.py.
--   Protocol/Transport, Transport/Receive, Transport/RoundTrip, Transport/Fuel:
--     protocol/transport.py, `Connection` and `Endpoint`. A socket is the arrivals that its peer's
--     bytes are cut into, with timeouts between them, the bytes it was given to send, and whether
--     it is closed.
--   Protocol/Security, Security/Handshake: protocol/security.py.
--   Device/Model, Version: device/model.py; the regular expression of `parse_version` is a
--     backtracking matcher. Device/Link: the handle `TinySA` of device/adapter.py as its clients
--     use it: the commands it was sent and answers that may depend on all of them, of which a
--     picture is fitted to its size. Device/Commands/*: device/commands. Device/Parsing:
--     device/parsing.py, with Parsing/Plain on its errors. Device/Legacy: device/_legacy.py, on
--     bytes. Device/Discovery: device/discovery.py. Device/Rgb565, Png: device/rgb565.py,
--     device/png.py.
--   Hub/Session: hub/session.py, `SessionManager`. Hub/Registry: hub/registry.py, `DeviceRegistry`;
--     Registry/Sets, Distinct, Scan, Refines and Keyed are proofs on its scan.
--   Hub/State: the objects that the hub's threads share. Hub/Subscriptions, Subscriptions/Loop:
--     hub/subscriptions.py, the manager and the loop of the thread. Hub/Dispatcher,
--     Dispatcher/Handlers: hub/dispatcher.py; Dispatcher/Laws, Lna, Isolation, Select, Unplugged,
--     Ready and Capture are proofs on it, as Session/Laws, Subscriptions/Laws and Server/Laws are
--     on theirs. Hub/Server: hub/server.py, the steps of the threads that serve connections;
--     Hub/Server/Reach: their interleavings as a step relation, with the lemmas on its lists in
--     Hub/Server/Served; Hub/Server/Race: the end of a connection while another comes. Hub/Cli:
--     hub/cli.py.
--   Controller/RpcClient, RpcClient/Delivery, RpcClient/Kept: controller/rpc_client.py, the
--     callers' threads and the reader's as steps on the client's fields, each step what runs
--     between two waits; RpcClient/Ids has the lemmas on ids, and RpcClient/EndToEnd follows a call
--     to the hub and back; RpcClient/Refused follows the hub's refusal to the client.
--   Controller/Parse: controller/parse.py. Controller/Stats: controller/stats.py, with Stats/Power
--     for its averages and levels, and Stats/Best, Range and Bandwidth as proofs.
--   Controller/Cli: what the commands of controller/cli/app.py share: a command is a program on the
--     remote end, on whether the client has connected and on a log of what was asked and shown, and
--     returns, exits or raises. Cli/Sweep, Marker, Trace, Basic, Session are the groups of
--     commands, and Cli/App the application, Cli/Setup its options and the help text; Cli/Format
--     prints frequencies. Cli/Keeps, Requests/* and */Understood are proofs on the requests that
--     the commands send, Cli/Runs, Sweep/Report and Basic/Battery on what they show.
--   Config, Config/Laws: common/config.py, the models and their validators.
--   */Examples: tests, and each theorem at a concrete input.
--
-- Bounds and fuel. `_recv_exact` is a loop on fuel; the fuel is the number of bytes asked for, and
-- each round reads at least one, so that it never runs out. `parse_version` matches structurally.
-- Lengths and header fields keep the widths that the code packs them in.
--
-- What is a parameter. MessagePack (that a value which packs is unpacked from its packing), zlib
-- (that decompressing undoes compressing), floating point (`Floats`), the clock, opening a serial
-- port (`Opener`), the injected port (`SerialPort`), Python's tables of characters (`Numbers`), how
-- Python formats and the file system (`Environment`), a type of floats (`Reals`) and the answers of
-- a device, of which nothing is assumed unless a theorem says so.
--
-- What is simplified. The text of a `FrameError` and of a few built-in exceptions is shorter than
-- the program's; the kind is the program's. The keys of a map are text, and a call's id a number; a
-- response with a float for its id is taken to be for no call. Logging is left out. The poller of
-- the registry is a step that may change the registry in any way. Of the hub's sends only that of a
-- refusal is taken to fail; a failed send of a response shows as the end of its connection.
--
-- What is not modelled. The GUI, `trace stats` of the controller's command line, the reading of
-- configuration files, discovery through injected ports, the thread and socket set-up of `listen`,
-- `dial` and `HubServer.start`: see the manifest of the components.
pub mod Prelude
pub mod Errors
pub mod Protocol
pub mod Config
pub mod Device
pub mod Hub
pub mod Controller
