-- ===== src/Lib.antt =====
-- A model of the connector library of this repository, crates/qomicex-connector: Minecraft players
-- form a virtual network with EasyTier; the host opens a room, whose center answers requests over
-- TCP; guests find the center in the network, connect, negotiate protocols and send heartbeats.
--
-- Which file models which part, with paths below crates/qomicex-connector/src:
--   Base and its children: texts as lists of code points, bytes as numbers, UTF-8 with replacement,
--     decimal numbers, string splitting, hash maps as lists of entries, `Result` and `?`.
--   Error: error.rs. Models: models/*.rs; Models/RoomCode is models/room_code.rs.
--   Core/Serializer: core/protocol_serializer.rs, the frames of requests and responses, read from a
--     buffer or from a stream. Core/Negotiator, Core/Heartbeat, Core/Discovery: the files of
--     these names (protocol_negotiator.rs, heartbeat.rs, center_discovery.rs).
--   Json: the interface to serde_json, and in Json/Serde what printing and parsing have in common.
--   Protocols: protocols/mod.rs, the handlers.
--   Center/Players and Center/Room: center/scaffolding_center.rs, the player list and `start`;
--     Center/Players/Locking is how its updates get the list's lock.
--   Center/Server: the slot of the TCP server in center/scaffolding_center.rs and the task that runs
--     it, as a step relation. Center/Accept: center/tcp_server.rs, the accept loop and the tasks of
--     its connections as interleaved steps.
--   Center/Registry and Center/Connection: center/client_conn.rs, the connection tables, the
--     heartbeat check and `handle_client`, with the protocol table of center/tcp_server.rs.
--   Guest/Tcp: guest/tcp_client.rs. Guest/Keys, Guest/Session, Guest/Requests, Guest/Joining:
--     guest/scaffolding_guest.rs; its `connect` is `connect_room`. Guest/Beating is its
--     heartbeat. Guest/Dialogue and Guest/Calls put a guest's requests against the answers of a room.
--     Guest/Listing and Guest/Greeting are its question for the players and its ping, Guest/Meeting a
--     whole `connect` against a room, Guest/Address the address that it gets then, and Guest/Delegates
--     its calls of custom protocols that are made by `new_json_req`. In Guest/Calls and
--     Guest/Delegates the room reads the frames that the guest writes; the other files hand the room the
--     requests, whose fixed keys every frame carries.
--   Relay: relay/nodes.rs and relay/provider.rs, the default nodes, the list of the node service and
--     how it is fetched. Interfaces: util.rs, the choice of the address to bind to. Cancellation:
--     util.rs, the cancellation token with any number of tasks, as a step relation.
--   EasyTier: easytier/manager.rs. EasyTier/Config is the configuration that it builds,
--     EasyTier/Waiting the wait for an instance, EasyTier/Instance the manager with its calls of the
--     library, EasyTier/Peers the operations on peers.
--   Center/Host and Guest/Member: a center and a guest with their EasyTier managers, for `start` and
--     `close`, `connect` and `leave`. `start_host` changes the center, where Center/Room only gives the room.
--     Center/Host/Peers is what a center passes on to its manager.
--   Client: client.rs. Client/RelayCache is the cache of relay nodes, Client/Rooms the creation, the
--     joining and the closing of rooms.
--   Cli: crates/qomicex-connector-cli/src/main.rs. Cli/Rooms has the commands `host` and `guest`,
--     Cli/Relaying the command `relay`, Cli/Main the end of the client and of the process.
--   Tests: runs at concrete inputs.
--
-- State is passed explicitly. A handler takes the state that the handlers of a room share; a
-- connection takes the room, its handlers' state and the connection tables; an action of a guest
-- takes the guest and returns it also where it fails. What the network, the clock and other tasks do
-- is a parameter: a stream is the bytes that will arrive and how it ends, a round of a connection
-- says whether a token is cancelled, whether the client stays silent on an open socket, and whether
-- the answer can be written, an exchange of a guest says what arrives before the deadline. Tokens are
-- shared: a room finds some cancelled when it starts, and others may cancel them at any step of it. The
-- watch channel of the player list keeps its value where it has no receiver. JSON, EasyTier, HTTP,
-- socket addresses and random bytes are parameters as well; the calls of EasyTier that start and stop
-- instances are recorded, and which instances it deletes when asked to is a parameter of the theorems.
--
-- Loops: the loop of a connection runs on fuel, one more than the bytes to come, which is enough
-- since every request takes at least one byte; discovery makes 60 scans, a guest 10 attempts and the
-- port scan 64510, as the code does; the retries of code generation go through the list of random
-- buffers; the wait for an EasyTier instance runs on 60 sleeps, after which 30 seconds have passed.
--
-- Not modelled: the system calls behind the list of network interfaces and the privileges, the choice
-- of a free local port by the system, what clap does with the arguments, and the lines that the command
-- line prints from a task of its own while a room is open. The attempts at a token's atomic flag are
-- taken in one order, as its acquire and release give it.
pub mod Base
pub mod Error
pub mod Models
pub mod Core
pub mod Json
pub mod Protocols
pub mod Center
pub mod Guest
pub mod Relay
pub mod Interfaces
pub mod Cancellation
pub mod EasyTier
pub mod Client
pub mod Cli
pub mod Tests
