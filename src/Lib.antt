-- ===== src/Lib.antt =====
-- The ZX909 gateway: a TCP server to which GPS trackers connect, which extracts and parses their
-- packets, replies to them, and forwards what they report to ThingsBoard.
--
-- The parts of the program and the modules that model them:
--   internal/protocol/frame.go      ExtractFrame and the functions under it: Protocol/Frame, with
--                                   findLBSHeader and the cell size in Protocol/Lbs; the replies
--                                   BuildLoginACK, BuildDatetimeACK, ...: Protocol/Ack
--   internal/protocol/crc.go        CRC16X25: Protocol/Crc
--   internal/protocol/login.go      ParseLogin: Protocol/Login
--   internal/protocol/status.go     ParseStatus: Protocol/Status
--   internal/protocol/gps.go        ParseGPS: Protocol/Gps
--   internal/protocol/iccid.go      ParseICCID: Protocol/Iccid
--   internal/protocol/wifilbs.go    ParseWifiLBS: Protocol/WifiLbs
--                                   the texts for the log of frame.go, status.go and wifilbs.go:
--                                   Protocol/Summary
--   internal/protocol/commands.go   the packets sent to a device: Protocol/Commands
--   internal/server/server.go       Server, Session and the session map: Server/State; the path to
--                                   ThingsBoard and the goroutines that use it: Server/Uplink;
--                                   handleFrame, the deferred calls of handleConn and SendToDevice:
--                                   Server/Handle; drainFrames and the read loop: Server/Drain;
--                                   a whole handleConn: Server/Connection; SafeConn:
--                                   Server/SafeConn; goroutines that interleave on the way to
--                                   ThingsBoard: Server/Calls, with the order of its requests in
--                                   Server/Introduced; ListenAndServe and Shutdown: Server/Listener
--   internal/command/handler.go     the command handler and the interface SessionLookup: Command; the
--                                   server behind that interface: Command/Delivery
--   internal/server/debug_api.go    the debug REST interface, with ListSessions of server.go: Debug
--   internal/registry/paapeli.go    the registry client: Registry; calls that interleave:
--                                   Registry/Calls
--   internal/mqtt                   the interface of the uplink, GatewayClient, MockClient and the
--                                   answers to RPC messages: Mqtt
--   internal/geolocation            NewClient and Locate: Geolocation
--   internal/config/config.go       the settings and Load: Config
--   cmd/gateway/main.go             how the parts are put together, with registry.New (paapeli.go,
--                                   registry.go) and NewGatewayClient (client.go): Gateway; the run
--                                   of the process: Gateway/Process
--   cmd/toy/main.go                 the packets of the simulator and their order: Device
-- Names are those of the source in lower case with underscores: ExtractFrame is extract_frame.
--
-- How they interact: a connection appends what it reads to its buffer (receive), takes the frames
-- out of it (drain_frames, extract_frame) and dispatches each on its protocol number (handle_frame),
-- which parses the body, changes the session map, replies on the connection and asks ThingsBoard to
-- connect a device or to take telemetry. What it asks of ThingsBoard is in its log, and a Client of
-- Mqtt carries it out (perform). Commands come to the command handler as RPC messages (on_rpc) or as
-- REST requests (serve), and go through the server to a device.
--
-- State: a Server holds the session map, the sessions by number (a pointer is a number), the list
-- `tasks` of goroutines started and `log`, the requests made of others, in order. Each operation
-- takes a Server and gives the next one. The connections' goroutines, the tasks and the commands
-- are interleaved as steps in any order (Server/WellFormed/Reach, and with a registry that is on
-- Server/Trace; with the registry client, Gateway/Authority): one frame that is handled, one
-- goroutine that runs, one command, one connection that ends. Server/Directory is the abstract
-- view of the session map. The two reads of the clock in a handler, and the answers of the
-- registry, of ThingsBoard, of the network and of the geolocation service, are fields of a World,
-- which each step takes anew. Server/Calls is finer: there a publication and maybeConnectTB are
-- interrupted between any two sections under a mutex or calls of a client, and Server/Calls/Atomic
-- relates it to the steps that are whole. A byte is a number below 256 and a string is the list of its bytes.
--
-- Time and floating-point numbers of Go are the parameter Platform, of which nothing is assumed. The
-- registry client counts time in nanoseconds. HTTP and JSON are given by a Service, a Json and a
-- Marshal, and the MQTT library by a Broker.
--
-- The listener has a state of its own (Listener), which events change: its loop, the handlers that it
-- counts and Shutdown take turns in any order. It does not hold the sessions.
--
-- Fuel: drain_frames runs on fuel; receive gives one more than the number of bytes in the buffer, and
-- each round takes a byte or more away, so the fuel suffices (Server/Drain/Total).
--
-- Not modelled: what a socket does with a deadline and everything below it, log output, the
-- decoding of JSON and YAML, the HTTP server of the debug interface, how the MQTT connection is
-- made and kept, and in the simulator the tickers and the movement of the position. The
-- server takes the answers of the registry and of the geolocation service from a World;
-- registry_world and located_world are worlds that the clients answer. Gateway/Authority keeps the
-- history of the questions to the registry client, each asked as a whole; Registry/Calls
-- interleaves calls of the client without a server. In the same way SafeConn stands alone, and a
-- write of the server is one output. Shutdown is called once.
pub mod Prelude
pub mod Bytes
pub mod Platform
pub mod Protocol
pub mod Server
pub mod Device
pub mod Command
pub mod Registry
pub mod Mqtt
pub mod Debug
pub mod Config
pub mod Geolocation
pub mod Gateway
pub mod Samples
