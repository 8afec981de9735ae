-- ===== src/Lib.antt =====
-- grpc-tunnel carries gRPC over websockets. A server wraps a gRPC server (pkg/grpctunnel) or
-- stands before one as a reverse proxy (pkg/bridge): it upgrades a request to a websocket, makes a
-- net.Conn of it and serves HTTP/2 on that. A client dials the same way, natively or in a browser
-- (pkg/wasm/dialer).
--
-- Which file models what:
-- - Http: the parts of net/http's Request and net/url's URL that the code reads.
-- - AbuseControl: the guard of pkg/bridge/abuse_control.go, which pkg/grpctunnel/abuse_control.go
--   repeats: reserveHandlerConnection, clearHandlerConnection, buildHandlerClientKey. Branches is
--   about single calls, Sessions about histories of tunnels, Rate about the window of attempts.
-- - Settings: the websocket settings that bridge.Config and grpctunnel.BridgeConfig share, their
--   validation, applyHandlerConnectionSettings and its pinger (Pinger).
-- - Bridge: pkg/bridge/bridge.go. Config is the configuration and its validation, Target is
--   parseBridgeTargetURL and the plaintext policy, Handler is NewHandler and ServeHTTP, as a list of
--   effects and of deferred calls over the state of the guard.
-- - Socket: what the adapters use of gorilla/websocket, as a record of operations and one of laws.
-- - WebSocketConn: the net.Conn of pkg/bridge/conn.go over such a socket: Read, Write, Close, the
--   deadlines. Stream and Tunnel are about the byte stream, Closing about a closed adapter.
-- - BrowserConn: pkg/wasm/dialer/websocket_conn.go. The file itself is the queue (storeIncomingMessage,
--   shiftQueuedMessage, clearQueuedMessagesHeadLocked), Fifo and Refine compare it with a list;
--   Connection is the connection with its callbacks, channels and Read, and its children are about one
--   call (Rule, Reading, Total, Waking, Ending) and about histories (Sound, History, Closed).
-- - Dialer: pkg/wasm/dialer/dialer.go, the dialing that comes before the connection, as a state machine;
--   Settled and Ready are about its histories.
-- - Tunnel: pkg/grpctunnel. Conn is its own net.Conn, conn.go; Options, Server and its children are
--   server.go with the order of spans and metrics; Observability is what observability.go records;
--   Target, Client and Reconnect are client.go and api.go; Browser is client_wasm.go; Tooling is
--   tooling.go.
-- - Logging: pkg/bridge/logging.go (BridgeLog) and pkg/grpctunnel/logging.go (TunnelLog). Quote is
--   strconv.Quote with a reader of what it writes, Line a reader of lines.
-- - TodoStore: the todo server that examples/direct-bridge/main.go and examples/grpc-server/main.go
--   repeat: the store and its requests, Startup for loadTodos and newTodoServer, Persist for the worker
--   that saves, Origin for the origin check.
-- - Helpers: the bridge handlers of examples/_shared/helpers, proxy.go and server.go.
-- - ApiGuard: tools/api_compat_guard/main.go. The file itself collects the exported symbols, Baseline
--   has the commands.
-- - Runner: tools/runner.go. The file itself has processes, their environment and what a task does;
--   Commands, Publish and Quality are the commands, Repository, Benchmarks and Coverage read what they
--   need, Main is the command line; Scripts and Scripted are about commands that are lists of steps,
--   Published, Spellings, Canonical and Temporary about the publish check, Judging, Gates and Passing
--   about the quality gates; Expected writes out the processes that both are to run.
-- - Prelude: shared names, integers and lists over the native numbers, Go's text functions and maps,
--   and traces of effects.
--
-- How it is modelled. State is passed on explicitly, one step for each section that a lock guards or
-- that the JavaScript event loop runs. Durations are signed numbers of nanoseconds and times are
-- numbers of nanoseconds, without the bound of int64. Text is a list of code points. Callbacks are told
-- apart only by whether they are set. Parameters stand for code outside the repository and for parsers
-- of the standard library: gorilla/websocket, url.Parse and URL.String, net.ParseIP, gRPC's backoff
-- defaults, the growth of a slice, the page's location, JSON, float64, processes and the file system.
-- Where a theorem relies on more than their types, it names the laws as a hypothesis.
--
-- Fuel: the adapter's Read loops while messages are empty, and fuel above the number of messages that
-- may still be started is enough. The browser's Read has two rounds of its loop, which are enough since
-- the first takes the only signal. Nothing else needs fuel.
--
-- Not modelled: the HTTP/2 server, the reverse proxy, gRPC itself, the text of errors, the native dialer's
-- handshake, what commands print, and those examples that only wire the packages together.
pub mod Prelude
pub mod Http
pub mod AbuseControl
pub mod Settings
pub mod Bridge
pub mod Socket
pub mod WebSocketConn
pub mod BrowserConn
pub mod Tunnel
pub mod Logging
pub mod TodoStore
pub mod ApiGuard
pub mod Runner
pub mod Dialer
pub mod Helpers
