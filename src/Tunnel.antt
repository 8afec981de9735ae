-- ===== src/Tunnel.antt =====
-- pkg/grpctunnel: the server's handler and its options, the client's targets and options, the
-- tooling server.
pub mod Options
pub mod Server
pub mod Observability
pub mod Target
pub mod Browser
pub mod Reconnect
pub mod Client
pub mod Conn
pub mod Tooling
