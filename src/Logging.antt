-- ===== src/Logging.antt =====
-- The structured log lines of pkg/bridge/logging.go and pkg/grpctunnel/logging.go.
pub mod Quote
pub mod Line
pub mod RequestFields
pub mod BridgeLog
pub mod TunnelLog
mod Tests
