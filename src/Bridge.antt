-- ===== src/Bridge.antt =====
-- pkg/bridge: the handler that bridges websockets to a backend.
pub mod Config
pub mod Target
pub mod Handler
pub mod Tests
