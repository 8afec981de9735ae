-- ===== src/Runner/Passing.antt =====
-- That the quality gates of tools/runner.go pass where what they ask for holds.
use grpc_tunnel.Prelude.Text.{Text}
