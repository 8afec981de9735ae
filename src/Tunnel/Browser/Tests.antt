-- ===== src/Tunnel/Browser/Tests.antt =====
-- The targets of pkg/grpctunnel/client_wasm.go on a page.
use grpc_tunnel.Prelude.Text.{lit}
use grpc_tunnel.Tunnel.Browser.{Location}

abbrev page : Location
page = record { protocol = lit "https:"; host = lit "example.com" }
