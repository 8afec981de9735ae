-- ===== src/Tunnel/Conn/Tests.antt =====
-- The adapter of pkg/grpctunnel/conn.go over a socket in memory.
use grpc_tunnel.Prelude.{◌<◌, ◌≡◌, some, [], ◌∷◌, arith}
use grpc_tunnel.Socket.{binary_message}
use grpc_tunnel.Socket.Memory.{memory, memory_laws}
use grpc_tunnel.Tunnel.Conn.{TunnelConn, TunnelRead, new_tunnel_conn, tunnel_read}
use grpc_tunnel.Tunnel.Conn.Stream.{readers_to_come, Fits, tunnel_read-Fits}

-- An empty message and one of three bytes have come in.
abbrev loaded : TunnelConn memory
loaded = new_tunnel_conn memory (
    some record {
      inbox = (binary_message, []) ∷ (binary_message, 1 ∷ 2 ∷ 3 ∷ []) ∷ [];
      current = [];
      outbox = [];
    })

few_to_come : readers_to_come memory memory_laws loaded < 4
unfolding new_tunnel_conn
few_to_come = omega arith

tunnel_read-Fits_example :
    (out : TunnelRead memory) × (tunnel_read memory 4 loaded 2 ≡ some out)
    × Fits memory memory_laws loaded 2 out
tunnel_read-Fits_example = tunnel_read-Fits memory memory_laws loaded 2 4 few_to_come
