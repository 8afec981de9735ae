-- ===== src/WebSocketConn/Tests.antt =====
-- The adapter of pkg/bridge/conn.go over a socket in memory.
use grpc_tunnel.Prelude.{ℕ, ◌<◌, ◌≡◌, refl, false, none, some, List, [], ◌∷◌, ◌++◌, arith}
use mathlib.Core.List.{flatten}
use grpc_tunnel.Socket.{binary_message}
use grpc_tunnel.Socket.Memory.{the_reader, memory, memory_laws}
use grpc_tunnel.WebSocketConn.{
  WebSocketConn, new_web_socket_conn, Outcome, read, read_loop, acquire_stream, write,
}
use grpc_tunnel.WebSocketConn.Stream.{payload}
use grpc_tunnel.WebSocketConn.Tunnel.{
  pending_of, readers_of, read_total, reads, writes, sent_of, tunnel_is_transparent,
}

abbrev fresh : WebSocketConn memory
fresh = new_web_socket_conn memory (some record { inbox = []; current = []; outbox = [] })

-- Two messages have come in, one of them empty.
abbrev loaded : WebSocketConn memory
loaded = new_web_socket_conn memory (
    some record {
      inbox =
          (binary_message, 1 ∷ 2 ∷ 3 ∷ []) ∷ (binary_message, []) ∷ (binary_message, 4 ∷ []) ∷ [];
      current = [];
      outbox = [];
    })

abbrev buffers : List (List ℕ)
buffers = (1 ∷ 2 ∷ 3 ∷ []) ∷ [] ∷ (4 ∷ []) ∷ []

abbrev written_conn : WebSocketConn memory
written_conn = record fresh {
  websocket = some record {
    inbox = [];
    current = [];
    outbox =
        (binary_message, 1 ∷ 2 ∷ 3 ∷ []) ∷ (binary_message, []) ∷ (binary_message, 4 ∷ []) ∷ [];
  };
}

all_written : writes memory memory_laws fresh buffers ≡ some written_conn
unfolding writes write new_web_socket_conn
all_written = refl

-- What is left of the loaded connection after everything has been read.
abbrev read_out : WebSocketConn memory
read_out = record loaded {
  websocket = some record { inbox = []; current = []; outbox = [] };
  read_stream = some the_reader;
}

all_read : reads memory memory_laws 9 loaded (2 ∷ 5 ∷ 9 ∷ []) ≡ some (1 ∷ 2 ∷ 3 ∷ 4 ∷ [], read_out)
unfolding reads read read_loop acquire_stream new_web_socket_conn
all_read = refl

fresh_sent : sent_of memory memory_laws fresh ≡ []
unfolding new_web_socket_conn
fresh_sent = refl

carried : pending_of memory memory_laws loaded ≡ payload (sent_of memory memory_laws written_conn)
unfolding payload new_web_socket_conn
carried = refl

tunnel_is_transparent_example :
    flatten buffers ≡ (1 ∷ 2 ∷ 3 ∷ 4 ∷ []) ++ pending_of memory memory_laws read_out
tunnel_is_transparent_example =
    tunnel_is_transparent memory memory memory_laws memory_laws 9 buffers (2 ∷ 5 ∷ 9 ∷ [])
      (1 ∷ 2 ∷ 3 ∷ 4 ∷ []) fresh written_conn loaded read_out fresh_sent all_written carried
      all_read

abbrev after_two : WebSocketConn memory
after_two = record loaded {
  websocket = some record {
    inbox = (binary_message, []) ∷ (binary_message, 4 ∷ []) ∷ [];
    current = 3 ∷ [];
    outbox = [];
  };
  read_stream = some the_reader;
}

two_read : read memory 9 loaded 2 ≡ some (1 ∷ 2 ∷ [], none, after_two)
unfolding read read_loop acquire_stream new_web_socket_conn
two_read = refl

few_readers : readers_of memory memory_laws loaded < 9
unfolding new_web_socket_conn
few_readers = omega arith

read_total_example : (out : Outcome memory) × (read memory 9 loaded 2 ≡ some out)
read_total_example = read_total memory memory_laws 9 2 loaded few_readers

still_open : loaded.has_run_close ≡ false
unfolding new_web_socket_conn
still_open = refl
