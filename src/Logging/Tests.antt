-- ===== src/Logging/Tests.antt =====
-- The log lines on concrete requests, and the theorems of the children there.
use grpc_tunnel.Prelude.{ℕ, ◌≡◌, refl, Bool, true, false, none, some, [], if◌then◌else◌}
use grpc_tunnel.Prelude.Text.{Text, lit, text_eq}
use grpc_tunnel.Http.{Request}
use grpc_tunnel.Logging.Quote.Printing.{printed}
use grpc_tunnel.Logging.Line.{kept, clean}
use grpc_tunnel.Logging.BridgeLog
use grpc_tunnel.Logging.BridgeLog.{build_bridge_log_line, log_bridge_event}
use grpc_tunnel.Logging.BridgeLog.Reading.{read_bridge_log_line, build_bridge_log_line-Reads}
use grpc_tunnel.Logging.TunnelLog
use grpc_tunnel.Logging.TunnelLog.{build_grpctunnel_log_line}
use grpc_tunnel.Logging.TunnelLog.Reading.{
  read_grpctunnel_log_line, build_grpctunnel_log_line-Reads,
}

abbrev every_rune : ℕ → Bool
every_rune c = true

abbrev correlated : Text → Text
unfolding text_eq
correlated name = if text_eq name (lit "X-Correlation-Id") then lit " id 7 " else []

-- A request whose path tries to end its quotes and to begin a line of its own.
abbrev hostile : Request
unfolding correlated
hostile = record {
  remote_addr = lit "10.0.0.1:80";
  method = lit "GET";
  url_path = some (lit "/\" level=\"x\n");
  header = correlated;
  trace_ids = none;
}

line_test :
    build_bridge_log_line every_rune
      (lit " WARN ")
      []
      (some hostile)
      (some (lit "bad\tmove"))
      (lit "hi")
    ≡ lit
        "component=bridge level=\"WARN\" event=\"bridge_event\" msg=\"hi\" request_id=\"id 7\" remote_addr=\"10.0.0.1:80\" method=\"GET\" path=\"/\\\" level=\\\"x\" error=\"bad\\tmove\""
unfolding build_bridge_log_line hostile
line_test = refl

tunnel_line_test :
    build_grpctunnel_log_line every_rune [] [] (lit "e") none none []
    ≡ lit "component=\"grpctunnel\" level=\"INFO\" event=\"e\""
unfolding build_grpctunnel_log_line
tunnel_line_test = refl

no_logger_test : log_bridge_event every_rune false [] [] none none [] ≡ none
unfolding log_bridge_event
no_logger_test = refl

build_bridge_log_line-Reads_example :
    (printed every_rune (build_bridge_log_line every_rune [] [] (some hostile) none (lit "hi"))
      ≡ true)
    × (read_bridge_log_line (build_bridge_log_line every_rune [] [] (some hostile) none (lit "hi"))
        ≡ some (clean (kept (BridgeLog.line_fields [] [] (some hostile) none (lit "hi")))))
build_bridge_log_line-Reads_example =
    build_bridge_log_line-Reads every_rune [] [] (some hostile) none (lit "hi")

build_grpctunnel_log_line-Reads_example :
    (printed every_rune
        (build_grpctunnel_log_line every_rune [] [] [] (some hostile) none (lit "hi"))
      ≡ true)
    × (read_grpctunnel_log_line
          (build_grpctunnel_log_line every_rune [] [] [] (some hostile) none (lit "hi"))
        ≡ some (clean (kept (TunnelLog.line_fields [] [] [] (some hostile) none (lit "hi")))))
build_grpctunnel_log_line-Reads_example =
    build_grpctunnel_log_line-Reads every_rune [] [] [] (some hostile) none (lit "hi")
