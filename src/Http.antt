-- ===== src/Http.antt =====
-- The parts of net/http's Request and of net/url's URL that the program reads.
use grpc_tunnel.Prelude.{Option}
use grpc_tunnel.Prelude.Text.{Text}

-- `url.URL`: the fields that a target address is judged by. `hostname` is the method's result.
pub record Url : Type 0 where
  pub scheme : Text
  pub host : Text
  pub hostname : Text
  pub path : Text
  pub raw_query : Text
  pub fragment : Text

-- `http.Request`. `header` is `Header.Get`; `url_path` is `URL.Path`, or `none` for a nil URL;
-- `trace_ids` are the trace and span identifiers of the context, or `none` where it has no valid
-- span context.
pub record Request : Type 0 where
  pub remote_addr : Text
  pub method : Text
  pub url_path : Option Text
  pub header : Text → Text
  pub trace_ids : Option (Text × Text)
