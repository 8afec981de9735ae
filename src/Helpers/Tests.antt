-- ===== src/Helpers/Tests.antt =====
-- A handler of the helpers with both hooks.
use grpc_tunnel.Prelude.{Option, ◌≡◌, refl, true, none, some, [], ◌∷◌}
use grpc_tunnel.Prelude.Int.{pos}
use grpc_tunnel.Prelude.Text.{Text, lit, trim_space, equal_fold}
use grpc_tunnel.Bridge.Target.{should_warn_plaintext_backend}
use grpc_tunnel.Http.{Url}
use grpc_tunnel.Helpers.{
  HelperConfig, configuration_warning, security_warning, new_helper_handler, serve_helper,
  serve_handler,
}
use grpc_tunnel.Helpers.Balanced.{ServesIf, handlers-ServesIf}

abbrev backend_config : HelperConfig
backend_config = record {
  target_address = lit "h:1";
  read_buffer_size = pos 0;
  write_buffer_size = pos 0;
  has_on_connect = true;
  has_on_disconnect = true;
}

abbrev some_url : Text → Option Url
some_url t = some (record {
  scheme = lit "http";
  host = lit "h:1";
  hostname = lit "h";
  path = [];
  raw_query = [];
  fragment = [];
})

warning_test : (new_helper_handler some_url (λ ip. none) backend_config).1 ≡ security_warning ∷ []
unfolding new_helper_handler should_warn_plaintext_backend trim_space equal_fold
warning_test = refl

invalid_test :
    (new_helper_handler (λ t. none) (λ ip. none) backend_config).1 ≡ configuration_warning ∷ []
unfolding new_helper_handler
invalid_test = refl

handlers-ServesIf_example :
    ServesIf true backend_config
      (serve_helper (new_helper_handler some_url (λ ip. none) backend_config).0 true)
    × ServesIf true backend_config (serve_handler backend_config true)
handlers-ServesIf_example = handlers-ServesIf some_url (λ ip. none) backend_config true
