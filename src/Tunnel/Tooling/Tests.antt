-- ===== src/Tunnel/Tooling/Tests.antt =====
-- The tooling server of pkg/grpctunnel/tooling.go at concrete prefixes and addresses.
use grpc_tunnel.Prelude.{◌≡◌, refl, true, false, Bool, ◌&&◌, Option, none, some, if◌then◌else◌}
use grpc_tunnel.Prelude.Text.{
  Text, lit, text_eq, trim_space, has_prefix, has_suffix, split_host_port, trim_set, equal_fold,
}
use grpc_tunnel.Tunnel.Tooling.{
  ToolingConfig, get_tooling_config_error, tooling_patterns, get_tooling_listen_address_error,
  should_warn_tooling_non_loopback_bind, should_warn_tooling_wildcard_bind,
}
use grpc_tunnel.Tunnel.Tooling.Routes.{has_duplicate, tooling_patterns_duplicate}

abbrev tooling : ToolingConfig
tooling = record {
  should_enable_reflection = false;
  should_enable_health_service = false;
  should_enable_pprof = true;
  debug_path_prefix = lit "/";
}

slash_accepted : get_tooling_config_error tooling ≡ none
unfolding get_tooling_config_error has_prefix has_suffix text_eq
slash_accepted = refl

tooling_patterns_duplicate_example :
    has_duplicate (tooling_patterns tooling) ≡ (true && text_eq (lit "/") (lit "/"))
tooling_patterns_duplicate_example = tooling_patterns_duplicate tooling slash_accepted

abbrev parse_ip : Text → Option Bool
parse_ip t = if text_eq t (lit "127.0.0.1") then some true else none

allowed : get_tooling_listen_address_error (lit "127.0.0.1:6060") tooling ≡ none
unfolding get_tooling_listen_address_error should_warn_tooling_wildcard_bind trim_space has_prefix
    split_host_port text_eq
allowed = refl

quiet : should_warn_tooling_non_loopback_bind parse_ip (lit "127.0.0.1:6060") tooling ≡ false
unfolding should_warn_tooling_non_loopback_bind should_warn_tooling_wildcard_bind trim_space
    has_prefix split_host_port trim_set equal_fold text_eq
quiet = refl
