-- ===== src/Tunnel/Tooling/Listening.antt =====
-- The addresses that ListenAndServeTooling of pkg/grpctunnel/tooling.go serves.
use grpc_tunnel.Prelude.{◌≡◌, ◌⊎◌, inl, inr, refl, Bool, true, false, Option, none, some, arith}
use grpc_tunnel.Prelude.Text.{
  Text, lit, is_empty, trim_space, has_prefix, split_host_port, trim_set, equal_fold,
}
use grpc_tunnel.Tunnel.Tooling.{
  ToolingConfig, introspects, wildcard_host, should_warn_tooling_wildcard_bind,
  get_tooling_listen_address_error, non_loopback_host, should_warn_tooling_non_loopback_bind,
}

-- The host of an address that is no reason for a warning: a loopback one, or one that is empty
-- but for brackets.
abbrev pub QuietHost : (Text → Option Bool) → Option (Text × Text) → Type 0
QuietHost parse_ip o =
    (o ≡ none)
    ⊎ ((hp : Text × Text) × (o ≡ some hp)
        × (wildcard_host (some hp) ≡ false)
        × ((equal_fold (trim_set hp.0 (lit "[]")) (lit "localhost") ≡ true)
            ⊎ (parse_ip (trim_set hp.0 (lit "[]")) ≡ some true)
            ⊎ ((parse_ip (trim_set hp.0 (lit "[]")) ≡ none)
                × (is_empty (trim_set hp.0 (lit "[]")) ≡ true))))

non_loopback-QuietHost :
    (parse_ip : Text → Option Bool) (o : Option (Text × Text))
    → wildcard_host o ≡ false
    → non_loopback_host parse_ip o ≡ false
    → QuietHost parse_ip o
non_loopback-QuietHost parse_ip none w h = inl refl
non_loopback-QuietHost parse_ip (some (host, port)) w h = inr ((host, port), refl, w, ground arith)

-- With reflection or pprof on, an address that is served without a warning is not blank, does not
-- begin with a colon, and either does not split into a host and a port, or has a host that is no
-- wildcard and is `localhost`, a loopback address or nothing but brackets.
pub listen_quiet-QuietHost :
    (parse_ip : Text → Option Bool) (addr : Text) (c : ToolingConfig)
    → introspects c ≡ true
    → get_tooling_listen_address_error addr c ≡ none
    → should_warn_tooling_non_loopback_bind parse_ip addr c ≡ false
    → (is_empty (trim_space addr) ≡ false)
      × (has_prefix (trim_space addr) (lit ":") ≡ false)
      × QuietHost parse_ip (split_host_port (trim_space addr))
unfolding get_tooling_listen_address_error should_warn_tooling_non_loopback_bind
    should_warn_tooling_wildcard_bind
listen_quiet-QuietHost parse_ip addr c on allowed quiet = (
  ground arith,
  ground arith,
  non_loopback-QuietHost parse_ip (split_host_port (trim_space addr)) (ground arith) (ground arith),
)

-- Without reflection and pprof, no address is refused and none is warned of.
pub listen_anywhere :
    (parse_ip : Text → Option Bool) (addr : Text) (c : ToolingConfig)
    → introspects c ≡ false
    → (get_tooling_listen_address_error addr c ≡ none)
      × (should_warn_tooling_non_loopback_bind parse_ip addr c ≡ false)
unfolding get_tooling_listen_address_error should_warn_tooling_non_loopback_bind
listen_anywhere parse_ip addr c off = (ground arith, ground arith)
