-- ===== src/Tunnel/Tooling.antt =====
-- pkg/grpctunnel/tooling.go: the optional server for direct gRPC access, its services, its routes
-- and the addresses it may listen on. `parse_ip` is `net.ParseIP`, giving whether the address is a
-- loopback address, with `none` for a nil address.
pub mod Routes
pub mod Listening
pub mod Tests
use grpc_tunnel.Prelude.{
  ℕ, Bool, true, false, ◌&&◌, ◌||◌, not, Option, none, some, List, [], ◌∷◌, ◌++◌, if◌then◌else◌,
}
use grpc_tunnel.Prelude.Text.{
  Text, lit, is_empty, text_eq, trim_space, has_prefix, has_suffix, trim_suffix, split_host_port,
  trim_set, equal_fold,
}

pub record ToolingConfig : Type 0 where
  pub should_enable_reflection : Bool
  pub should_enable_health_service : Bool
  pub should_enable_pprof : Bool
  pub debug_path_prefix : Text

pub data ToolingError : Type 0 where
  grpc_server_required prefix_start prefix_end listen_address_refused : ToolingError

-- `GetToolingConfigError`
unfoldable pub get_tooling_config_error : ToolingConfig → Option ToolingError
get_tooling_config_error c =
    if is_empty c.debug_path_prefix
    then none
    else if not (has_prefix c.debug_path_prefix (lit "/"))
    then some prefix_start
    else if not (has_suffix c.debug_path_prefix (lit "/"))
    then some prefix_end
    else none

abbrev pub debug_path_prefix_of : ToolingConfig → Text
debug_path_prefix_of c =
    if is_empty c.debug_path_prefix then lit "/debug/pprof/" else c.debug_path_prefix

-- `registerToolingPprofHandlers`: the patterns that it hands to the mux, in order.
unfoldable pub register_tooling_pprof_handlers : ToolingConfig → List Text
register_tooling_pprof_handlers c =
    let base = trim_suffix (debug_path_prefix_of c) (lit "/") in
    debug_path_prefix_of c
    ∷ (base ++ lit "/cmdline")
    ∷ (base ++ lit "/profile")
    ∷ (base ++ lit "/symbol")
    ∷ (base ++ lit "/trace")
    ∷ []

-- `hasToolingService`, of the names of the services that a server has.
abbrev pub has_tooling_service : List Text → Text → Bool
has_tooling_service [] name = false
has_tooling_service (s ∷ ss) name = text_eq s name || has_tooling_service ss name

pub data Registration : Type 0 where
  register_reflection register_health : Registration

abbrev reflection_service : Text
reflection_service = lit "grpc.reflection.v1alpha.ServerReflection"

abbrev health_service : Text
health_service = lit "grpc.health.v1.Health"

abbrev registration_if : Bool → Registration → List Registration
registration_if b r = if b then r ∷ [] else []

-- `ensureToolingServices`: what it registers. The health server that it returns is there where
-- `register_health` is among these.
unfoldable pub ensure_tooling_services : List Text → ToolingConfig → List Registration
ensure_tooling_services services c =
    registration_if
      (c.should_enable_reflection && not (has_tooling_service services reflection_service))
      register_reflection
    ++ registration_if
        (c.should_enable_health_service && not (has_tooling_service services health_service))
        register_health

pub data ToolingWarning : Type 0 where
  tooling_exposure tooling_reflection_enabled tooling_pprof_enabled : ToolingWarning
  tooling_bind_non_loopback : ToolingWarning

abbrev warning_if : Bool → ToolingWarning → List ToolingWarning
warning_if b w = if b then w ∷ [] else []

-- `warnToolingExposure`
abbrev pub warn_tooling_exposure : ToolingConfig → List ToolingWarning
warn_tooling_exposure c =
    tooling_exposure ∷ warning_if c.should_enable_reflection tooling_reflection_enabled
    ++ warning_if c.should_enable_pprof tooling_pprof_enabled

pub record ToolingHandler : Type 0 where
  pub registrations : List Registration
  pub warnings : List ToolingWarning
  pub patterns : List Text

pub data ToolingResult {ℓ} (A : Type ℓ) : Type ℓ where
  done : A → ToolingResult A
  refused : ToolingError → ToolingResult A

abbrev pub tooling_patterns : ToolingConfig → List Text
tooling_patterns c =
    (if c.should_enable_pprof then register_tooling_pprof_handlers c else []) ++ lit "/" ∷ []

abbrev unless_tooling_error :
    Option ToolingError → List Text → ToolingConfig → ToolingResult ToolingHandler
unless_tooling_error (some e) services c = refused e
unless_tooling_error none services c = done record {
  registrations = ensure_tooling_services services c;
  warnings = warn_tooling_exposure c;
  patterns = tooling_patterns c;
}

-- `BuildToolingHandler`, for the names of the gRPC server's services, or `none` for a nil server.
unfoldable pub build_tooling_handler :
    Option (List Text) → ToolingConfig → ToolingResult ToolingHandler
build_tooling_handler none c = refused grpc_server_required
build_tooling_handler (some services) c =
    unless_tooling_error (get_tooling_config_error c) services c

abbrev pub introspects : ToolingConfig → Bool
introspects c = c.should_enable_reflection || c.should_enable_pprof

abbrev pub wildcard_host : Option (Text × Text) → Bool
wildcard_host none = false
wildcard_host (some (host, port)) =
    let h = trim_space host in
    is_empty h || text_eq h (lit "0.0.0.0") || text_eq h (lit "::") || text_eq h (lit "[::]")

-- `shouldWarnToolingWildcardBind`
unfoldable pub should_warn_tooling_wildcard_bind : Text → Bool
should_warn_tooling_wildcard_bind addr =
    let t = trim_space addr in
    if is_empty t || has_prefix t (lit ":") then true else wildcard_host (split_host_port t)

-- `getToolingListenAddressError`
unfoldable pub get_tooling_listen_address_error : Text → ToolingConfig → Option ToolingError
get_tooling_listen_address_error addr c =
    if not (introspects c)
    then none
    else if not (should_warn_tooling_wildcard_bind addr)
    then none
    else some listen_address_refused

module _ (parse_ip : Text → Option Bool) where
  abbrev pub non_loopback : Option Bool → Text → Bool
  non_loopback (some is_loopback) host = not is_loopback
  non_loopback none host = not (is_empty host)

  abbrev pub non_loopback_host : Option (Text × Text) → Bool
  non_loopback_host none = false
  non_loopback_host (some (host, port)) =
      let h = trim_set host (lit "[]") in
      if equal_fold h (lit "localhost") then false else non_loopback (parse_ip h) h

  -- `shouldWarnToolingNonLoopbackBind`
  unfoldable pub should_warn_tooling_non_loopback_bind : Text → ToolingConfig → Bool
  should_warn_tooling_non_loopback_bind addr c =
      if not (introspects c)
      then false
      else if should_warn_tooling_wildcard_bind addr
      then false
      else non_loopback_host (split_host_port (trim_space addr))

  abbrev with_bind_warning : Bool → ToolingResult ToolingHandler → ToolingResult ToolingHandler
  with_bind_warning b (refused e) = refused e
  with_bind_warning b (done h) =
      done (record h { warnings = warning_if b tooling_bind_non_loopback ++ h.warnings })

  abbrev unless_listen_error :
      Option ToolingError → Text → Option (List Text) → ToolingConfig → ToolingResult ToolingHandler
  unless_listen_error (some e) addr services c = refused e
  unless_listen_error none addr services c =
      with_bind_warning (should_warn_tooling_non_loopback_bind addr c)
        (build_tooling_handler services c)

  -- `ListenAndServeTooling`, up to `ListenAndServe`: the handler that the address is served with.
  unfoldable pub listen_and_serve_tooling :
      Text → Option (List Text) → ToolingConfig → ToolingResult ToolingHandler
  listen_and_serve_tooling addr services c =
      unless_listen_error (get_tooling_listen_address_error addr c) addr services c
