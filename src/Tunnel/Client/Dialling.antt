-- ===== src/Tunnel/Client/Dialling.antt =====
-- When BuildTunnelConn of pkg/grpctunnel/client.go dials, and with what.
use grpc_tunnel.Prelude.{
  ◌≡◌, refl, ap, subst, sym, ◌∙◌, Bool, true, false, Option, none, some, List, [], ◌∷◌, ◌++◌, arith,
  is_none, length, if◌then◌else◌,
}
use grpc_tunnel.Prelude.Text.{Text, trim_space}
use grpc_tunnel.Http.{Url}
use grpc_tunnel.Tunnel.Reconnect.{
  ReconnectConfig, ReconnectError, Backoff, Policy, policy, policy_refused,
  get_reconnect_config_error, apply_tunnel_reconnect_policy, unless_reconnect_error,
  connect_params_of,
}
use grpc_tunnel.Tunnel.Target.{
  Target, target_ok, target_err, parse_tunnel_target_url, parse_tunnel_target_url-Parses,
  with_scheme, with_localhost, build_tunnel_grpc_dial_target,
}
use grpc_tunnel.Tunnel.Target.Dialled.{UrlLaws}
use grpc_tunnel.Tunnel.Client.{
  TunnelConfig, TunnelError, reconnect_config_error, get_tunnel_config_error_without_target,
  Dialled, Conn, dialled, conn_refused, build_tunnel_dialer, with_context_dialer, DialOption,
  build_tunnel_target_url, error_of_target, unless_some, get_tunnel_config_error, with_options,
  with_policy, with_reconnect, with_tunnel_url, unless_refused, build_tunnel_conn, call_with,
  with_connect_params, printed_url, uses_tls,
}

abbrev pub is_dialled : Conn → Bool
is_dialled (dialled d) = true
is_dialled (conn_refused e) = false

module _ (canonical : Text → Text) (parse_url : Text → Option Url) (url_string : Url → Text)
    (grpc_backoff : Backoff) where
  policy_dialled :
      (c : TunnelConfig) (url : Text) (r : ReconnectConfig) (e : Option ReconnectError)
      → is_dialled (
          with_policy canonical parse_url url_string grpc_backoff c url
            (unless_reconnect_error e (connect_params_of grpc_backoff r)))
        ≡ is_none e
  policy_dialled c url r none = refl
  policy_dialled c url r (some e) = refl

  reconnect_valid :
      (r : ReconnectConfig)
      → reconnect_config_error (some r) ≡ none
      → get_reconnect_config_error r ≡ none
  reconnect_valid r h = ground arith

  without_target_dialled :
      (c : TunnelConfig) (url : Text) (o : Option ReconnectConfig)
      → reconnect_config_error o ≡ none
      → is_dialled (with_reconnect canonical parse_url url_string grpc_backoff c url o) ≡ true
  unfolding apply_tunnel_reconnect_policy
  without_target_dialled c url none h = refl
  without_target_dialled c url (some r) h =
      policy_dialled c url r (get_reconnect_config_error r) ∙ ap is_none (reconnect_valid r h)

  target_dialled :
      (c : TunnelConfig) (t : Target)
      → reconnect_config_error c.reconnect_config ≡ none
      → is_dialled (with_tunnel_url canonical parse_url url_string grpc_backoff c t)
        ≡ is_none (error_of_target canonical parse_url url_string grpc_backoff t)
  target_dialled c (target_ok url) h = without_target_dialled c url c.reconnect_config h
  target_dialled c (target_err e) h = refl

  unless_dialled :
      (c : TunnelConfig) (e : Option TunnelError)
      → get_tunnel_config_error_without_target c ≡ e
      → is_dialled (unless_refused canonical parse_url url_string grpc_backoff e c)
        ≡ is_none (
            unless_some canonical parse_url url_string grpc_backoff e (
              error_of_target canonical parse_url url_string grpc_backoff
                (build_tunnel_target_url canonical parse_url url_string grpc_backoff c)))
  unfolding get_tunnel_config_error_without_target
  unless_dialled c (some e) h = refl
  unless_dialled c none h =
      target_dialled c (build_tunnel_target_url canonical parse_url url_string grpc_backoff c)
        (ground arith)

  -- `build_tunnel_conn` comes to dial exactly the configurations that `get_tunnel_config_error`
  -- accepts.
  pub build_tunnel_conn-dials :
      (c : TunnelConfig)
      → is_dialled (build_tunnel_conn canonical parse_url url_string grpc_backoff c)
        ≡ is_none (get_tunnel_config_error canonical parse_url url_string grpc_backoff c)
  unfolding build_tunnel_conn get_tunnel_config_error
  build_tunnel_conn-dials c = unless_dialled c (get_tunnel_config_error_without_target c) refl

  -- What a configuration is dialled with: the caller's gRPC options, in order, and then a dialer of
  -- the URL that its target gives; only the reconnect policy, if there is one, comes before them.
  pub record DialsAs (c : TunnelConfig) (d : Dialled) (s : Text) (before : List DialOption)
      : Type 0 where
    pub target_accepted :
        parse_tunnel_target_url parse_url url_string c.target (uses_tls c) ≡ target_ok s
    pub dial_target : d.dial_target ≡ build_tunnel_grpc_dial_target parse_url url_string c.target s
    pub in_order :
        d.options
        ≡ before
          ++ (c.grpc_options
              ++ with_context_dialer
                  (build_tunnel_dialer canonical parse_url url_string grpc_backoff c s)
                ∷ [])
    pub policy_first : length before ≡ (if is_none c.reconnect_config then 0 else 1)

  dialled-injective : (d e : Dialled) → dialled d ≡ dialled e → d ≡ e
  dialled-injective d e h = cc

  with_options-DialsAs :
      (c : TunnelConfig) (d : Dialled) (s : Text) (before : List DialOption)
      → parse_tunnel_target_url parse_url url_string c.target (uses_tls c) ≡ target_ok s
      → length before ≡ (if is_none c.reconnect_config then 0 else 1)
      → with_options canonical parse_url url_string grpc_backoff c s before ≡ dialled d
      → DialsAs c d s before
  with_options-DialsAs c d s before t l h =
      subst (λ e. DialsAs c e s before)
        (dialled-injective (call_with canonical parse_url url_string grpc_backoff c s before) d h)
        record { target_accepted = t; dial_target = refl; in_order = refl; policy_first = l }

  with_policy-DialsAs :
      (c : TunnelConfig) (d : Dialled) (s : Text) (p : Policy)
      → parse_tunnel_target_url parse_url url_string c.target (uses_tls c) ≡ target_ok s
      → is_none c.reconnect_config ≡ false
      → with_policy canonical parse_url url_string grpc_backoff c s p ≡ dialled d
      → (before : List DialOption) × DialsAs c d s before
  with_policy-DialsAs c d s (policy p) t l h = (
    with_connect_params p ∷ [],
    with_options-DialsAs c d s (with_connect_params p ∷ []) t (ground arith) h,
  )
  with_policy-DialsAs c d s (policy_refused e) t l h = cc

  with_reconnect-DialsAs :
      (c : TunnelConfig) (d : Dialled) (s : Text) (o : Option ReconnectConfig)
      → parse_tunnel_target_url parse_url url_string c.target (uses_tls c) ≡ target_ok s
      → c.reconnect_config ≡ o
      → with_reconnect canonical parse_url url_string grpc_backoff c s o ≡ dialled d
      → (before : List DialOption) × DialsAs c d s before
  with_reconnect-DialsAs c d s none t o h = ([], with_options-DialsAs c d s [] t (ground arith) h)
  with_reconnect-DialsAs c d s (some r) t o h =
      with_policy-DialsAs c d s (apply_tunnel_reconnect_policy grpc_backoff r) t (ground arith) h

  with_tunnel_url-DialsAs :
      (c : TunnelConfig) (d : Dialled) (t : Target)
      → parse_tunnel_target_url parse_url url_string c.target (uses_tls c) ≡ t
      → with_tunnel_url canonical parse_url url_string grpc_backoff c t ≡ dialled d
      → (s : Text) × (before : List DialOption) × DialsAs c d s before
  with_tunnel_url-DialsAs c d (target_err e) p h = cc
  with_tunnel_url-DialsAs c d (target_ok s) p h =
      let (before, dials) = with_reconnect-DialsAs c d s c.reconnect_config p refl h in
      (s, before, dials)

  unless_refused-DialsAs :
      (c : TunnelConfig) (d : Dialled) (e : Option TunnelError)
      → unless_refused canonical parse_url url_string grpc_backoff e c ≡ dialled d
      → (s : Text) × (before : List DialOption) × DialsAs c d s before
  unless_refused-DialsAs c d (some e) h = cc
  unless_refused-DialsAs c d none h =
      with_tunnel_url-DialsAs c d
        (build_tunnel_target_url canonical parse_url url_string grpc_backoff c) refl h

  -- Whatever `build_tunnel_conn` dials, it dials with the URL that the configuration's target gives
  -- under the configuration's TLS setting, with the caller's gRPC options in their order, after the
  -- reconnect policy, if one is configured, and before the tunnel's dialer.
  pub build_tunnel_conn-DialsAs :
      (c : TunnelConfig) (d : Dialled)
      → build_tunnel_conn canonical parse_url url_string grpc_backoff c ≡ dialled d
      → (s : Text) × (before : List DialOption) × DialsAs c d s before
  unfolding build_tunnel_conn
  build_tunnel_conn-DialsAs c d h =
      unless_refused-DialsAs c d (get_tunnel_config_error_without_target c) h

  -- If the URL library parses what it prints, the tunnel's dialer dials exactly the URL that the
  -- target was normalised to, and never is one that only fails.
  pub build_tunnel_dialer-dial_url :
      UrlLaws parse_url url_string
      → (c : TunnelConfig) (s : Text)
      → parse_tunnel_target_url parse_url url_string c.target (uses_tls c) ≡ target_ok s
      → (build_tunnel_dialer canonical parse_url url_string grpc_backoff c s).dial_url ≡ some s
  unfolding build_tunnel_dialer
  build_tunnel_dialer-dial_url laws c s h =
      let (u, p, e) =
        (parse_tunnel_target_url-Parses parse_url url_string c.target (uses_tls c) s h).2 in
      let t = with_scheme (uses_tls c) (with_localhost (trim_space c.target)) in
      let reparsed : parse_url s ≡ some u = ap parse_url e ∙ laws.reparsed t u p in
      ap (printed_url canonical parse_url url_string grpc_backoff) reparsed ∙ ap some (sym e)
