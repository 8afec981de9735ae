-- ===== src/Tunnel/Target.antt =====
-- The targets of the client of pkg/grpctunnel, outside the browser: ParseTunnelTargetURL and
-- inferWebSocketURL of client.go, buildTunnelGRPCDialTarget of api.go. Go's URL parser and printer
-- are parameters: `parse_url` is `url.Parse`, with `none` for an error, `url_string` is
-- `URL.String`.
pub mod Dialled
pub mod Forms
use grpc_tunnel.Prelude.{
  ℕ, ◌≡◌, ◌⊎◌, inl, inr, refl, ap, subst, ◌∙◌, sym, Bool, true, false, ◌&&◌, ◌||◌, not, Option,
  none, some, List, [], ◌∷◌, ◌++◌, if◌then◌else◌, arith, Bool-cases, Option-cases, if_rule,
}
use grpc_tunnel.Prelude.Text.{Text, lit, is_empty, text_eq, trim_space, contains, has_prefix}
use grpc_tunnel.Http.{Url}

pub data TunnelTargetError : Type 0 where
  target_required target_invalid scheme_unsupported host_required : TunnelTargetError

pub data Target : Type 0 where
  target_ok : Text → Target
  target_err : TunnelTargetError → Target

-- Whether a target names one of the two websocket schemes.
abbrev pub is_web_socket : Text → Bool
is_web_socket t = has_prefix t (lit "ws://") || has_prefix t (lit "wss://")

abbrev pub with_localhost : Text → Text
with_localhost t = if has_prefix t (lit ":") then lit "localhost" ++ t else t

abbrev pub scheme_for : Bool → Text
scheme_for use_tls = if use_tls then lit "wss" else lit "ws"

abbrev pub with_scheme : Bool → Text → Text
with_scheme use_tls t = if is_web_socket t then t else scheme_for use_tls ++ lit "://" ++ t

abbrev pub web_socket_url : Url → Bool
web_socket_url u = text_eq u.scheme (lit "ws") || text_eq u.scheme (lit "wss")

module _ (parse_url : Text → Option Url) (url_string : Url → Text) where
  abbrev pub checked : Option Url → Target
  checked none = target_err target_invalid
  checked (some u) =
      if not (web_socket_url u)
      then target_err scheme_unsupported
      else if is_empty u.host
      then target_err host_required
      else target_ok (url_string u)

  abbrev refused_scheme : Option Url → Target
  refused_scheme none = target_err target_invalid
  refused_scheme (some u) = target_err scheme_unsupported

  abbrev trimmed_target : Text → Bool → Target
  trimmed_target t use_tls =
      if is_empty t
      then target_err target_required
      else if contains t (lit "://") && not (is_web_socket t)
      then refused_scheme (parse_url t)
      else checked (parse_url (with_scheme use_tls (with_localhost t)))

  -- `ParseTunnelTargetURL` of client.go
  unfoldable pub parse_tunnel_target_url : Text → Bool → Target
  parse_tunnel_target_url target use_tls = trimmed_target (trim_space target) use_tls

  abbrev or_target : Target → Text → Text
  or_target (target_ok t) d = t
  or_target (target_err e) d = d

  -- `inferWebSocketURL`
  unfoldable pub infer_web_socket_url : Text → Bool → Text
  infer_web_socket_url target use_tls = or_target (parse_tunnel_target_url target use_tls) target

  abbrev dial_host : Option Url → Text → Text
  dial_host none t = t
  dial_host (some u) t = if web_socket_url u && not (is_empty u.host) then u.host else t

  -- `buildTunnelGRPCDialTarget`
  unfoldable pub build_tunnel_grpc_dial_target : Text → Text → Text
  build_tunnel_grpc_dial_target target tunnel_url =
      let t = trim_space target in if is_empty t then tunnel_url else dial_host (parse_url t) t

  -- A websocket URL with a host, parsed from `t`.
  pub record Parses (t : Text) (u : Url) : Type 0 where
    pub parsed : parse_url t ≡ some u
    pub scheme : web_socket_url u ≡ true
    pub host : is_empty u.host ≡ false

  checked-Parses :
      (t : Text) (o : Option Url) (s : Text)
      → parse_url t ≡ o
      → checked o ≡ target_ok s
      → (u : Url) × Parses t u × (s ≡ url_string u)
  checked-Parses t none s p h = cc
  checked-Parses t (some u) s p h =
      (u, record { parsed = p; scheme = ground arith; host = ground arith }, ground arith)

  refused_scheme-never : (o : Option Url) (s : Text) → refused_scheme o ≡ target_ok s → true ≡ false
  refused_scheme-never none s h = cc
  refused_scheme-never (some u) s h = cc

  -- A target that is accepted is not blank, and names no scheme but `ws` or `wss`. What comes out is
  -- the printed form of a websocket URL with a host, parsed from the target: as it stands if it
  -- names its scheme, and else with `localhost` before a bare port and the scheme of the TLS flag.
  pub parse_tunnel_target_url-Parses :
      (target : Text) (use_tls : Bool) (s : Text)
      → parse_tunnel_target_url target use_tls ≡ target_ok s
      → let t = trim_space target in
        (is_empty t ≡ false)
        × ((contains t (lit "://") ≡ false) ⊎ (is_web_socket t ≡ true))
        × ((u : Url) × Parses (with_scheme use_tls (with_localhost t)) u × (s ≡ url_string u))
  unfolding parse_tunnel_target_url
  parse_tunnel_target_url-Parses target use_tls s h =
      let t = trim_space target in
      let given : is_empty t ≡ false = ground arith in
      let scheme : (contains t (lit "://") && not (is_web_socket t)) ≡ false =
        ground (arith, refused_scheme-never (parse_url t) s) in
      let reached : checked (parse_url (with_scheme use_tls (with_localhost t))) ≡ target_ok s =
        ground arith in
      (
        given,
        ground arith,
        checked-Parses (with_scheme use_tls (with_localhost t))
            (parse_url (with_scheme use_tls (with_localhost t))) s refl reached,
      )
