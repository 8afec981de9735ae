-- ===== src/Tunnel/Target/Dialled.antt =====
-- What becomes of a target that ParseTunnelTargetURL of pkg/grpctunnel/client.go accepts: the URL
-- that is dialled, and the name that gRPC is given.
use grpc_tunnel.Prelude.{
  ◌≡◌, refl, ap, subst, ◌∙◌, sym, Bool, true, false, ◌&&◌, Option, some, [], ◌∷◌, arith,
}
use grpc_tunnel.Prelude.Text.{Text, lit, is_empty, trim_space, contains, has_prefix}
use grpc_tunnel.Http.{Url}
use grpc_tunnel.Tunnel.Target.{
  target_ok, Parses, is_web_socket, with_localhost, with_scheme, parse_tunnel_target_url,
  parse_tunnel_target_url-Parses, build_tunnel_grpc_dial_target,
}

-- What `url.Parse` and `URL.String` promise of a websocket URL with a host: it is printed with its
-- scheme first and without spaces around it, and the printed form parses to it.
pub record UrlLaws (parse_url : Text → Option Url) (url_string : Url → Text) : Type 0 where
  pub reparsed :
      (t : Text) (u : Url) → Parses parse_url url_string t u → parse_url (url_string u) ≡ some u
  pub printed :
      (t : Text) (u : Url) → Parses parse_url url_string t u → is_web_socket (url_string u) ≡ true
  pub trimmed :
      (t : Text) (u : Url)
      → Parses parse_url url_string t u
      → trim_space (url_string u) ≡ url_string u

web_socket_kept :
    (use_tls : Bool) (t : Text)
    → is_web_socket t ≡ true
    → (is_empty t ≡ false) × (with_scheme use_tls (with_localhost t) ≡ t)
unfolding has_prefix
web_socket_kept use_tls [] h = cc
web_socket_kept use_tls (c ∷ t) h = (refl, ground arith)

and_false : (b : Bool) → (b && false) ≡ false
and_false true = refl
and_false false = refl

module _ (parse_url : Text → Option Url) (url_string : Url → Text)
    (laws : UrlLaws parse_url url_string) where
  printed-accepted :
      (use_tls : Bool) (t : Text) (u : Url)
      → Parses parse_url url_string t u
      → parse_tunnel_target_url parse_url url_string (url_string u) use_tls
        ≡ target_ok (url_string u)
  unfolding parse_tunnel_target_url
  printed-accepted use_tls t u p =
      let kept = web_socket_kept use_tls (url_string u) (laws.printed t u p) in
      rw (
        laws.trimmed t u p,
        kept.0,
        kept.1,
        laws.printed t u p,
        and_false (contains (url_string u) (lit "://")),
        laws.reparsed t u p,
        p.scheme,
        p.host,
      )

  -- What is accepted once is accepted again, under either TLS flag, and left as it is: the URL that
  -- the dialer parses is the one that the validation printed.
  pub parse_tunnel_target_url-again :
      (target : Text) (use_tls use_tls' : Bool) (s : Text)
      → parse_tunnel_target_url parse_url url_string target use_tls ≡ target_ok s
      → parse_tunnel_target_url parse_url url_string s use_tls' ≡ target_ok s
  parse_tunnel_target_url-again target use_tls use_tls' s h =
      let (u, p, e) = (parse_tunnel_target_url-Parses parse_url url_string target use_tls s h).2 in
      subst (λ x. parse_tunnel_target_url parse_url url_string x use_tls' ≡ target_ok x) (sym e)
        (printed-accepted use_tls' (with_scheme use_tls (with_localhost (trim_space target))) u p)

  -- gRPC is told to connect to the host of the URL that is dialled, whenever it is given an accepted
  -- target in its printed form.
  pub build_tunnel_grpc_dial_target-host :
      (target tunnel_url : Text) (use_tls : Bool) (s : Text)
      → parse_tunnel_target_url parse_url url_string target use_tls ≡ target_ok s
      → (u : Url) × (parse_url s ≡ some u)
        × (is_empty u.host ≡ false)
        × (build_tunnel_grpc_dial_target parse_url url_string s tunnel_url ≡ u.host)
  unfolding build_tunnel_grpc_dial_target
  build_tunnel_grpc_dial_target-host target tunnel_url use_tls s h =
      let (u, p, e) = (parse_tunnel_target_url-Parses parse_url url_string target use_tls s h).2 in
      let t = with_scheme use_tls (with_localhost (trim_space target)) in
      let parses : parse_url s ≡ some u = ap parse_url e ∙ laws.reparsed t u p in
      let kept = web_socket_kept use_tls (url_string u) (laws.printed t u p) in
      let named : build_tunnel_grpc_dial_target parse_url url_string (url_string u) tunnel_url
          ≡ u.host =
        rw (laws.trimmed t u p, kept.0, laws.reparsed t u p, p.scheme, p.host) in
      (
        u,
        parses,
        p.host,
        ap (λ x. build_tunnel_grpc_dial_target parse_url url_string x tunnel_url) e ∙ named,
      )
