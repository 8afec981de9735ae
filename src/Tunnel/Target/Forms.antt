-- ===== src/Tunnel/Target/Forms.antt =====
-- Which targets ParseTunnelTargetURL of pkg/grpctunnel/client.go accepts, and what it makes of them, by
-- the form of the target.
use grpc_tunnel.Prelude.{
  ◌≡◌, ◌⊎◌, ◌↔◌, inl, inr, refl, sym, ap, Bool, true, false, ◌&&◌, ◌||◌, not, Option, some, [], ◌∷◌,
  ◌++◌, if◌then◌else◌, arith, Bool-cases,
}
use grpc_tunnel.Prelude.Text.{
  Text, lit, is_empty, text_eq, text_eq_iff, trim_space, contains, has_prefix, has_prefix-split,
}
use grpc_tunnel.Http.{Url}
use grpc_tunnel.Tunnel.Target.{
  target_ok, is_web_socket, with_localhost, with_scheme, web_socket_url, parse_tunnel_target_url,
  parse_tunnel_target_url-Parses,
}

-- A target that begins neither with a websocket scheme nor with a colon.
abbrev pub IsPlainHost : Text → Type 0
IsPlainHost t =
    (has_prefix t (lit "ws://") ≡ false)
    × (has_prefix t (lit "wss://") ≡ false)
    × (has_prefix t (lit ":") ≡ false)

-- The text of the URL that a trimmed target stands for, under a TLS flag.
pub data StandsFor (use_tls : Bool) (t : Text) (text : Text) : Type 0 where
  named_ws : (rest : Text) → t ≡ lit "ws://" ++ rest → text ≡ t → StandsFor use_tls t text
  named_wss : (rest : Text) → t ≡ lit "wss://" ++ rest → text ≡ t → StandsFor use_tls t text
  port_ws :
      (port : Text)
      → use_tls ≡ false
      → t ≡ b':' ∷ port
      → text ≡ lit "ws://localhost:" ++ port
      → StandsFor use_tls t text
  port_wss :
      (port : Text)
      → use_tls ≡ true
      → t ≡ b':' ∷ port
      → text ≡ lit "wss://localhost:" ++ port
      → StandsFor use_tls t text
  host_ws : use_tls ≡ false → IsPlainHost t → text ≡ lit "ws://" ++ t → StandsFor use_tls t text
  host_wss : use_tls ≡ true → IsPlainHost t → text ≡ lit "wss://" ++ t → StandsFor use_tls t text

-- No scheme is named but a websocket scheme at the start.
abbrev pub NamesNoOther : Text → Type 0
NamesNoOther t =
    (contains t (lit "://") ≡ false)
    ⊎ ((has_prefix t (lit "ws://") ≡ true) ⊎ (has_prefix t (lit "wss://") ≡ true))

-- The code's text, by cases of what the target begins with.
scheme_of_port :
    (use_tls : Bool) (port : Text)
    → with_scheme use_tls (with_localhost (b':' ∷ port))
      ≡ (if use_tls then lit "wss://localhost:" else lit "ws://localhost:") ++ port
unfolding has_prefix
scheme_of_port true port = refl
scheme_of_port false port = refl

scheme_of_host :
    (use_tls : Bool) (t : Text)
    → IsPlainHost t
    → with_scheme use_tls (with_localhost t) ≡ (if use_tls then lit "wss://" else lit "ws://") ++ t
scheme_of_host true t (a, b, c) = rw (c, a, b) refl
scheme_of_host false t (a, b, c) = rw (c, a, b) refl

scheme_of_ws :
    (use_tls : Bool) (rest : Text)
    → with_scheme use_tls (with_localhost (lit "ws://" ++ rest)) ≡ lit "ws://" ++ rest
unfolding has_prefix
scheme_of_ws use_tls rest = refl

scheme_of_wss :
    (use_tls : Bool) (rest : Text)
    → with_scheme use_tls (with_localhost (lit "wss://" ++ rest)) ≡ lit "wss://" ++ rest
unfolding has_prefix
scheme_of_wss use_tls rest = refl

StandsFor-scheme :
    (use_tls : Bool) (t text : Text)
    → StandsFor use_tls t text
    → with_scheme use_tls (with_localhost t) ≡ text
StandsFor-scheme use_tls t text (named_ws rest e f) = rw (f, e) (scheme_of_ws use_tls rest)
StandsFor-scheme use_tls t text (named_wss rest e f) = rw (f, e) (scheme_of_wss use_tls rest)
StandsFor-scheme use_tls t text (port_ws port b e f) = rw (f, e, b) (scheme_of_port false port)
StandsFor-scheme use_tls t text (port_wss port b e f) = rw (f, e, b) (scheme_of_port true port)
StandsFor-scheme use_tls t text (host_ws b p f) = rw (f, b) (scheme_of_host false t p)
StandsFor-scheme use_tls t text (host_wss b p f) = rw (f, b) (scheme_of_host true t p)

host-StandsFor :
    (use_tls : Bool) (t : Text)
    → IsPlainHost t
    → StandsFor use_tls t (with_scheme use_tls (with_localhost t))
host-StandsFor true t p = host_wss refl p (scheme_of_host true t p)
host-StandsFor false t p = host_ws refl p (scheme_of_host false t p)

port-StandsFor :
    (use_tls : Bool) (t port : Text)
    → t ≡ b':' ∷ port
    → StandsFor use_tls t (with_scheme use_tls (with_localhost t))
port-StandsFor true t port e = port_wss port refl e (rw e (scheme_of_port true port))
port-StandsFor false t port e = port_ws port refl e (rw e (scheme_of_port false port))

scheme-StandsFor :
    (use_tls : Bool) (t : Text) → StandsFor use_tls t (with_scheme use_tls (with_localhost t))
scheme-StandsFor use_tls t = elim (Bool-cases (has_prefix t (lit "ws://"))) [
  | inl ws ↦
      let (rest, e) = has_prefix-split t (lit "ws://") ws in
      named_ws rest e (rw e (scheme_of_ws use_tls rest))
  | inr no_ws ↦ elim (Bool-cases (has_prefix t (lit "wss://"))) [
    | inl wss ↦
        let (rest, e) = has_prefix-split t (lit "wss://") wss in
        named_wss rest e (rw e (scheme_of_wss use_tls rest))
    | inr no_wss ↦ elim (Bool-cases (has_prefix t (lit ":"))) [
      | inl colon ↦
          let (port, e) = has_prefix-split t (lit ":") colon in port-StandsFor use_tls t port e
      | inr no_colon ↦ host-StandsFor use_tls t (no_ws, no_wss, no_colon)
    ]
  ]
]

or_schemes : (a b : Bool) → (a || b) ≡ true → (a ≡ true) ⊎ (b ≡ true)
or_schemes true b h = inl refl
or_schemes false b h = inr h

second_holds : (a b : Bool) → b ≡ true → (a || b) ≡ true
second_holds true b h = refl
second_holds false b h = h

web_socket_schemes :
    (u : Url) → (web_socket_url u ≡ true) ↔ ((u.scheme ≡ lit "ws") ⊎ (u.scheme ≡ lit "wss"))
web_socket_schemes u = (
  λ h. elim (or_schemes (text_eq u.scheme (lit "ws")) (text_eq u.scheme (lit "wss")) h) [
    | inl a ↦ inl ((text_eq_iff u.scheme (lit "ws")).0 a)
    | inr b ↦ inr ((text_eq_iff u.scheme (lit "wss")).0 b)
  ],
  λ s. elim s [
    | inl a ↦ rw ((text_eq_iff u.scheme (lit "ws")).1 a) refl
    | inr b ↦ second_holds (text_eq u.scheme (lit "ws")) _ ((text_eq_iff u.scheme (lit "wss")).1 b)
  ],
)

filled : (t : Text) → (is_empty t ≡ false) ↔ ((t ≡ []) → ⊥)
filled [] = (λ h. absurd (ground arith), λ n. absurd (n refl))
filled (c ∷ t) = (λ h e. ground arith, λ n. refl)

names_no_other :
    (t : Text) → (contains t (lit "://") ≡ false) ⊎ (is_web_socket t ≡ true) → NamesNoOther t
names_no_other t (inl h) = inl h
names_no_other t (inr h) =
    inr (or_schemes (has_prefix t (lit "ws://")) (has_prefix t (lit "wss://")) h)

no_other_scheme :
    (named ws wss : Bool)
    → (named ≡ false) ⊎ ((ws ≡ true) ⊎ (wss ≡ true))
    → (named && not (ws || wss)) ≡ false
no_other_scheme false ws wss h = refl
no_other_scheme true ws wss (inl h) = absurd (ground arith)
no_other_scheme true true wss (inr h) = refl
no_other_scheme true false wss (inr (inl h)) = absurd (ground arith)
no_other_scheme true false wss (inr (inr h)) = rw h refl

module _ (parse_url : Text → Option Url) (url_string : Url → Text) where
  -- What an accepted target has to be: not blank, without a scheme but ws and wss, and standing for a
  -- text that parses to a websocket URL with a host, whose printed form is the result.
  pub record IsAccepted (use_tls : Bool) (t s : Text) : Type 0 where
    pub given : (t ≡ []) → ⊥
    pub scheme_ok : NamesNoOther t
    pub text : Text
    pub stands : StandsFor use_tls t text
    pub url : Url
    pub parsed : parse_url text ≡ some url
    pub scheme : (url.scheme ≡ lit "ws") ⊎ (url.scheme ≡ lit "wss")
    pub host : (url.host ≡ []) → ⊥
    pub printed : s ≡ url_string url

  target_ok-IsAccepted :
      (target : Text) (use_tls : Bool) (s : Text)
      → parse_tunnel_target_url parse_url url_string target use_tls ≡ target_ok s
      → IsAccepted use_tls (trim_space target) s
  target_ok-IsAccepted target use_tls s h =
      let (given, named, (u, p, e)) =
        parse_tunnel_target_url-Parses parse_url url_string target use_tls s h in
      record {
        given = (filled (trim_space target)).0 given;
        scheme_ok = names_no_other (trim_space target) named;
        text = with_scheme use_tls (with_localhost (trim_space target));
        stands = scheme-StandsFor use_tls (trim_space target);
        url = u;
        parsed = p.parsed;
        scheme = (web_socket_schemes u).0 p.scheme;
        host = (filled u.host).0 p.host;
        printed = e;
      }

  IsAccepted-target_ok :
      (target : Text) (use_tls : Bool) (s : Text)
      → IsAccepted use_tls (trim_space target) s
      → parse_tunnel_target_url parse_url url_string target use_tls ≡ target_ok s
  unfolding parse_tunnel_target_url
  IsAccepted-target_ok target use_tls s a =
      rw
        (
          (filled (trim_space target)).1 a.given,
          no_other_scheme (contains (trim_space target) (lit "://"))
              (has_prefix (trim_space target) (lit "ws://"))
              (has_prefix (trim_space target) (lit "wss://")) a.scheme_ok,
          StandsFor-scheme use_tls (trim_space target) a.text a.stands,
          a.parsed,
          (web_socket_schemes a.url).1 a.scheme,
          (filled a.url.host).1 a.host,
        )
        (ap target_ok (sym a.printed))

  -- A target is accepted, with s as the URL to dial, exactly if, trimmed, it is not blank, holds no ://
  -- unless it begins with ws:// or wss://, and stands for a text that parses to a URL with the scheme ws
  -- or wss and a host, of which s is the printed form. A target that begins with ws:// or wss:// stands
  -- for itself; before a bare :port goes localhost, and before either and before a plain host goes
  -- wss:// under the TLS flag and ws:// without.
  pub parse_tunnel_target_url-IsAccepted :
      (target : Text) (use_tls : Bool) (s : Text)
      → (parse_tunnel_target_url parse_url url_string target use_tls ≡ target_ok s)
        ↔ IsAccepted use_tls (trim_space target) s
  parse_tunnel_target_url-IsAccepted target use_tls s =
      (target_ok-IsAccepted target use_tls s, IsAccepted-target_ok target use_tls s)
