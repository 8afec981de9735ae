-- ===== src/Tunnel/Browser/Inferred.antt =====
-- What inferBrowserWebSocketURL of pkg/grpctunnel/client_wasm.go makes of every target.
use grpc_tunnel.Prelude.{
  ℕ, ◌≡◌, refl, sym, subst, Bool, true, false, Option, none, some, [], ◌∷◌, ◌++◌, arith, if_rule,
  if◌then◌else◌,
}
use grpc_tunnel.Prelude.Text.{
  Text, lit, is_empty, text_eq, has_prefix, trim_space, trim_left, trim_right, trim_cons, is_space,
}
use grpc_tunnel.Tunnel.Target.{is_web_socket}
use grpc_tunnel.Tunnel.Browser.{
  Location, page_scheme, infer_browser_web_socket_url, parse_browser_target_url, url, url_refused,
  tls_flag_unsupported, inferred_at,
}

IsWebSocket : Text → Type 0
IsWebSocket t = is_web_socket t ≡ true

page_scheme-IsWebSocket :
    (l : Location) (rest : Text) → IsWebSocket (page_scheme l ++ (lit "://" ++ rest))
unfolding IsWebSocket has_prefix
page_scheme-IsWebSocket l rest =
    if_rule (λ s. IsWebSocket (s ++ (lit "://" ++ rest))) (text_eq l.protocol (lit "https:"))
      (lit "wss") (lit "ws") (λ y. refl) (λ n. refl)

inferred_at-IsWebSocket : (l : Option Location) (t : Text) → IsWebSocket (inferred_at l t)
unfolding IsWebSocket has_prefix
inferred_at-IsWebSocket none t =
    if_rule IsWebSocket (is_empty t) (lit "ws://localhost:8080") (lit "ws://" ++ t) (λ y. refl)
      (λ n. refl)
inferred_at-IsWebSocket (some l) t =
    if_rule IsWebSocket (is_empty t) (page_scheme l ++ (lit "://" ++ l.host))
      (if has_prefix t (lit "/")
        then page_scheme l ++ (lit "://" ++ (l.host ++ t))
        else page_scheme l ++ (lit "://" ++ t))
      (λ y. page_scheme-IsWebSocket l l.host)
      (λ n.
        if_rule IsWebSocket (has_prefix t (lit "/")) (page_scheme l ++ (lit "://" ++ (l.host ++ t)))
          (page_scheme l ++ (lit "://" ++ t)) (λ y. page_scheme-IsWebSocket l (l.host ++ t))
          (λ m. page_scheme-IsWebSocket l t))

-- Whatever the page's location, if there is one, and whatever the target, the inferred URL names one
-- of the two websocket schemes.
pub infer_browser_web_socket_url-IsWebSocket :
    (l : Option Location) (t : Text) → is_web_socket (infer_browser_web_socket_url l t) ≡ true
unfolding infer_browser_web_socket_url IsWebSocket
infer_browser_web_socket_url-IsWebSocket l t = ground (arith, inferred_at-IsWebSocket l t)

trim_cons_nonempty : (c : ℕ) (s : Text) → is_space c ≡ false → is_empty (trim_cons c s) ≡ false
trim_cons_nonempty c [] h = ground arith
trim_cons_nonempty c (d ∷ s) h = refl

web_socket_not_blank : (t : Text) → is_web_socket t ≡ true → is_empty (trim_space t) ≡ false
unfolding has_prefix trim_space trim_left trim_right is_space
web_socket_not_blank [] h = cc
web_socket_not_blank (c ∷ t) h =
    let w : c ≡ 119 = ground arith in
    subst (λ d. is_empty (trim_space (d ∷ t)) ≡ false) (sym w)
      (trim_cons_nonempty 119 (trim_right t) refl)

-- A target is refused only for the TLS flag: the inferred URL is never blank, and is what comes out.
pub parse_browser_target_url-infers :
    (l : Option Location) (t : Text) (use_tls : Bool)
    → parse_browser_target_url l t use_tls ≡ (
        if use_tls
        then url_refused tls_flag_unsupported
        else url (infer_browser_web_socket_url l t))
unfolding parse_browser_target_url
parse_browser_target_url-infers l t use_tls = rw (
    web_socket_not_blank (infer_browser_web_socket_url l t)
      (infer_browser_web_socket_url-IsWebSocket l t))
