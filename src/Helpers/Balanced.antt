-- ===== src/Helpers/Balanced.antt =====
-- What a request to the handlers of examples/_shared/helpers takes and gives back, and when it is served.
use grpc_tunnel.Prelude.{
  ◌≡◌, refl, subst, Bool, true, false, ◌&&◌, not, Option, none, some, List, [], ◌∷◌, ◌++◌,
  Bool-cases, inl, inr,
}
use grpc_tunnel.Prelude.Trace.{Change, takes, gives, keeps, balance, count, once}
use grpc_tunnel.Prelude.Text.{Text, lit, is_empty}
use grpc_tunnel.Http.{Url}
use grpc_tunnel.Helpers.{
  HelperConfig, ProxyTarget, proxy_refused, proxy_target, with_proxy_host, parse_proxy_target_url,
  with_proxy_target, new_helper_handler, with_buffer_defaults, HelperEffect, socket_upgraded,
  socket_closed, connect_called, disconnect_called, adapter_made, adapter_served, adapter_closed,
  serve_upgraded, serve_helper, serve_handler,
}

pub data Taken : Type 0 where
  socket : Taken
  adapter : Taken

abbrev pub same_taken : Taken → Taken → Bool
same_taken socket socket = true
same_taken adapter adapter = true
same_taken a b = false

abbrev pub taken_change : HelperEffect → Change Taken
taken_change socket_upgraded = takes socket
taken_change socket_closed = gives socket
taken_change adapter_made = takes adapter
taken_change adapter_closed = gives adapter
taken_change e = keeps

abbrev pub is_served : HelperEffect → Bool
is_served adapter_served = true
is_served e = false

abbrev pub is_connect : HelperEffect → Bool
is_connect connect_called = true
is_connect e = false

abbrev pub is_disconnect : HelperEffect → Bool
is_disconnect disconnect_called = true
is_disconnect e = false

-- A trace that gives back what it took, the last taken first, and that serves and calls the hooks that
-- are set once if `served`, and else never.
abbrev pub ServesIf : Bool → HelperConfig → List HelperEffect → Type 0
ServesIf served c es =
    (balance same_taken taken_change es [] ≡ some [])
    × (count is_served es ≡ once served)
    × (count is_connect es ≡ once (served && c.has_on_connect))
    × (count is_disconnect es ≡ once (served && c.has_on_disconnect))

serve_upgraded-ServesIf : (c : HelperConfig) → ServesIf true c (serve_upgraded c)
serve_upgraded-ServesIf c = elim (Bool-cases c.has_on_connect) [
  | inl con ↦ elim (Bool-cases c.has_on_disconnect) [
    | inl dis ↦ rw (con, dis) (refl, refl, refl, refl)
    | inr dis ↦ rw (con, dis) (refl, refl, refl, refl)
  ]
  | inr con ↦ elim (Bool-cases c.has_on_disconnect) [
    | inl dis ↦ rw (con, dis) (refl, refl, refl, refl)
    | inr dis ↦ rw (con, dis) (refl, refl, refl, refl)
  ]
]

-- Whether a parsed URL names a host.
abbrev pub names_host : Option Url → Bool
names_host none = false
names_host (some u) = not (is_empty u.host)

abbrev accepts : ProxyTarget → Bool
accepts (proxy_refused e) = false
accepts (proxy_target u) = true

host_accepted : (u : Option Url) → accepts (with_proxy_host u) ≡ names_host u
host_accepted none = refl
host_accepted (some u) = elim (Bool-cases (is_empty u.host)) [
  | inl h ↦ rw h refl
  | inr h ↦ rw h refl
]

target_accepted :
    (parse_url : Text → Option Url) (address : Text)
    → accepts (parse_proxy_target_url parse_url address)
      ≡ (not (is_empty address) && names_host (parse_url (lit "http://" ++ address)))
unfolding parse_proxy_target_url
target_accepted parse_url [] = refl
target_accepted parse_url (a ∷ address) = host_accepted (parse_url (lit "http://" ++ a ∷ address))

serve_handler-ServesIf :
    (c : HelperConfig) (upgrades : Bool) → ServesIf upgrades c (serve_handler c upgrades)
unfolding serve_handler
serve_handler-ServesIf c true = serve_upgraded-ServesIf c
serve_handler-ServesIf c false = (refl, refl, refl, refl)

serve_helper-ServesIf :
    (parse_ip : Text → Option Bool) (c : HelperConfig) (upgrades : Bool) (t : ProxyTarget)
    → ServesIf
        (accepts t && upgrades)
        c
        (serve_helper (with_proxy_target parse_ip (with_buffer_defaults c) t).0 upgrades)
unfolding serve_helper with_buffer_defaults
serve_helper-ServesIf parse_ip c upgrades (proxy_refused e) = (refl, refl, refl, refl)
serve_helper-ServesIf parse_ip c true (proxy_target u) = serve_upgraded-ServesIf c
serve_helper-ServesIf parse_ip c false (proxy_target u) = (refl, refl, refl, refl)

-- A request to the handler that NewHandler of the helpers makes gives back the socket and the adapter
-- that it took, the last taken first; it is served, and the hooks that are set are called, once each
-- exactly if the target address is not empty, parses to a URL with a host, and the upgrade succeeds.
-- The same holds of ServeHandler's handler, of the upgrade alone.
pub handlers-ServesIf :
    (parse_url : Text → Option Url) (parse_ip : Text → Option Bool) (c : HelperConfig)
    (upgrades : Bool)
    → ServesIf
        ((not (is_empty c.target_address)
            && names_host (parse_url (lit "http://" ++ c.target_address)))
          && upgrades)
        c
        (serve_helper (new_helper_handler parse_url parse_ip c).0 upgrades)
      × ServesIf upgrades c (serve_handler c upgrades)
unfolding new_helper_handler
handlers-ServesIf parse_url parse_ip c upgrades = (
  subst
      (λ accepted.
        ServesIf (accepted && upgrades) c
          (serve_helper (new_helper_handler parse_url parse_ip c).0 upgrades))
      (target_accepted parse_url c.target_address)
      (serve_helper-ServesIf parse_ip c upgrades
        (parse_proxy_target_url parse_url c.target_address)),
  serve_handler-ServesIf c upgrades,
)
