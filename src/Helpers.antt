-- ===== src/Helpers.antt =====
-- The bridge handlers of examples/_shared/helpers: NewHandler and ServeHTTP of proxy.go, ServeHandler of
-- server.go. url.Parse and net.ParseIP are parameters; the upgrade says only whether it succeeds.
pub mod Balanced
mod Tests
use grpc_tunnel.Prelude.{
  ℕ, zero, suc, ◌≡◌, Bool, true, false, not, Option, none, some, List, [], ◌∷◌, ◌++◌, if◌then◌else◌,
}
use grpc_tunnel.Prelude.Int.{ℤ, pos, negsuc}
use grpc_tunnel.Prelude.Text.{Text, lit, is_empty}
use grpc_tunnel.Http.{Url}
use grpc_tunnel.Bridge.Target.{should_warn_plaintext_backend}

-- `Config` of proxy.go and `ServerConfig` of server.go, of whose callbacks only whether they are set.
pub record HelperConfig : Type 0 where
  pub target_address : Text
  pub read_buffer_size : ℤ
  pub write_buffer_size : ℤ
  pub has_on_connect : Bool
  pub has_on_disconnect : Bool

pub data ProxyError : Type 0 where
  address_missing : ProxyError
  address_invalid : ProxyError

pub data ProxyTarget : Type 0 where
  proxy_refused : ProxyError → ProxyTarget
  proxy_target : Url → ProxyTarget

abbrev helper_buffer_size : ℤ → ℤ
helper_buffer_size (pos zero) = pos 4096
helper_buffer_size (pos (suc n)) = pos (suc n)
helper_buffer_size (negsuc n) = negsuc n

unfoldable pub with_buffer_defaults : HelperConfig → HelperConfig
with_buffer_defaults c = record c {
  read_buffer_size = helper_buffer_size c.read_buffer_size;
  write_buffer_size = helper_buffer_size c.write_buffer_size;
}

abbrev pub with_proxy_host : Option Url → ProxyTarget
with_proxy_host none = proxy_refused address_invalid
with_proxy_host (some u) = if is_empty u.host then proxy_refused address_invalid else proxy_target u

pub data HelperLog : Type 0 where
  configuration_warning : HelperLog
  security_warning : HelperLog
  request_rejected : HelperLog
  upgrade_failed : HelperLog

-- The handler, with the URL that its proxy directs requests to.
pub record HelperHandler : Type 0 where
  pub config : HelperConfig
  pub backend : Option Url
  pub init_error : Option ProxyError

module _ (parse_url : Text → Option Url) where
  unfoldable pub parse_proxy_target_url : Text → ProxyTarget
  parse_proxy_target_url address =
      if is_empty address
      then proxy_refused address_missing
      else with_proxy_host (parse_url (lit "http://" ++ address))

module _ (parse_ip : Text → Option Bool) where
  abbrev pub with_proxy_target : HelperConfig → ProxyTarget → HelperHandler × List HelperLog
  with_proxy_target c (proxy_refused e) =
      (record { config = c; backend = none; init_error = some e }, configuration_warning ∷ [])
  with_proxy_target c (proxy_target u) = (
    record { config = c; backend = some u; init_error = none },
    if should_warn_plaintext_backend parse_ip u.hostname then security_warning ∷ [] else [],
  )

module _ (parse_url : Text → Option Url) (parse_ip : Text → Option Bool) where
  -- `NewHandler`: the handler and what it logs.
  unfoldable pub new_helper_handler : HelperConfig → HelperHandler × List HelperLog
  unfolding with_buffer_defaults parse_proxy_target_url
  new_helper_handler c =
      with_proxy_target parse_ip (with_buffer_defaults c)
        (parse_proxy_target_url parse_url c.target_address)

pub data HelperEffect : Type 0 where
  helper_logged : HelperLog → HelperEffect
  error_sent : ℕ → HelperEffect
  socket_upgraded : HelperEffect
  socket_closed : HelperEffect
  connect_called : HelperEffect
  disconnect_called : HelperEffect
  adapter_made : HelperEffect
  adapter_served : HelperEffect
  adapter_closed : HelperEffect

abbrev called : Bool → HelperEffect → List HelperEffect
called true e = e ∷ []
called false e = []

-- From the upgraded socket to the end, the deferred calls included.
abbrev pub serve_upgraded : HelperConfig → List HelperEffect
serve_upgraded c =
    socket_upgraded
    ∷ (called c.has_on_connect connect_called
        ++ (adapter_made
            ∷ adapter_served
            ∷ adapter_closed
            ∷ (called c.has_on_disconnect disconnect_called ++ (socket_closed ∷ []))))

-- `ServeHTTP`, with whether the upgrade succeeds.
unfoldable pub serve_helper : HelperHandler → Bool → List HelperEffect
serve_helper h upgrades = elim h.init_error [
  | some e ↦ helper_logged request_rejected ∷ error_sent 500 ∷ []
  | none ↦ if upgrades then serve_upgraded h.config else helper_logged upgrade_failed ∷ []
]

-- What the handler of `ServeHandler` does with a request.
unfoldable pub serve_handler : HelperConfig → Bool → List HelperEffect
serve_handler c upgrades = if upgrades then serve_upgraded c else []
