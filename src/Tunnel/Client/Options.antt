-- ===== src/Tunnel/Client/Options.antt =====
-- The options of Dial in pkg/grpctunnel/client.go: how they are told apart, and what WithTLS does.
use grpc_tunnel.Prelude.{
  ◌≡◌, refl, Bool, true, false, ◌||◌, Option, none, some, List, [], ◌∷◌, arith, if◌then◌else◌,
  Bool-cases, inl, inr,
}
use grpc_tunnel.Prelude.Text.{Text}
use grpc_tunnel.Http.{Url}
use grpc_tunnel.Tunnel.Reconnect.{Backoff}
use grpc_tunnel.Tunnel.Client.{
  ClientOptions, ClientOption, with_tls, with_headers, with_header, with_subprotocols, with_proxy,
  with_handshake_timeout, with_dial_compression, with_reconnect_policy, DialOption, AnyOption,
  tunnel, grpc, other, split_dial_options, apply_client_options, apply_client_option,
}

abbrev pub has_other : List AnyOption → Bool
has_other [] = false
has_other (other ∷ os) = true
has_other (tunnel o ∷ os) = has_other os
has_other (grpc o ∷ os) = has_other os

abbrev pub tunnel_options : List AnyOption → List ClientOption
tunnel_options [] = []
tunnel_options (tunnel o ∷ os) = o ∷ tunnel_options os
tunnel_options (grpc o ∷ os) = tunnel_options os
tunnel_options (other ∷ os) = tunnel_options os

abbrev pub grpc_options : List AnyOption → List DialOption
grpc_options [] = []
grpc_options (tunnel o ∷ os) = grpc_options os
grpc_options (grpc o ∷ os) = o ∷ grpc_options os
grpc_options (other ∷ os) = grpc_options os

-- The options are split if there is none of another type, and then into the tunnel's and gRPC's,
-- all of them, each in their order.
pub split_dial_options-splits :
    (os : List AnyOption)
    → split_dial_options os
      ≡ (if has_other os then none else some (tunnel_options os, grpc_options os))
unfolding split_dial_options
split_dial_options-splits [] = refl
split_dial_options-splits (other ∷ os) = refl
split_dial_options-splits (tunnel o ∷ os) = elim (Bool-cases (has_other os)) [
  | inl bad ↦ rw (split_dial_options-splits os, bad)
  | inr good ↦ rw (split_dial_options-splits os, good)
]
split_dial_options-splits (grpc o ∷ os) = elim (Bool-cases (has_other os)) [
  | inl bad ↦ rw (split_dial_options-splits os, bad)
  | inr good ↦ rw (split_dial_options-splits os, good)
]

abbrev pub is_with_tls : ClientOption → Bool
is_with_tls (with_tls t) = true
is_with_tls o = false

abbrev pub has_with_tls : List ClientOption → Bool
has_with_tls [] = false
has_with_tls (o ∷ os) = is_with_tls o || has_with_tls os

or_true : (b : Bool) → (b || true) ≡ true
or_true true = refl
or_true false = refl

module _ (canonical : Text → Text) (parse_url : Text → Option Url) (url_string : Url → Text)
    (grpc_backoff : Backoff) where
  use_tls-applied :
      (o : ClientOption) (c : ClientOptions)
      → (apply_client_option canonical parse_url url_string grpc_backoff o c).is_use_tls
        ≡ (is_with_tls o || c.is_use_tls)
  use_tls-applied (with_tls t) c = refl
  use_tls-applied (with_headers h) c = refl
  use_tls-applied (with_header k v) c = refl
  use_tls-applied (with_subprotocols ps) c = refl
  use_tls-applied (with_proxy p) c = refl
  use_tls-applied (with_handshake_timeout t) c = refl
  use_tls-applied with_dial_compression c = refl
  use_tls-applied (with_reconnect_policy r) c = refl

  -- After all options, TLS is on exactly if it was before or one of them is WithTLS, wherever it
  -- stands among them and whatever its argument.
  pub apply_client_options-use_tls :
      (os : List ClientOption) (c : ClientOptions)
      → (apply_client_options canonical parse_url url_string grpc_backoff os c).is_use_tls
        ≡ (has_with_tls os || c.is_use_tls)
  apply_client_options-use_tls [] c = refl
  apply_client_options-use_tls (o ∷ os) c = ground (
    arith,
    apply_client_options-use_tls os
        (apply_client_option canonical parse_url url_string grpc_backoff o c),
    use_tls-applied o c,
  )
