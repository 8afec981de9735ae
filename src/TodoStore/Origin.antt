-- ===== src/TodoStore/Origin.antt =====
-- isBridgeOriginAllowed of examples/direct-bridge/main.go. url.Parse is the parameter `parse`.
use grpc_tunnel.Prelude.{
  ℕ, ◌+◌, Bool, true, false, ◌&&◌, ◌||◌, Option, none, some, leb, ◌==◌, if◌then◌else◌, ◌≡◌, refl,
  [], ◌∷◌,
}
use grpc_tunnel.Prelude.Text.{Text, lit, is_empty, text_eq}
use grpc_tunnel.Http.{Url, Request}

-- unicode.ToLower, as far as its result is ASCII; the two code points outside ASCII are the only ones
-- whose lower case is.
unfoldable pub lower_rune : ℕ → ℕ
lower_rune c =
    if leb b'A' c && leb c b'Z'
    then c + 32
    else if c == 0x212a
    then b'k'
    else if c == 0x130
    then b'i'
    else c

unfoldable pub to_lower : Text → Text
unfolding lower_rune
to_lower [] = []
to_lower (c ∷ s) = lower_rune c ∷ to_lower s

unfoldable pub is_local_host : Text → Bool
unfolding text_eq
is_local_host host =
    text_eq host (lit "localhost") || text_eq host (lit "127.0.0.1") || text_eq host (lit "::1")

abbrev is_local_url : Option Url → Bool
unfolding is_local_host to_lower
is_local_url none = false
is_local_url (some url) = if is_empty url.host then false else is_local_host (to_lower url.hostname)

unfoldable pub is_bridge_origin_allowed : (Text → Option Url) → Request → Bool
unfolding is_local_url
is_bridge_origin_allowed parse r =
    let origin = r.header (lit "Origin") in
    if is_empty origin then true else is_local_url (parse origin)

lower_test : is_local_host (to_lower (lit "LocalHost")) ≡ true
unfolding is_local_host to_lower
lower_test = refl
