-- ===== src/Bridge/Target.antt =====
-- The backend target of pkg/bridge/bridge.go. Go's URL parser and its parser of IP addresses are
-- parameters: `parse_url` is `url.Parse`, with `none` for an error, and `parse_ip` is `net.ParseIP`,
-- giving whether the address is a loopback address, with `none` for a nil address.
use grpc_tunnel.Prelude.{
  ◌≡◌, ◌↔◌, ◌⊎◌, inl, inr, refl, ap, subst, ◌∙◌, Bool, true, false, ◌&&◌, ◌||◌, not, Option, none,
  some, [], ◌∷◌, ◌++◌, if◌then◌else◌, arith, Bool-cases,
}
use grpc_tunnel.Prelude.Text.{
  Text, lit, is_empty, text_eq, text_eq_iff, trim_space, contains, equal_fold,
}
use grpc_tunnel.Http.{Url}

pub data TargetError : Type 0 where
  target_required target_invalid scheme_unsupported target_not_bare : TargetError

-- What the code makes of an address, step by step: a value to go on with, or an error to return.
pub data Judged {ℓ} (A : Type ℓ) : Type ℓ where
  rejected : TargetError → Judged A
  accepted : A → Judged A

infixl 5 ◌>>=◌
abbrev pub ◌>>=◌ {ℓ κ} : {A : Type ℓ} {B : Type κ} → Judged A → (A → Judged B) → Judged B
rejected e >>= rest = rejected e
accepted a >>= rest = rest a

abbrev pub slash : Text
slash = lit "/"

-- Whether a URL has a path, query or fragment of its own.
abbrev pub has_extras : Url → Bool
has_extras u =
    (not (is_empty u.path) && not (text_eq u.path slash))
    || not (is_empty u.raw_query)
    || not (is_empty u.fragment)

abbrev pub parsed : Option Url → Judged Url
parsed none = rejected target_invalid
parsed (some u) = accepted u

-- The two checks that both halves of the function make of a URL.
unfoldable pub require_bare : Url → Judged Url
require_bare u =
    if is_empty u.host
    then rejected target_invalid
    else if has_extras u
    then rejected target_not_bare
    else accepted u

abbrev require_http : Url → Judged Url
require_http u =
    if text_eq u.scheme (lit "http") then require_bare u else rejected scheme_unsupported

module _ (parse_url : Text → Option Url) where
  -- The host of a target with a scheme, or the target itself.
  unfoldable pub strip_scheme : Text → Judged Text
  strip_scheme t =
      if contains t (lit "://")
      then (do u ← parsed (parse_url t); v ← require_http u; accepted v.host)
      else accepted t

  -- `parseBridgeTargetURL`
  unfoldable pub parse_bridge_target_url : Text → Judged Url
  parse_bridge_target_url address =
      let t = trim_space address in
      if is_empty t
      then rejected target_required
      else (do h ← strip_scheme t; u ← parsed (parse_url (lit "http://" ++ h)); require_bare u)

module _ (parse_ip : Text → Option Bool) where
  abbrev ip_warns : Option Bool → Bool
  ip_warns none = true
  ip_warns (some is_loopback) = not is_loopback

  -- `shouldWarnBridgePlaintextBackend`
  unfoldable pub should_warn_plaintext_backend : Text → Bool
  should_warn_plaintext_backend host =
      let h = trim_space host in
      if is_empty h
      then true
      else if equal_fold h (lit "localhost")
      then false
      else ip_warns (parse_ip h)

-- A URL that the handler may use as its backend: it names a host, and nothing but the host.
pub record IsBare (u : Url) : Type 0 where
  pub has_host : is_empty u.host ≡ false
  pub no_path : (u.path ≡ []) ⊎ (u.path ≡ slash)
  pub no_query : u.raw_query ≡ []
  pub no_fragment : u.fragment ≡ []

empty_iff : (t : Text) → (is_empty t ≡ true) ↔ (t ≡ [])
empty_iff [] = (λ h. refl, λ h. refl)
empty_iff (c ∷ t) = (λ h. cc, λ h. cc)

require_bare-accepts : (u v : Url) → require_bare u ≡ accepted v → (u ≡ v) × IsBare u
unfolding require_bare
require_bare-accepts u v h = (
  ground arith,
  record {
    has_host = ground arith;
    no_path = ground (arith, empty_iff u.path, text_eq_iff u.path slash);
    no_query = ground (arith, empty_iff u.raw_query);
    no_fragment = ground (arith, empty_iff u.fragment);
  },
)

accepted-injective : (u v : Url) → accepted u ≡ accepted v → u ≡ v
accepted-injective u v h = cc

-- A chain that accepts has accepted at its first step, and then at the rest.
accepted_both {ℓ κ} :
    {A : Type ℓ} {B : Type κ} (first : Judged A) (rest : A → Judged B) {result : B}
    → (first >>= rest) ≡ accepted result
    → (given : A) × (first ≡ accepted given) × (rest given ≡ accepted result)
accepted_both (rejected e) rest h = cc
accepted_both (accepted a) rest h = (a, refl, h)

parsed-accepts : (o : Option Url) (u : Url) → parsed o ≡ accepted u → o ≡ some u
parsed-accepts none u h = cc
parsed-accepts (some v) u h = ap some (accepted-injective v u h)

require_http-accepts :
    (u v : Url)
    → require_http u ≡ accepted v
    → (text_eq u.scheme (lit "http") ≡ true) × (u ≡ v) × IsBare u
require_http-accepts u v h = elim (Bool-cases (text_eq u.scheme (lit "http"))) [
  | inl http ↦ let bare = require_bare-accepts u v (ground arith) in (http, bare.0, bare.1)
  | inr other ↦ absurd (ground arith)
]

module _ (parse_url : Text → Option Url) where
  -- Where the host of a target comes from: the target itself, if it names no scheme, or the URL that
  -- it parses to, which is then an `http` URL with nothing but a host.
  abbrev pub HostOf : Text → Text → Type 0
  HostOf t host =
      ((contains t (lit "://") ≡ false) × (host ≡ t))
      ⊎ ((contains t (lit "://") ≡ true)
          × ((u : Url) × (parse_url t ≡ some u)
              × (text_eq u.scheme (lit "http") ≡ true)
              × IsBare u
              × (host ≡ u.host)))

  strip_scheme-HostOf : (t host : Text) → strip_scheme parse_url t ≡ accepted host → HostOf t host
  unfolding strip_scheme
  strip_scheme-HostOf t host h = elim (Bool-cases (contains t (lit "://"))) [
    | inr plain ↦ inl (plain, ground arith)
    | inl scheme ↦
        let (u, pu, rest) =
          accepted_both (parsed (parse_url t)) (λ u. require_http u >>= λ v. accepted v.host)
            {result = host} (rw scheme at h) in
        let (v, hv, last) =
          accepted_both (require_http u) (λ v. accepted v.host) {result = host} rest in
        let facts = require_http-accepts u v hv in
        inr (
          scheme,
          (u, parsed-accepts (parse_url t) u pu, facts.0, facts.2, ground (arith, facts.1)),
        )
  ]

  -- Whatever the URL parser does, a target that is accepted is not blank, and the URL that it gives
  -- is what the parser returns for `http://` and the target's host: a URL with a host, and with no
  -- path, query or fragment of its own. A target with a scheme is an `http` URL of the same kind.
  pub parse_bridge_target_url-IsBare :
      (address : Text) (u : Url)
      → parse_bridge_target_url parse_url address ≡ accepted u
      → (is_empty (trim_space address) ≡ false)
        × ((host : Text) × HostOf (trim_space address) host
            × (parse_url (lit "http://" ++ host) ≡ some u))
        × IsBare u
  unfolding parse_bridge_target_url
  parse_bridge_target_url-IsBare address u h = elim (Bool-cases (is_empty (trim_space address))) [
    | inl blank ↦ absurd (ground arith)
    | inr given ↦
        let (host, hs, rest) =
          accepted_both (strip_scheme parse_url (trim_space address))
            (λ x. parsed (parse_url (lit "http://" ++ x)) >>= require_bare) {result = u}
            (rw given at h) in
        let (v, pv, last) =
          accepted_both (parsed (parse_url (lit "http://" ++ host))) require_bare {result = u}
            rest in
        let facts = require_bare-accepts v u last in
        (
          given,
          (
            host,
            strip_scheme-HostOf (trim_space address) host hs,
            parsed-accepts (parse_url (lit "http://" ++ host)) v pv ∙ ap some facts.0,
          ),
          subst IsBare facts.0 facts.1,
        )
  ]

-- A warning is left out only for `localhost`, in any case, and for an address that Go parses as a
-- loopback address.
pub should_warn_plaintext_backend-quiet :
    (parse_ip : Text → Option Bool) (host : Text)
    → (should_warn_plaintext_backend parse_ip host ≡ false) ↔ (
        (is_empty (trim_space host) ≡ false)
        × ((equal_fold (trim_space host) (lit "localhost") ≡ true)
            ⊎ (parse_ip (trim_space host) ≡ some true)))
unfolding should_warn_plaintext_backend
should_warn_plaintext_backend-quiet parse_ip host =
    (λ h. (ground arith, ground arith), λ h. ground arith)
