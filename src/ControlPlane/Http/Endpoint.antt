-- ===== src/ControlPlane/Http/Endpoint.antt =====
-- internal/controlplane/http_resolver.go: NewHTTPResolver, which checks the endpoint of the control
-- plane before a request with the bearer token goes there.
pub mod Hosts
pub mod Protected
use anaysitics_service.Base.{
  ℕ, ◌*◌, Bool, true, false, ◌||◌, ◌&&◌, not, ◌==◌, nat_eq, List, [], ◌∷◌, Option, none, some,
  Result, ok, err, ◌>>=◌, ◌>>◌, if◌then◌else◌,
}
use anaysitics_service.Base.Int.{ℤ, pos, leb_ℤ}
use anaysitics_service.Base.Text.{Text, Text_eq, text, is_empty, trim_space, CaseTable, equal_fold}
use anaysitics_service.ControlPlane.Http.{HttpResolver}
use anaysitics_service.ControlPlane.Source.{second}
use anaysitics_service.ControlPlane.Validate.{Error, failure, require}

-- The parts of a *url.URL that are read.
pub record Url : Type 0 where
  pub scheme : Text
  pub host : Text

-- A netip.Addr, by the answers of its two tests.
pub record Address : Type 0 where
  pub is_loopback : Bool
  pub is_private : Bool

-- url.Parse, the host of net.SplitHostPort, and netip.ParseAddr.
pub record Addressing : Type 0 where
  pub parse_url : Text → Option Url
  pub split_host_port : Text → Option Text
  pub parse_addr : Text → Option Address

-- An http.Client: its timeout, and whether it follows redirects.
pub record HttpClient : Type 0 where
  pub timeout : ℤ
  pub follows_redirects : Bool

pub record HttpResolverOptions : Type 0 where
  pub endpoint : Text
  pub bearer_token : Text
  pub timeout : ℤ
  pub cache_ttl : ℤ
  pub allow_insecure_loopback : Bool
  pub allow_insecure_private_network : Bool
  pub client : Option HttpClient

abbrev pub is_bracket : ℕ → Bool
is_bracket c = nat_eq c b'[' || nat_eq c b']'

abbrev pub without_first_brackets : Text → Text
without_first_brackets [] = []
without_first_brackets (c ∷ s) =
    let rest = without_first_brackets s in if is_bracket c then rest else c ∷ s

abbrev pub without_last_brackets : Text → Text
without_last_brackets [] = []
without_last_brackets (c ∷ s) =
    let rest = without_last_brackets s in if is_bracket c && is_empty rest then [] else c ∷ rest

-- strings.Trim(host, "[]")
unfoldable pub trim_brackets : Text → Text
trim_brackets s = without_last_brackets (without_first_brackets s)

-- strings.Contains(host, ".")
unfoldable pub has_dot : Text → Bool
has_dot [] = false
has_dot (c ∷ s) = nat_eq c b'.' || has_dot s

module _ (net : Addressing) where
  -- The host without its port and its brackets.
  unfoldable pub bare_host : Text → Text
  bare_host host_port = trim_brackets (host_of (net.split_host_port host_port))
    where
      host_of : Option Text → Text
      host_of none = host_port
      host_of (some host) = host

  unfoldable pub is_loopback_host : ⦃cases : CaseTable⦄ → Text → Bool
  is_loopback_host host_port =
      let host = bare_host host_port in
      if equal_fold host (text "localhost") then true else loopback (net.parse_addr host)
    where
      loopback : Option Address → Bool
      loopback none = false
      loopback (some addr) = addr.is_loopback

  unfoldable pub is_private_network_host : Text → Bool
  is_private_network_host host_port =
      let host = bare_host host_port in
      if is_empty host then false else private_or_name host (net.parse_addr host)
    where
      private_or_name : Text → Option Address → Bool
      private_or_name host none = not (has_dot host)
      private_or_name host (some addr) = addr.is_private

  unfoldable pub validate_control_plane_transport :
      ⦃cases : CaseTable⦄ → Url → Bool → Bool → Result Error (Unit {0})
  validate_control_plane_transport endpoint allow_insecure_loopback allow_insecure_private_network =
      if endpoint.scheme == text "https" then ok tt else do
        require (endpoint.scheme == text "http") "control-plane endpoint scheme is not supported"
        require (allow_insecure_loopback || allow_insecure_private_network)
            "ANALYTICS_SERVICE_CONTROL_PLANE_ALLOW_INSECURE_LOOPBACK=true or ANALYTICS_SERVICE_CONTROL_PLANE_ALLOW_INSECURE_PRIVATE_NETWORK=true is required for http control-plane endpoints"
        if is_loopback_host endpoint.host
            then ok tt
            else require (allow_insecure_private_network && is_private_network_host endpoint.host)
                "insecure control-plane endpoints are allowed only on loopback hosts"

  -- A URL with a scheme and a host.
  unfoldable pub absolute_url : Option Url → Result Error Url
  absolute_url none = err (failure "control-plane endpoint is not a valid absolute URL")
  absolute_url (some url) =
      if is_empty url.scheme || is_empty url.host
      then err (failure "control-plane endpoint is not a valid absolute URL")
      else ok url

  -- NewHTTPResolver; the clock is one of the things that the resolver's methods take.
  unfoldable pub new_http_resolver :
      ⦃cases : CaseTable⦄ → HttpResolverOptions → Result Error HttpResolver
  new_http_resolver options = do
    let endpoint = trim_space options.endpoint
    require (not (is_empty endpoint)) "control-plane endpoint is required"
    parsed ← absolute_url (net.parse_url endpoint)
    validate_control_plane_transport parsed options.allow_insecure_loopback
        options.allow_insecure_private_network
    let bearer_token = trim_space options.bearer_token
    require (not (is_empty bearer_token)) "control-plane bearer token is required"
    ok (record {
      endpoint = endpoint;
      bearer_token = bearer_token;
      cache_ttl = options.cache_ttl;
      cache = [];
    })

-- controlPlaneClient; rejectControlPlaneRedirect follows no redirect.
unfoldable pub control_plane_client : HttpResolverOptions → HttpClient
control_plane_client options = client_of options.client
  where
    bounded : ℤ → ℤ
    bounded timeout = if leb_ℤ timeout (pos 0) then pos (3 * second) else timeout

    client_of : Option HttpClient → HttpClient
    client_of none = record { timeout = bounded options.timeout; follows_redirects = false }
    client_of (some client) = record client {
      timeout = (if leb_ℤ client.timeout (pos 0) then bounded options.timeout else client.timeout);
      follows_redirects = false;
    }
