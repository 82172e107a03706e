-- ===== src/ControlPlane/Http/Endpoint/Protected.antt =====
-- internal/controlplane/http_resolver.go: where the bearer token may go.
use anaysitics_service.Base.{
  Bool, not, true, false, ◌≡◌, refl, sym, subst, inl, inr, ◌↔◌, ◌⊎◌, ◌||◌, ok, err, Result, arith,
  >>-iff, >>=-iff, Option, none, some, [], ◌*◌, if◌then◌else◌,
}
use anaysitics_service.Base.Int.{ℤ, pos, leb_ℤ}
use anaysitics_service.Base.Text.{Text, text, text_eq, text_eq_iff, is_empty, trim_space, CaseTable}
use anaysitics_service.ControlPlane.Http.{HttpResolver}
use anaysitics_service.ControlPlane.Source.{second}
use anaysitics_service.ControlPlane.Validate.{Error, failure}
use anaysitics_service.ControlPlane.Validate.Passed.{require_iff}
use anaysitics_service.ControlPlane.Http.Endpoint.Hosts.{
  IsHostOf, IsLoopback, IsPrivate, IsHostOf-iff, IsLoopback-iff, IsPrivate-iff,
}
use anaysitics_service.ControlPlane.Http.Endpoint.{
  Url, bare_host, control_plane_client, Addressing, HttpClient, HttpResolverOptions,
  is_loopback_host, is_private_network_host, validate_control_plane_transport, absolute_url,
  new_http_resolver,
}

-- Encrypted, or to a host of this machine or of the private network that the options allow.
abbrev pub IsProtected : ⦃cases : CaseTable⦄ → Addressing → HttpResolverOptions → Url → Type 0
IsProtected net options url =
    (url.scheme ≡ text "https")
    ⊎ ((url.scheme ≡ text "http")
        × ((host : Text) × IsHostOf net url.host host
            × ((IsLoopback net host
                  × ((options.allow_insecure_loopback || options.allow_insecure_private_network)
                      ≡ true))
                ⊎ (IsPrivate net host × (options.allow_insecure_private_network ≡ true)))))

-- The same by the tests.
abbrev IsTested : ⦃cases : CaseTable⦄ → Addressing → HttpResolverOptions → Url → Type 0
IsTested net options url =
    (url.scheme ≡ text "https")
    ⊎ ((url.scheme ≡ text "http")
        × (((is_loopback_host net url.host ≡ true)
              × ((options.allow_insecure_loopback || options.allow_insecure_private_network)
                  ≡ true))
            ⊎ ((is_private_network_host net url.host ≡ true)
                × (options.allow_insecure_private_network ≡ true))))

different : text_eq (text "https") (text "http") ≡ false
unfolding text text_eq
different = refl

tests_iff :
    ⦃cases : CaseTable⦄ (net : Addressing) (options : HttpResolverOptions) (url : Url)
    → (validate_control_plane_transport net url options.allow_insecure_loopback
          options.allow_insecure_private_network
        ≡ ok tt)
      ↔ IsTested net options url
unfolding validate_control_plane_transport
tests_iff net options url =
    ground (arith, text_eq_iff url.scheme (text "https"), text_eq_iff url.scheme (text "http"))

IsTested-IsProtected :
    ⦃cases : CaseTable⦄ (net : Addressing) (options : HttpResolverOptions) (url : Url)
    → IsTested net options url ↔ IsProtected net options url
IsTested-IsProtected net options url = (
  λ h. elim h [
    | inl e ↦ inl e
    | inr (e, inl (local, on)) ↦
        inr (e, (bare_host net url.host, here, inl ((IsLoopback-iff net url.host).0 local, on)))
    | inr (e, inr (near, on)) ↦
        inr (e, (bare_host net url.host, here, inr ((IsPrivate-iff net url.host).0 near, on)))
  ],
  λ h. elim h [
    | inl e ↦ inl e
    | inr (e, (host, is_host, inl (local, on))) ↦ inr (
      e,
      inl (
        (IsLoopback-iff net url.host).1
            (subst (IsLoopback net) (sym ((IsHostOf-iff net url.host host).1 is_host)) local),
        on,
      ),
    )
    | inr (e, (host, is_host, inr (near, on))) ↦ inr (
      e,
      inr (
        (IsPrivate-iff net url.host).1
            (subst (IsPrivate net) (sym ((IsHostOf-iff net url.host host).1 is_host)) near),
        on,
      ),
    )
  ],
)
  where
    here : IsHostOf net url.host (bare_host net url.host)
    here = (IsHostOf-iff net url.host (bare_host net url.host)).0 refl

transport_iff :
    ⦃cases : CaseTable⦄ (net : Addressing) (options : HttpResolverOptions) (url : Url)
    → (validate_control_plane_transport net url options.allow_insecure_loopback
          options.allow_insecure_private_network
        ≡ ok tt)
      ↔ IsProtected net options url
transport_iff net options url = (
  λ h. (IsTested-IsProtected net options url).0 ((tests_iff net options url).0 h),
  λ h. (tests_iff net options url).1 ((IsTested-IsProtected net options url).1 h),
)

-- A timeout that is positive, or else a default that is.
default_positive :
    (t other : ℤ)
    → leb_ℤ other (pos 0) ≡ false
    → leb_ℤ (if leb_ℤ t (pos 0) then other else t) (pos 0) ≡ false
default_positive t other h = by_test (leb_ℤ t (pos 0)) refl
  where
    by_test : (b : Bool) → leb_ℤ t (pos 0) ≡ b → leb_ℤ (if b then other else t) (pos 0) ≡ false
    by_test true below = h
    by_test false above = above

-- The client of the requests follows no redirect, and its timeout is positive.
client_bounded :
    (options : HttpResolverOptions)
    → ((control_plane_client options).follows_redirects ≡ false)
      × (leb_ℤ (control_plane_client options).timeout (pos 0) ≡ false)
unfolding control_plane_client
client_bounded options = bounded_by options.client refl
  where
    three_seconds :
        leb_ℤ (if leb_ℤ options.timeout (pos 0) then pos (3 * second) else options.timeout) (pos 0)
        ≡ false
    three_seconds = default_positive options.timeout (pos (3 * second)) refl

    bounded_by :
        (client : Option HttpClient)
        → options.client ≡ client
        → ((control_plane_client options).follows_redirects ≡ false)
          × (leb_ℤ (control_plane_client options).timeout (pos 0) ≡ false)
    bounded_by none same = rw same (refl, three_seconds)
    bounded_by (some client) same = rw same (
      refl,
      default_positive client.timeout
          (if leb_ℤ options.timeout (pos 0) then pos (3 * second) else options.timeout)
          three_seconds,
    )

absolute_url_iff :
    (net : Addressing) (o : Option Url) (url : Url)
    → (absolute_url net o ≡ ok url)
      ↔ ((o ≡ some url) × (is_empty url.scheme ≡ false) × (is_empty url.host ≡ false))
unfolding absolute_url
absolute_url_iff net none url = (λ h. absurd (cc), λ (h, _, _). absurd (cc))
absolute_url_iff net (some found) url =
    found_iff (is_empty found.scheme) (is_empty found.host) refl refl
  where
    found_iff :
        (b d : Bool)
        → is_empty found.scheme ≡ b
        → is_empty found.host ≡ d
        → ((if b || d
              then err (failure "control-plane endpoint is not a valid absolute URL")
              else ok found)
            ≡ ok url)
          ↔ ((some found ≡ some url) × (is_empty url.scheme ≡ false) × (is_empty url.host ≡ false))
    found_iff true d s h = (λ e. absurd (cc), λ (e, s', t). absurd (cc))
    found_iff false true s h = (λ e. absurd (cc), λ (e, s', t). absurd (cc))
    found_iff false false s h = (λ e. let same : found ≡ url = cc in (cc, cc, cc), λ (e, s', t). cc)

-- A resolver is built exactly if the trimmed endpoint is an absolute URL that is protected, and the
-- trimmed token is not blank: it then has this endpoint, this token, and an empty cache. Protected is an
-- https URL, or an http URL to a host that one of these holds of: it is the name localhost, in any
-- case of letters, or a loopback address, and one of the two options is set; it is a private address
-- or a name without a dot, and the option for those is set. The client of its requests follows no
-- redirect and has a positive timeout.
pub new_http_resolver_iff :
    ⦃cases : CaseTable⦄ (net : Addressing) (options : HttpResolverOptions) (r : HttpResolver)
    → ((new_http_resolver net options ≡ ok r) ↔ (
        (url : Url) × (net.parse_url (trim_space options.endpoint) ≡ some url)
        × (is_empty url.scheme ≡ false)
        × (is_empty url.host ≡ false)
        × IsProtected net options url
        × (is_empty (trim_space options.endpoint) ≡ false)
        × (is_empty (trim_space options.bearer_token) ≡ false)
        × (record {
          endpoint = trim_space options.endpoint;
          bearer_token = trim_space options.bearer_token;
          cache_ttl = options.cache_ttl;
          cache = [];
        }
            ≡ r)))
      × ((control_plane_client options).follows_redirects ≡ false)
      × (leb_ℤ (control_plane_client options).timeout (pos 0) ≡ false)
unfolding new_http_resolver
new_http_resolver_iff net options r = (
  (
    λ h.
        let (set, h) = (>>-iff _ _ r).0 h in
        let (url, parsed, h) = (>>=-iff (absolute_url net _) _ r).0 h in
        let (safe, h) = (>>-iff _ _ r).0 h in
        let (token, h) = (>>-iff _ _ r).0 h in
        let (found, scheme, host) = (absolute_url_iff net _ url).0 parsed in
        (
          url,
          found,
          scheme,
          host,
          (transport_iff net options url).0 safe,
          not_true ((require_iff _ _).0 set),
          not_true ((require_iff _ _).0 token),
          ok_eq h,
        ),
    λ (url, found, scheme, host, safe, set, token, same). (>>-iff _ _ r).1 (
      (require_iff (not (is_empty (trim_space options.endpoint))) _).1 (rw set refl),
      (>>=-iff (absolute_url net _) _ r).1 (
        url,
        (absolute_url_iff net _ url).1 (found, scheme, host),
        (>>-iff _ _ r).1 (
          (transport_iff net options url).1 safe,
          (>>-iff _ _ r).1 (
            (require_iff (not (is_empty (trim_space options.bearer_token))) _).1 (rw token refl),
            rw same refl,
          ),
        ),
      ),
    ),
  ),
  (client_bounded options).0,
  (client_bounded options).1,
)
  where
    not_true : {b : Bool} → not b ≡ true → b ≡ false
    not_true h = ground arith

    ok_eq : {x y : HttpResolver} → ◌≡◌ {A = Result Error HttpResolver} (ok x) (ok y) → x ≡ y
    ok_eq h = cc
