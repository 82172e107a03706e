-- ===== src/CollectApi/App/Accepted.antt =====
-- internal/collectapi/handler.go: the options that newHandler accepts, and the routes they lead to.
use mathlib.Core.List.{Perm, Nodup}
use anaysitics_service.Base.{
  Bool, sym, ◌∙◌, ap, true, false, not, ◌&&◌, ◌≡◌, refl, ◌↔◌, ◌⊎◌, List, map, Result, ok, All,
  arith, >>-iff, subst,
}
use anaysitics_service.Base.Text.{is_empty, trim_space}
use anaysitics_service.CollectApi.Gates.{no_credentials}
use anaysitics_service.CollectApi.App.{
  Options, OptionsError, given, is_route_path, Named, with_defaults, with_credentials, route_paths,
  has_read_routes, validate_route_paths, new_handler,
}
use anaysitics_service.CollectApi.App.Paths.{path_of, demand_iff, check_paths_perm_iff}

-- There is something to read from: events, the catalog of properties, or a provider for Kafka.
abbrev pub IsReadable : {W Bus : Type 0} → Options W Bus → Type 0
IsReadable opts =
    (given opts.query_reader ≡ true)
    ⊎ (given opts.property_catalog ≡ true)
    ⊎ (given opts.kafka_diagnostics ≡ true)
    ⊎ (given opts.kafka_metrics ≡ true)

-- Options that a handler can work with.
pub record IsWorking {W Bus : Type 0} (opts : Options W Bus) : Type 0 where
  pub has_resolver : given opts.resolver ≡ true
  pub has_bus : given opts.bus ≡ true
  pub has_credentials : IsReadable opts → no_credentials opts.query_credentials ≡ false
  pub valid_paths : All (λ entry. is_route_path entry.0 ≡ true) (route_paths opts)
  pub distinct_paths : Nodup (map path_of (route_paths opts))
  pub has_openapi_file :
      opts.swagger_enabled ≡ true → is_empty (trim_space opts.openapi_file) ≡ false

read_routes_iff :
    {W Bus : Type 0} (opts : Options W Bus) → (has_read_routes opts ≡ true) ↔ IsReadable opts
unfolding has_read_routes
read_routes_iff opts = ground arith

implies_iff : (a b : Bool) → (not (a && b) ≡ true) ↔ (a ≡ true → b ≡ false)
implies_iff a b = ground arith

module _ {W Bus : Type 0} (order : List Named → List Named)
    (rearranges : (paths : List Named) → Perm (order paths) paths) where
  validate_route_paths_iff :
      (opts : Options W Bus)
      → (validate_route_paths order opts ≡ ok tt) ↔ (
          All (λ entry. is_route_path entry.0 ≡ true) (route_paths opts)
          × Nodup (map path_of (route_paths opts))
          × (opts.swagger_enabled ≡ true → is_empty (trim_space opts.openapi_file) ≡ false))
  unfolding validate_route_paths
  validate_route_paths_iff opts = (
    λ h.
        let (p, f) = (>>-iff _ _ tt).0 h in
        let (all, distinct) = (check_paths_perm_iff (rearranges _)).0 p in
        (all, distinct, (implies_iff _ _).0 ((demand_iff _ _).0 f)),
    λ (all, distinct, file). (>>-iff _ _ tt).1 (
      (check_paths_perm_iff (rearranges _)).1 (all, distinct),
      (demand_iff _ _).1 ((implies_iff _ _).1 file),
    ),
  )

  -- What newHandler checks of the options that it has completed.
  Checked : Options W Bus → Type 0
  Checked opts =
      (given opts.resolver ≡ true)
      × (given opts.bus ≡ true)
      × (not (has_read_routes opts && no_credentials opts.query_credentials) ≡ true)
      × (validate_route_paths order opts ≡ ok tt)

  Checked-iff : (opts : Options W Bus) → Checked opts ↔ IsWorking opts
  unfolding Checked
  Checked-iff opts = (
    λ (r, b, c, v).
        let (all, distinct, file) = (validate_route_paths_iff opts).0 v in
        record {
          has_resolver = r;
          has_bus = b;
          has_credentials = λ readable. (implies_iff _ _).0 c ((read_routes_iff opts).1 readable);
          valid_paths = all;
          distinct_paths = distinct;
          has_openapi_file = file;
        },
    λ w. (
      w.has_resolver,
      w.has_bus,
      (implies_iff _ _).1 (λ routes. w.has_credentials ((read_routes_iff opts).0 routes)),
      (validate_route_paths_iff opts).1 (w.valid_paths, w.distinct_paths, w.has_openapi_file),
    ),
  )

  -- Completing the options leaves the resolver and the bus.
  completed_keeps :
      (opts : Options W Bus)
      → (given (with_credentials (with_defaults opts)).resolver ≡ given opts.resolver)
        × (given (with_credentials (with_defaults opts)).bus ≡ given opts.bus)
  unfolding with_credentials with_defaults
  completed_keeps opts = (refl, refl)

  -- Options are accepted exactly if, with the defaults for what is blank and with all tokens as
  -- credentials, there are a resolver and a bus, a credential if there is a route to read from, only
  -- paths that begin with a slash, no path twice, and a file if the documentation is served; and the
  -- order in which the paths are checked makes no difference.
  pub new_handler_iff :
      (opts opts' : Options W Bus)
      → (new_handler order opts ≡ ok opts')
        ↔ ((with_credentials (with_defaults opts) ≡ opts') × IsWorking opts')
  unfolding new_handler Checked
  new_handler_iff opts opts' = (
    λ h.
        let (r, h) = (>>-iff _ _ opts').0 h in
        let (b, h) = (>>-iff _ _ opts').0 h in
        let (c, h) = (>>-iff _ _ opts').0 h in
        let (v, h) = (>>-iff _ _ opts').0 h in
        let same = ok_eq h in
        let r' = (completed_keeps opts).0 ∙ (demand_iff _ _).0 r in
        let b' = (completed_keeps opts).1 ∙ (demand_iff _ _).0 b in
        (same, subst IsWorking same ((Checked-iff _).0 (r', b', (demand_iff _ _).0 c, v))),
    λ (same, w).
        let (r, b, c, v) = (Checked-iff _).1 (subst IsWorking (sym same) w) in
        (>>-iff _ _ opts').1 (
          (demand_iff _ _).1 (sym (completed_keeps opts).0 ∙ r),
          (>>-iff _ _ opts').1 (
            (demand_iff _ _).1 (sym (completed_keeps opts).1 ∙ b),
            (>>-iff _ _ opts').1 ((demand_iff _ _).1 c, (>>-iff _ _ opts').1 (v, ap ok same)),
          ),
        ),
  )
    where
      ok_eq :
          {x y : Options W Bus}
          → ◌≡◌ {A = Result OptionsError (Options W Bus)} (ok x) (ok y)
          → x ≡ y
      ok_eq e = cc
