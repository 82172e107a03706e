-- ===== src/CollectApi/App/Registered.antt =====
-- internal/collectapi/handler.go: the routes of an accepted handler.
use mathlib.Core.List.{Perm, Nodup, perm_middle}
use mathlib.Core.List.Perm
use anaysitics_service.Base.{
  Bool, true, false, ◌≡◌, refl, ◌↔◌, List, [], ◌∷◌, ◌++◌, map, ok, All, ap₂, subst,
}
use anaysitics_service.Base.Text.{Text}
use anaysitics_service.CollectApi.App.{
  Options, given, is_route_path, Named, when_given, route_paths, new_handler, Target,
  register_routes, kafka_diagnostics_route, kafka_metrics_route, swagger,
}
use anaysitics_service.Base.Rearranged.{All-perm}
use anaysitics_service.CollectApi.App.Paths.{path_of}
use anaysitics_service.CollectApi.App.Accepted.{new_handler_iff}

-- The same paths stand at the end of both lists.
optional_same :
    {A B : Type 0} (f : A → Text) (g : B → Text) (test : Bool) (a : A) (b : B) (xs : List A)
    (ys : List B)
    → f a ≡ g b
    → map f xs ≡ map g ys
    → map f (when_given test a xs) ≡ map g (when_given test b ys)
optional_same f g true a b xs ys e h = ap₂ (λ p ps. p ∷ ps) e h
optional_same f g false a b xs ys e h = h

abbrev pub route_path : Text × Target → Text
route_path route = route.0

optional_paths : {W Bus : Type 0} → Options W Bus → List Named
optional_paths opts =
    when_given (given opts.kafka_diagnostics)
      (opts.kafka_diagnostics_path, "kafka diagnostics path")
      (when_given (given opts.kafka_metrics) (opts.kafka_metrics_path, "kafka metrics path")
        (when_given opts.swagger_enabled (opts.swagger_path, "swagger path") []))

optional_routes : {W Bus : Type 0} → Options W Bus → List (Text × Target)
optional_routes opts =
    when_given (given opts.kafka_diagnostics) (opts.kafka_diagnostics_path, kafka_diagnostics_route)
      (when_given (given opts.kafka_metrics) (opts.kafka_metrics_path, kafka_metrics_route)
        (when_given opts.swagger_enabled (opts.swagger_path, swagger) []))

registered_perm :
    {W Bus : Type 0} (opts : Options W Bus)
    → Perm (map path_of (route_paths opts)) (map route_path (register_routes opts))
unfolding route_paths register_routes optional_paths optional_routes
registered_perm opts =
    let middle = opts.events_path ∷ opts.goals_path ∷ [] in
    Perm.trans (Perm.symm (perm_middle (opts.health_path ∷ opts.tracker_path ∷ []) _)) (
      Perm.cons _ (
        Perm.cons _ (
          Perm.cons _ (
            Perm.trans (perm_middle middle _)
              (subst (λ ps. Perm (before ++ optional_names) (before ++ ps)) same (Perm.refl _))))))
  where
    before : List Text
    before = opts.realtime_path ∷ opts.events_path ∷ opts.goals_path ∷ opts.properties_path ∷ []

    optional_names : List Text
    optional_names = map path_of (optional_paths opts)

    same : map path_of (optional_paths opts) ≡ map route_path (optional_routes opts)
    same = optional_same path_of route_path (given opts.kafka_diagnostics) _ _ _ _ refl (
        optional_same path_of route_path (given opts.kafka_metrics) _ _ _ _ refl
          (optional_same path_of route_path opts.swagger_enabled _ _ _ _ refl refl))

All-map :
    {A : Type 0} (test : Text → Bool) (f : A → Text) (xs : List A)
    → All (λ x. test (f x) ≡ true) xs ↔ All (λ p. test p ≡ true) (map f xs)
All-map test f [] = (λ h. h, λ h. h)
All-map test f (x ∷ xs) =
    (λ h. (h.0, (All-map test f xs).0 h.1), λ h. (h.0, (All-map test f xs).1 h.1))

-- Every route that an accepted handler serves has a path that begins with a slash, and no two
-- routes have the same path.
pub register_routes_distinct :
    {W Bus : Type 0} (order : List Named → List Named)
    (rearranges : (paths : List Named) → Perm (order paths) paths) (opts h : Options W Bus)
    → new_handler order opts ≡ ok h
    → All (λ route. is_route_path (route_path route) ≡ true) (register_routes h)
      × Nodup (map route_path (register_routes h))
register_routes_distinct order rearranges opts h accepted =
    let w = ((new_handler_iff order rearranges opts h).0 accepted).1 in
    (
      (All-map is_route_path route_path (register_routes h)).1 (
          All-perm is_route_path (registered_perm h)
            ((All-map is_route_path path_of _).0 w.valid_paths)),
      Perm.nodup (registered_perm h) w.distinct_paths,
    )
