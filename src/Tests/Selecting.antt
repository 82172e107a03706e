-- ===== src/Tests/Selecting.antt =====
-- The property selectors at concrete sources.
use anaysitics_service.Base.{◌≡◌, refl, [], ◌∷◌, All, Any, ok}
use anaysitics_service.Base.Text.{text}
use anaysitics_service.Base.Text.Case.{ascii_table}
use anaysitics_service.Config.{Config}
use anaysitics_service.Runtime.Selectors.{query_builder_options}
use anaysitics_service.Runtime.Selectors.Covering.{selector, admitted_filters-covered}
use anaysitics_service.Runtime.Resolver.{new_source_resolver, memory_resolver}
use anaysitics_service.Tests.Apps.{net}
use anaysitics_service.Tests.Configs.{config}
use anaysitics_service.Tests.Readback.{codecs, plan_filter, plan_parsed, request}
use anaysitics_service.Tests.Runs.{selector_runs, assembly_runs}
use anaysitics_service.Tests.Sources.{shop, off_shop, shop', shops, found}

abbrev two_shops : Config
two_shops = record config { source_resolver = text "memory"; sources = shop ∷ off_shop ∷ [] }

one_option :
    query_builder_options two_shops
    ≡ (record { scope = text "event"; name = text "plan" } ∷ []) ∷ []
unfolding selector_runs
one_option = refl

no_option : query_builder_options (record config { sources = off_shop ∷ [] }) ≡ []
unfolding selector_runs
no_option = refl

in_memory : new_source_resolver net two_shops ≡ ok (memory_resolver shops)
unfolding assembly_runs
in_memory = refl

admitted_filters-covered_example :
    All (λ f. Any (Any (λ t. t ≡ selector f)) (query_builder_options two_shops)) (plan_filter ∷ [])
admitted_filters-covered_example =
    admitted_filters-covered net codecs two_shops shops (text " wk_shop") shop' request
      (plan_filter ∷ []) in_memory found plan_parsed
