-- ===== src/Runtime/Schema/Ensured.antt =====
-- internal/runtime/worker.go: no start without the tables of the enabled sources.
use anaysitics_service.Base.{Bool, true, ◌≡◌, List, [], ◌∷◌, Result, ok, All, Any, inl, inr}
use anaysitics_service.Base.Action.{
  settled, Satisfies, Satisfies-bind, Satisfies-if, Satisfies-weaken, Satisfies-with,
}
use anaysitics_service.Base.Text.{Text, CaseTable}
use anaysitics_service.ControlPlane.Source.{SourceConfig, normalize}
use anaysitics_service.Runtime.Schema.{
  RoutingKey, routing_key, if_enabled, create_source_tables, validate_source_tables,
  create_click_house_tables, validate_click_house_tables, ensure_click_house_tables,
}
use anaysitics_service.Runtime.TableWriter.{WriterError, TableWriter, Step, found}
use anaysitics_service.Runtime.TableWriter.Ordered.{
  IsBacked, IsSafe, Lasts, Safely, later, exec-Safely, require-found, settled-ok,
}

module _ {W : Type 0} (w : TableWriter W RoutingKey) where
  abbrev pub Steps : Type 0
  Steps = List (Step RoutingKey)

  -- The tables that a source is routed to were found in the catalog.
  abbrev pub HasTables : Steps → SourceConfig → Type 0
  HasTables steps source =
      (table : Text) × (w.warehouse.route (routing_key source) ≡ ok table) × IsBacked w steps table

  -- So for each source that is enabled.
  abbrev pub HaveTables : List SourceConfig → ⦃cases : CaseTable⦄ → Steps → Type 0
  HaveTables sources steps =
      All (λ source. (normalize source).enabled ≡ true → HasTables steps (normalize source)) sources

  module _ (P : Steps → Type 0) (lasts : Lasts w P) where
    validate_source-HasTables :
        (source : SourceConfig)
        → Satisfies
            (Safely w P)
            (validate_source_tables w source)
            (λ _ s. Safely w (λ steps. HasTables steps source × P steps) s)
            (λ e s. IsSafe w s)
    unfolding validate_source_tables
    validate_source-HasTables source =
        Satisfies-bind (settled-ok w P (w.warehouse.route (routing_key source))) (λ table.
          Satisfies-with (λ routed. Satisfies-bind (require-found w P table lasts) (λ _.
            Satisfies-if w.property_indexing
              (λ _.
                Satisfies-bind (settled-ok w (Both table) (w.warehouse.property_table_for table))
                  (λ property_table. Satisfies-with (λ named.
                    Satisfies-weaken (require-found w (Both table) property_table (both_last table))
                      (λ _ s ((there, (t, p)), safe).
                        (((table, routed, (t, inr (property_table, named, there))), p), safe))
                      (λ e s safe. safe))))
              (λ off. record {
                run = λ s ((t, p), safe). (((table, routed, (t, inl off)), p), safe);
              }))))
      where
        Both : Text → Steps → Type 0
        Both table steps = Any (λ step. step ≡ found table) steps × P steps

        both_last : (table : Text) → Lasts w (Both table)
        both_last table step steps (t, p) = (inr t, lasts step steps p)

    create_source-Safely :
        (source : SourceConfig)
        → Satisfies
            (Safely w P)
            (create_source_tables w source)
            (λ _ s. Safely w P s)
            (λ e s. IsSafe w s)
    unfolding create_source_tables
    create_source-Safely source =
        Satisfies-bind (weakly (w.warehouse.route (routing_key source))) (λ table.
          Satisfies-bind (weakly (w.warehouse.create_event_table_statement table)) (λ ddl.
            Satisfies-bind (exec-Safely w P ddl lasts) (λ _.
              Satisfies-if w.property_indexing
                (λ _.
                  Satisfies-bind (weakly (w.warehouse.create_property_table_statement table))
                    (λ ddl. exec-Safely w P ddl lasts))
                (λ _. record { run = λ s p. p }))))
      where
        weakly :
            {A : Type 0} (r : Result WriterError A)
            → Satisfies (Safely w P) (settled r) (λ _ s. Safely w P s) (λ e s. IsSafe w s)
        weakly r = Satisfies-weaken (settled-ok w P r) (λ a s p. p.1) (λ e s p. p)

  module _ ⦃cases : CaseTable⦄ where
    HaveTables-later : (sources : List SourceConfig) → Lasts w (HaveTables sources)
    HaveTables-later [] step steps h = tt
    HaveTables-later (source ∷ rest) step steps h = (
      λ enabled.
          let (table, routed, backed) = h.0 enabled in (table, routed, later w step steps backed),
      HaveTables-later rest step steps h.1,
    )

    validate-HaveTables :
        (P : Steps → Type 0)
        → Lasts w P
        → (sources : List SourceConfig)
        → Satisfies
            (Safely w P)
            (validate_click_house_tables w sources)
            (λ _ s. Safely w (λ steps. HaveTables sources steps × P steps) s)
            (λ e s. IsSafe w s)
    unfolding validate_click_house_tables
    validate-HaveTables P lasts [] = record { run = λ s (p, safe). ((tt, p), safe) }
    validate-HaveTables P lasts (source ∷ rest) = Satisfies-bind (first source) (λ _.
        Satisfies-weaken (validate-HaveTables (One source) (one_last source) rest)
          (λ _ s ((all, (t, p)), safe). (((t, all), p), safe)) (λ e s safe. safe))
      where
        One : SourceConfig → Steps → Type 0
        One source steps =
            ((normalize source).enabled ≡ true → HasTables steps (normalize source)) × P steps

        one_last : (source : SourceConfig) → Lasts w (One source)
        one_last source step steps (t, p) = (
          λ on. let (table, routed, backed) = t on in (table, routed, later w step steps backed),
          lasts step steps p,
        )

        first :
            (source : SourceConfig)
            → Satisfies
                (Safely w P)
                (if_enabled w (normalize source) (validate_source_tables w))
                (λ _ s. Safely w (One source) s)
                (λ e s. IsSafe w s)
        first source =
            Satisfies-if (normalize source).enabled
              (λ on.
                Satisfies-weaken (validate_source-HasTables P lasts (normalize source))
                  (λ _ s ((t, p), safe). ((λ _. t, p), safe)) (λ e s safe. safe))
              (λ off. record { run = λ s (p, safe). ((λ on. absurd (cc), p), safe) })

    create-Safely :
        (sources : List SourceConfig)
        → Satisfies
            (IsSafe w)
            (create_click_house_tables w sources)
            (λ _ s. IsSafe w s)
            (λ e s. IsSafe w s)
    unfolding create_click_house_tables
    create-Safely [] = record { run = λ s safe. safe }
    create-Safely (source ∷ rest) =
        Satisfies-bind
          (Satisfies-if (normalize source).enabled
            (λ _.
              Satisfies-weaken
                (record {
                  run = λ s safe.
                      (create_source-Safely (λ _. Unit {0}) (λ _ _ _. tt) (normalize source)).run s
                        (tt, safe);
                })
                (λ _ s p. p.1) (λ e s safe. safe))
            (λ _. record { run = λ s safe. safe }))
          (λ _. create-Safely rest)

    -- Startup goes on only if, for each source that is enabled, the event table that it is routed to was
    -- found in the catalog, and its property table too if properties are indexed; with and without
    -- the creation of tables before.
    pub ensure_click_house_tables-HaveTables :
        (auto_migrate : Bool) (sources : List SourceConfig)
        → Satisfies
            (IsSafe w)
            (ensure_click_house_tables w auto_migrate sources)
            (λ _ s. HaveTables sources s.steps)
            (λ e s. IsSafe w s)
    unfolding ensure_click_house_tables
    ensure_click_house_tables-HaveTables auto_migrate sources =
        Satisfies-bind
          (Satisfies-if auto_migrate (λ _. create-Safely sources)
            (λ _. record { run = λ s safe. safe }))
          (λ _.
            Satisfies-weaken
              (record {
                run = λ s safe.
                    (validate-HaveTables (λ _. Unit {0}) (λ _ _ _. tt) sources).run s (tt, safe);
              })
              (λ _ s ((all, _), safe). all) (λ e s safe. safe))
