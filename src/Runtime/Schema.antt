-- ===== src/Runtime/Schema.antt =====
-- internal/runtime/worker.go: the routed tables of the sources that are enabled at startup.
pub mod Ensured
use anaysitics_service.Base.{Bool, true, false, List, [], ◌∷◌, if◌then◌else◌}
use anaysitics_service.Base.Action.{◌>>=◌, ◌>>◌, give, settled}
use anaysitics_service.Base.Text.{Text, CaseTable}
use anaysitics_service.ControlPlane.Source.{SourceConfig, normalize}
use anaysitics_service.Runtime.TableWriter.{TableWriter, Writing, exec, require_click_house_table}

-- clickhouse.RoutingKey
pub record RoutingKey : Type 0 where
  pub tenant_id : Text
  pub project_id : Text
  pub source_id : Text

unfoldable pub routing_key : SourceConfig → RoutingKey
routing_key source = record {
  tenant_id = source.tenant_id;
  project_id = source.project_id;
  source_id = source.source_id;
}

module _ {W : Type 0} (w : TableWriter W RoutingKey) where
  -- The statements for one source.
  unfoldable pub create_source_tables : SourceConfig → Writing W RoutingKey (Unit {0})
  create_source_tables source = do
    table ← settled (w.warehouse.route (routing_key source))
    event_ddl ← settled (w.warehouse.create_event_table_statement table)
    exec w event_ddl
    if w.property_indexing
        then (do
          property_ddl ← settled (w.warehouse.create_property_table_statement table)
          exec w property_ddl)
        else give tt

  -- The checks for one source.
  unfoldable pub validate_source_tables : SourceConfig → Writing W RoutingKey (Unit {0})
  validate_source_tables source = do
    table ← settled (w.warehouse.route (routing_key source))
    require_click_house_table w table
    if w.property_indexing
        then (do
          property_table ← settled (w.warehouse.property_table_for table)
          require_click_house_table w property_table)
        else give tt

  -- The body of a loop for a source that is enabled; it goes on with the next one if it is not.
  abbrev pub if_enabled :
      SourceConfig
      → (SourceConfig → Writing W RoutingKey (Unit {0}))
      → Writing W RoutingKey (Unit {0})
  if_enabled source body = if source.enabled then body source else give tt

  module _ ⦃cases : CaseTable⦄ where
    -- createClickHouseTables
    unfoldable pub create_click_house_tables : List SourceConfig → Writing W RoutingKey (Unit {0})
    create_click_house_tables [] = give tt
    create_click_house_tables (source ∷ rest) = do
      if_enabled (normalize source) create_source_tables
      create_click_house_tables rest

    -- validateClickHouseTables
    unfoldable pub validate_click_house_tables : List SourceConfig → Writing W RoutingKey (Unit {0})
    validate_click_house_tables [] = give tt
    validate_click_house_tables (source ∷ rest) = do
      if_enabled (normalize source) validate_source_tables
      validate_click_house_tables rest

    -- ensureClickHouseTables
    unfoldable pub ensure_click_house_tables :
        Bool → List SourceConfig → Writing W RoutingKey (Unit {0})
    ensure_click_house_tables auto_migrate sources =
        (if auto_migrate then create_click_house_tables sources else give tt) >>= λ _.
        validate_click_house_tables sources
