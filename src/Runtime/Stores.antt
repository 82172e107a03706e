-- ===== src/Runtime/Stores.antt =====
-- internal/runtime/worker.go and runtime.go: the stores of ingestion and of readback.
pub mod Balanced
pub mod Ingestion
use anaysitics_service.Base.{
  Bool, true, false, ◌&&◌, ◌||◌, not, ◌==◌, List, [], ◌∷◌, ◌++◌, Option, none, some, Result, ok,
  err, String, if◌then◌else◌,
}
use anaysitics_service.Base.Action.{◌>>=◌, ◌>>◌, give, stop, settled}
use anaysitics_service.Base.Text.{Text, Text_eq, text, is_empty, CaseTable}
use anaysitics_service.Config.{Config}
use anaysitics_service.ControlPlane.Validate.{failure}
use anaysitics_service.Runtime.Clients.{
  Client, click_house_query_pool, click_house_connection, mysql_probe, mysql_pool, StartError,
  failed, bad_schema, Call, ping, sql_db, build, build_table_router, build_query_builder, migrate,
  Libraries, Process, Assembling, perform, connect, close_client, or_close,
}
use anaysitics_service.Runtime.Options.{click_house_options}
use anaysitics_service.Runtime.Selectors.{query_builder_options}
use anaysitics_service.Runtime.Schema.{RoutingKey, ensure_click_house_tables}
use anaysitics_service.Runtime.TableWriter.{WriterError, TableWriter, WriterState}

-- The decorators around the batch writer, and whether the outermost one indexes properties.
pub data EventWriter : Type 0 where
  batch_writer : EventWriter
  property_indexing_writer property_cataloging_writer : EventWriter → EventWriter
  dynamic_table_ensuring_writer : EventWriter → Bool → EventWriter

pub record Processor : Type 0 where
  pub group : Text
  pub consumer : Text
  pub writer : EventWriter

-- propertyCatalogingRequiresExistingTable
unfoldable pub property_cataloging_requires_existing_table : Config → Bool
property_cataloging_requires_existing_table c = c.property_cataloging && not c.my_sql_auto_migrate

-- clickHouseQueryDSN
unfoldable pub click_house_query_dsn : Config → Text
click_house_query_dsn c =
    text "clickhouse://"
    ++ c.click_house_user
    ++ text ":"
    ++ c.click_house_password
    ++ text "@"
    ++ c.click_house_addr
    ++ text "/"
    ++ c.click_house_database
    ++ text "?dial_timeout=10s&read_timeout=20s"

module _ {W : Type 0} (libs : Libraries W) where
  -- `_ = client.Close()`
  abbrev pub dropped : Option StartError × Process W → Result StartError (Unit {0}) × Process W
  dropped (error, s) = (ok tt, s)

  unfoldable pub drop_client : Client → Assembling W (Unit {0})
  drop_client client s = dropped (close_client libs client s)

  -- openMySQL
  unfoldable pub open_mysql : Text → Assembling W Client
  open_mysql dsn = do
    probe ← connect libs (mysql_probe dsn)
    or_close libs probe (perform libs (ping probe))
    drop_client probe
    pool ← connect libs (mysql_pool dsn)
    perform libs (sql_db pool)
    give pool

  -- openClickHouseNative
  unfoldable pub open_click_house_native : Config → Assembling W Client
  open_click_house_native c = do
    conn ← connect libs (click_house_connection (click_house_options c))
    or_close libs conn (perform libs (ping conn))
    give conn

  -- openClickHouseQuery
  unfoldable pub open_click_house_query : Config → Assembling W Client
  open_click_house_query c = do
    pool ← connect libs (click_house_query_pool (click_house_query_dsn c))
    perform libs (sql_db pool)
    or_close libs pool (perform libs (ping pool))
    give pool

  abbrev pub table_answer : Process W → Bool × W → Result StartError (Unit {0}) × Process W
  table_answer s (true, world) = (ok tt, record s { world = world })
  table_answer s (false, world) = (
    err (failed (failure "mysql table is required when property cataloging is enabled")),
    record s { world = world },
  )

  -- requireMySQLTable, with the migrator of an open handle, which is not nil.
  unfoldable pub require_mysql_table : Text → Assembling W (Unit {0})
  require_mysql_table name s = table_answer s (libs.has_table name s.world)

  abbrev pub schema_checked :
      Process W
      → Result WriterError (Unit {0}) × WriterState W RoutingKey
      → Result StartError (Unit {0}) × Process W
  schema_checked s (ok a, t) = (ok tt, record s { world = t.world })
  schema_checked s (err e, t) = (err (bad_schema e), record s { world = t.world })

  -- ensureClickHouseTables, with the connection that was opened.
  unfoldable pub ensure_tables : ⦃cases : CaseTable⦄ → Config → Assembling W (Unit {0})
  ensure_tables c s =
      let writer : TableWriter W RoutingKey = record {
        warehouse = libs.warehouse;
        property_indexing = c.property_indexing;
      } in
      schema_checked s (
        ensure_click_house_tables writer c.click_house_auto_migrate c.sources
          (record { world = s.world; ensured = []; steps = [] }))

  -- A step that a setting turns on.
  abbrev pub only_if : Bool → Assembling W (Unit {0}) → Assembling W (Unit {0})
  only_if test m = if test then m else give tt

  unfoldable pub with_property_indexing : Config → EventWriter → Assembling W EventWriter
  with_property_indexing c writer = if not c.property_indexing then give writer else (do
    perform libs (build "property indexing status guard")
    only_if c.my_sql_auto_migrate (perform libs (migrate "property indexing status guard"))
    perform libs (build "property batch writer")
    perform libs (build "property indexing event writer")
    give (property_indexing_writer writer))

  unfoldable pub with_property_cataloging : Config → EventWriter → Assembling W EventWriter
  with_property_cataloging c writer = if not c.property_cataloging then give writer else (do
    perform libs (build "property catalog")
    if c.my_sql_auto_migrate
        then perform libs (migrate "property catalog")
        else only_if (property_cataloging_requires_existing_table c)
            (require_mysql_table (text "property_catalog"))
    perform libs (build "property cataloging event writer")
    give (property_cataloging_writer writer))

  -- newEventWriter
  unfoldable pub new_event_writer : ⦃cases : CaseTable⦄ → Config → Assembling W EventWriter
  new_event_writer c = do
    perform libs (build_table_router c.click_house_table_prefix)
    ensure_tables c
    perform libs (build "ingestion status guard")
    only_if c.my_sql_auto_migrate (perform libs (migrate "ingestion status guard"))
    perform libs (build "batch writer")
    indexed ← with_property_indexing c batch_writer
    writer ← with_property_cataloging c indexed
    if c.source_resolver == text "http" && c.ingestion_enabled
        then give (dynamic_table_ensuring_writer writer c.property_indexing)
        else give writer

  -- The error of a step as a value, since newIngestionProcessor returns its closers beside it.
  abbrev pub kept :
      {A : Type 0}
      → List Client
      → Result StartError A × Process W
      → Result StartError (Result StartError A × List Client) × Process W
  kept closers (r, s) = (ok (r, closers), s)

  abbrev pub keeping :
      {A : Type 0} → List Client → Assembling W A → Assembling W (Result StartError A × List Client)
  keeping closers m s = kept closers (m s)

  abbrev pub go_on :
      {A B : Type 0}
      → (A → List Client → Assembling W (Result StartError B × List Client))
      → Result StartError A × List Client
      → Assembling W (Result StartError B × List Client)
  go_on next (err e, closers) = give (err e, closers)
  go_on next (ok a, closers) = next a closers

  -- newIngestionProcessor
  unfoldable pub new_ingestion_processor :
      ⦃cases : CaseTable⦄
      → Config
      → List Client
      → Assembling W (Result StartError Processor × List Client)
  new_ingestion_processor c closers = do
    opened ← keeping closers (open_mysql c.my_sql_dsn)
    go_on
        (λ pool closers. do
          connected ← keeping (closers ++ (pool ∷ [])) (open_click_house_native c)
          go_on
              (λ conn closers. do
                written ← keeping (closers ++ (conn ∷ [])) (new_event_writer c)
                go_on
                    (λ writer closers. keeping closers (do
                      perform libs (build "processor")
                      give (record {
                        group = c.worker_group;
                        consumer = c.worker_consumer;
                        writer = writer;
                      })))
                    written)
              connected)
        opened

  -- What newQueryReader returns: a reader that stands for its connection, or nothing.
  unfoldable pub new_query_reader : ⦃cases : CaseTable⦄ → Config → Assembling W (Option Client)
  new_query_reader c = if not c.query_enabled then give none else (do
    pool ← open_click_house_query c
    or_close libs pool (perform libs (build_table_router c.click_house_table_prefix))
    or_close libs pool (perform libs (build_query_builder (query_builder_options c)))
    or_close libs pool (perform libs (build "event reader"))
    give (some pool))

  -- newPropertyCatalogReader
  unfoldable pub new_property_catalog_reader : Config → Assembling W (Option Client)
  new_property_catalog_reader c =
      if not c.query_enabled || is_empty c.my_sql_dsn then give none else (do
        pool ← open_mysql c.my_sql_dsn
        or_close libs pool (perform libs (build "property catalog"))
        or_close libs pool (
            if c.my_sql_auto_migrate
            then perform libs (migrate "property catalog")
            else require_mysql_table (text "property_catalog"))
        give (some pool))
