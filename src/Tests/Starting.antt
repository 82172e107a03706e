-- ===== src/Tests/Starting.antt =====
-- internal/runtime at a concrete configuration and concrete libraries.
use mathlib.Core.List.Perm
use anaysitics_service.Base.{ℕ, suc, ◌≡◌, refl, true, [], ◌∷◌, ◌++◌, none, some, Result, ok, err}
use anaysitics_service.Base.Action.{Satisfies}
use anaysitics_service.Base.Text.{text}
use anaysitics_service.Base.Text.Case.{ascii_table}
use anaysitics_service.CollectApi.Credentials.{normalize_query_credentials}
use anaysitics_service.Config.{Config}
use anaysitics_service.Config.Credentials.{query_token_values}
use anaysitics_service.ControlPlane.Validate.{failure, source_not_found}
use anaysitics_service.Runtime.Assembly.{Parts, Opened, new_runtime}
use anaysitics_service.Runtime.Assembly.Balanced.{Unwinds, new_runtime-Unwinds}
use anaysitics_service.Runtime.Bus.{kafka_bus}
use anaysitics_service.Runtime.Clients.{
  ClientKind, kafka_provider, click_house_query_pool, StartError, failed, Call, ping, Libraries,
  Process,
}
use anaysitics_service.Runtime.Credentials.{to_query_credentials}
use anaysitics_service.Runtime.Credentials.Accepted.{normalize-AreKept}
use anaysitics_service.Runtime.Credentials.Kept.{AreKept}
use anaysitics_service.Runtime.KafkaStats.{Stats}
use anaysitics_service.Runtime.Options.{kafka_options}
use anaysitics_service.Runtime.Resolver.{memory_resolver}
use anaysitics_service.Runtime.Schema.{RoutingKey, ensure_click_house_tables}
use anaysitics_service.Runtime.Schema.Ensured.{HaveTables, ensure_click_house_tables-HaveTables}
use anaysitics_service.Runtime.Stores.Balanced.{HasHandles}
use anaysitics_service.Runtime.TableWriter.{Warehouse, TableWriter}
use anaysitics_service.Runtime.TableWriter.Ordered.{IsSafe}
use anaysitics_service.Tests.Apps.{net}
use anaysitics_service.Tests.Configs.{env, config, credentials, found_credentials}
use anaysitics_service.Tests.Kafka.{snapshot}
use anaysitics_service.Tests.Places.{cities}
use anaysitics_service.Tests.Readback.{reader, catalog}
use anaysitics_service.Tests.Runs.{schema_runs, assembly_runs}
use anaysitics_service.Tests.Sources.{shop}

normalize-AreKept_example : AreKept credentials (
    normalize_query_credentials
      (text "tok_1")
      (query_token_values credentials)
      (to_query_credentials credentials))
normalize-AreKept_example = normalize-AreKept env (text "tok_1") credentials found_credentials

abbrev warehouse : Warehouse ℕ RoutingKey
warehouse = record {
  route = λ key. ok (text "events_" ++ key.source_id);
  create_event_table_statement = λ table. ok (text "CREATE " ++ table);
  create_property_table_statement = λ table. ok (text "CREATE P_" ++ table);
  property_table_for = λ table. ok (text "p_" ++ table);
  exec = λ statement w. (ok tt, suc w);
  count_tables = λ table w. (ok 1, suc w);
  write = λ envelope w. (ok 7, suc w);
}

abbrev tables : TableWriter ℕ RoutingKey
tables = record { warehouse = warehouse; property_indexing = true }

all_there :
    (ensure_click_house_tables tables true
      (shop ∷ [])
      (record { world = 0; ensured = []; steps = [] })).0
    ≡ ok tt
unfolding schema_runs
all_there = refl

ensure_click_house_tables-HaveTables_example :
    Satisfies
      (IsSafe tables)
      (ensure_click_house_tables tables true (shop ∷ []))
      (λ _ s. HaveTables tables (shop ∷ []) s.steps)
      (λ e s. IsSafe tables s)
ensure_click_house_tables-HaveTables_example =
    ensure_click_house_tables-HaveTables tables true (shop ∷ [])

abbrev stats : Stats
stats = record {
  topic = snapshot.topic;
  dead_letter_topic = snapshot.dead_letter_topic;
  worker_pool = snapshot.worker_pool;
  completion_gate = snapshot.completion_gate;
  commits = [];
  paused = snapshot.paused;
  metrics = snapshot.metrics;
}

abbrev pub parts : Parts ℕ
parts = record {
  addressing = record net {
    parse_url = λ s. some (record { scheme = text "https"; host = text "saas.test" });
  };
  contents = λ file. text "//";
  resolves = λ r key w. (err source_not_found, w);
  reads = λ client. reader;
  catalogs = λ client. catalog;
  stats = λ client w. (stats, w);
  geo_reader = λ client. cities;
  walk_names = λ names. names;
}

-- A token for readback, from a Kafka deployment that also reads.
abbrev opened : Opened ℕ
opened = record {
  resolver = memory_resolver (record { sources = [] });
  bus = kafka_bus (record { kind = kafka_provider (kafka_options config none); number = 0 });
  kafka_diagnostics = none;
  kafka_metrics = some (λ w. (none, w));
  geo = none;
  query_reader = none;
  property_catalog = none;
  closers = [];
}

-- Every call succeeds, but ClickHouse does not answer when it is pinged.
abbrev ping_answer : ClientKind → ℕ → Result StartError (Unit {0}) × ℕ
ping_answer (click_house_query_pool dsn) w = (err (failed (failure "ping")), w)
ping_answer kind w = (ok tt, suc w)

abbrev answer : Call → ℕ → Result StartError (Unit {0}) × ℕ
answer (ping client) w = ping_answer client.kind w
answer call w = (ok tt, suc w)

abbrev pub libs : Libraries ℕ
libs = record {
  connect = λ kind w. (ok tt, suc w);
  perform = answer;
  close = λ client w. (none, suc w);
  has_table = λ name w. (true, w);
  warehouse = warehouse;
}

pub handles : HasHandles libs
handles client w = (suc w, refl)

abbrev reading : Config
reading = record config { query_enabled = true }

abbrev pub idle : Process ℕ
idle = record { world = 0; opened = []; next = 0 }

closed_again : (new_runtime libs parts (λ paths. paths) reading idle).1.opened ≡ []
unfolding assembly_runs
closed_again = refl

two_opened : (new_runtime libs parts (λ paths. paths) reading idle).1.next ≡ 2
unfolding assembly_runs
two_opened = refl

left_open :
    (new_runtime libs parts (λ paths. paths) config idle).1.opened
    ≡ record { kind = kafka_provider (kafka_options config none); number = 0 } ∷ []
unfolding assembly_runs
left_open = refl

new_runtime-Unwinds_example :
    Unwinds libs parts idle (new_runtime libs parts (λ paths. paths) reading idle)
new_runtime-Unwinds_example = new_runtime-Unwinds libs parts handles (λ paths. paths) reading idle
