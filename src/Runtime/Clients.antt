-- ===== src/Runtime/Clients.antt =====
-- internal/runtime/runtime.go: the network clients that the assembly opens and closes.
pub mod Balanced
use anaysitics_service.Base.{
  ℕ, suc, nat_eq, List, [], ◌∷◌, ◌++◌, Option, none, some, Result, ok, err, if◌then◌else◌, Bool,
  String,
}
use anaysitics_service.Base.Action.{Action, ◌>>=◌, ◌>>◌, give, stop}
use anaysitics_service.Base.Text.{Text}
use anaysitics_service.CollectApi.App.{OptionsError}
use anaysitics_service.CollectApi.Storage.{PropertySelector}
use anaysitics_service.ControlPlane.Validate.{Error}
use anaysitics_service.Runtime.Options.{
  RedisOptions, RedisStreamOptions, KafkaOptions, ClickHouseOptions,
}
use anaysitics_service.Runtime.Schema.{RoutingKey}
use anaysitics_service.Runtime.TableWriter.{Warehouse, WriterError}

-- A kind of client, with what it is opened with.
pub data ClientKind : Type 0 where
  geoip_reader : Text → ClientKind
  redis_client : RedisOptions → ClientKind
  kafka_provider : KafkaOptions → ClientKind
  click_house_query_pool mysql_probe mysql_pool : Text → ClientKind
  click_house_connection : ClickHouseOptions → ClientKind

-- An io.Closer, numbered in the order in which the clients are opened.
pub record Client : Type 0 where
  pub kind : ClientKind
  pub number : ℕ

-- An error of the program, of the application's options, or of the routed tables.
pub data StartError : Type 0 where
  failed : Error → StartError
  bad_options : OptionsError → StartError
  bad_schema : WriterError → StartError

-- What is asked of libraries, besides the opening of a client, and may fail.
pub data Call : Type 0 where
  ping : Client → Call
  sql_db : Client → Call
  build : String → Call
  build_redis_bus : RedisStreamOptions → Call
  build_table_router : Text → Call
  build_query_builder : List (List PropertySelector) → Call
  migrate : String → Call
  read_file : Text → Call
  load_key_pair : Text → Text → Call

-- The libraries, in a world W: opening a client of a kind, the other calls, Close,
-- gorm's check for a table, and the routed tables.
pub record Libraries (W : Type 0) : Type 0 where
  pub connect : ClientKind → W → Result StartError (Unit {0}) × W
  pub perform : Call → W → Result StartError (Unit {0}) × W
  pub close : Client → W → Option StartError × W
  pub has_table : Text → W → Bool × W
  pub warehouse : Warehouse W RoutingKey

-- The world, the clients that are open, the last opened first, and the number of the next one.
pub record Process (W : Type 0) : Type 0 where
  pub world : W
  pub opened : List Client
  pub next : ℕ

abbrev pub Assembling : Type 0 → Type 0 → Type 0
Assembling W A = Action (Process W) StartError A

abbrev pub without_client : ℕ → List Client → List Client
without_client n [] = []
without_client n (c ∷ cs) =
    let rest = without_client n cs in if nat_eq c.number n then cs else c ∷ rest

-- A client that is there, or none.
abbrev pub optional_client : Option Client → List Client
optional_client none = []
optional_client (some client) = client ∷ []

module _ {W : Type 0} (libs : Libraries W) where
  abbrev pub performed :
      {A : Type 0} → Process W → Result StartError A × W → Result StartError A × Process W
  performed s (answer, world) = (answer, record s { world = world })

  -- A call that opens nothing.
  unfoldable pub perform : Call → Assembling W (Unit {0})
  perform call s = performed s (libs.perform call s.world)

  abbrev pub connected :
      ClientKind
      → Process W
      → Result StartError (Unit {0}) × W
      → Result StartError Client × Process W
  connected kind s (err e, world) = (err e, record s { world = world })
  connected kind s (ok _, world) =
      let client : Client = record { kind = kind; number = s.next } in
      (ok client, record { world = world; opened = client ∷ s.opened; next = suc s.next })

  -- A call that opens a client, unless it fails.
  unfoldable pub connect : ClientKind → Assembling W Client
  connect kind s = connected kind s (libs.connect kind s.world)

  -- Close, which may return an error, and releases the client all the same.
  abbrev pub closed : Client → Process W → Option StartError × W → Option StartError × Process W
  closed client s (error, world) =
      (error, record s { world = world; opened = without_client client.number s.opened })

  unfoldable pub close_client : Client → Process W → Option StartError × Process W
  close_client client s = closed client s (libs.close client s.world)

  abbrev pub to_list : Option StartError → List StartError
  to_list none = []
  to_list (some e) = e ∷ []

  -- closeAll, which joins the errors; no closer of the assembly is nil.
  unfoldable pub close_all : List Client → Process W → List StartError × Process W
  close_all [] s = ([], s)
  close_all (client ∷ rest) s =
      let (errors, s') = close_all rest s in
      let (error, s'') = close_client client s' in (errors ++ to_list error, s'')

  abbrev pub on_error :
      {A : Type 0}
      → (Process W → Process W)
      → Result StartError A × Process W
      → Result StartError A × Process W
  on_error clean (ok a, s) = (ok a, s)
  on_error clean (err e, s) = (err e, clean s)

  -- `if err != nil { _ = client.Close(); return err }`
  unfoldable pub or_close : {A : Type 0} → Client → Assembling W A → Assembling W A
  or_close client m s = on_error (λ s. (close_client client s).1) (m s)

  -- `if err != nil { _ = closeAll(closers); return err }`
  unfoldable pub or_close_all : {A : Type 0} → List Client → Assembling W A → Assembling W A
  or_close_all closers m s = on_error (λ s. (close_all closers s).1) (m s)
