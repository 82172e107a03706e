-- ===== src/Runtime/Stores/Balanced.antt =====
-- internal/runtime/worker.go and runtime.go: the stores leave open what they return, and nothing when
-- they fail.
use anaysitics_service.Base.{Bool, true, false, ◌≡◌, List, [], ◌∷◌, ok, if◌then◌else◌, not, ◌||◌}
use anaysitics_service.Base.Action.{Ends, Satisfies, Satisfies-bind, Satisfies-if, ◌>>=◌, give}
use anaysitics_service.Base.Text.{Text, is_empty, Text_eq, CaseTable}
use anaysitics_service.Config.{Config}
use anaysitics_service.Runtime.Clients.{
  Client, click_house_query_pool, mysql_probe, mysql_pool, ping, sql_db, Libraries, Process,
  Assembling, perform, optional_client, or_close,
}
use anaysitics_service.Runtime.Clients.Balanced.{
  IsBalanced, close-top, perform-IsBalanced, connect-IsBalanced, or_close-IsBalanced,
}
use anaysitics_service.Runtime.Stores.{
  click_house_query_dsn, drop_client, open_mysql, open_click_house_query, table_answer,
  require_mysql_table, new_query_reader, new_property_catalog_reader,
}

-- The handle of an open gorm.DB is always found: DB() of gorm only fails for a pool of another type.
abbrev pub HasHandles : {W : Type 0} → Libraries W → Type 0
HasHandles {W} libs =
    (client : Client) (w : W) → (w' : W) × (libs.perform (sql_db client) w ≡ (ok tt, w'))

module _ {W : Type 0} (libs : Libraries W) where
  -- A step that opens and closes nothing.
  abbrev pub IsPlain : {A : Type 0} → Assembling W A → Type 0
  IsPlain m = IsBalanced (λ _. []) m

  pub then-IsPlain :
      {A B : Type 0} {m : Assembling W A} {f : A → Assembling W B}
      → IsPlain m
      → ((a : A) → IsPlain (f a))
      → IsPlain (m >>= f)
  then-IsPlain h k base = Satisfies-bind (h base) (λ a. k a base)

  pub give-IsPlain : {A : Type 0} (a : A) → IsPlain (give a)
  give-IsPlain a base = record { run = λ s h. h }

  pub if-IsPlain :
      {A : Type 0} {m k : Assembling W A} (test : Bool)
      → IsPlain m
      → IsPlain k
      → IsPlain (if test then m else k)
  if-IsPlain test h k base = Satisfies-if test (λ _. h base) (λ _. k base)

  drop-top :
      (client : Client) (base : List Client)
      → Satisfies
          (λ s. s.opened ≡ client ∷ base)
          (drop_client libs client)
          (λ _ s. s.opened ≡ base)
          (λ e s. s.opened ≡ base)
  unfolding drop_client
  drop-top client base = record { run = λ s h. close-top libs client base s h }

  pub require_mysql_table-IsPlain : (name : Text) → IsPlain (require_mysql_table libs name)
  unfolding require_mysql_table
  require_mysql_table-IsPlain name base = record {
    run = λ s h. ends s h (libs.has_table name s.world);
  }
    where
      ends :
          (s : Process W)
          → s.opened ≡ base
          → (o : Bool × W)
          → Ends (λ _ s. s.opened ≡ base) (λ e s. s.opened ≡ base) (table_answer libs s o)
      ends s h (true, world) = h
      ends s h (false, world) = h

  module _ (handles : HasHandles libs) where
    sql_db-held :
        (client : Client) (base : List Client)
        → Satisfies
            (λ s. s.opened ≡ client ∷ base)
            (perform libs (sql_db client))
            (λ _ s. s.opened ≡ client ∷ base)
            (λ e s. s.opened ≡ base)
    unfolding perform
    sql_db-held client base = record { run = λ s h. let (w', e) = handles client s.world in rw e h }

    pub open_mysql-IsBalanced : (dsn : Text) → IsBalanced (λ c. c ∷ []) (open_mysql libs dsn)
    unfolding open_mysql
    open_mysql-IsBalanced dsn base =
        Satisfies-bind (connect-IsBalanced libs (mysql_probe dsn) base) (λ probe.
          Satisfies-bind
            (or_close-IsBalanced libs probe _ (perform-IsBalanced libs (ping probe)) base)
            (λ _. Satisfies-bind (drop-top probe base) (λ _.
              Satisfies-bind (connect-IsBalanced libs (mysql_pool dsn) base)
                (λ pool. Satisfies-bind (sql_db-held pool base) (λ _. record { run = λ s h. h })))))

    open_click_house_query-IsBalanced :
        (c : Config) → IsBalanced (λ c. c ∷ []) (open_click_house_query libs c)
    unfolding open_click_house_query
    open_click_house_query-IsBalanced c base =
        Satisfies-bind
          (connect-IsBalanced libs (click_house_query_pool (click_house_query_dsn c)) base)
          (λ pool. Satisfies-bind (sql_db-held pool base) (λ _.
            Satisfies-bind
              (or_close-IsBalanced libs pool _ (perform-IsBalanced libs (ping pool)) base)
              (λ _. record { run = λ s h. h })))

    -- A step with the pool open, which closes it if it fails.
    guarded :
        {m : Assembling W (Unit {0})} (pool : Client) (base : List Client)
        → IsBalanced (λ _. []) m
        → Satisfies
            (λ s. s.opened ≡ pool ∷ base)
            (or_close libs pool m)
            (λ _ s. s.opened ≡ pool ∷ base)
            (λ e s. s.opened ≡ base)
    guarded pool base h = or_close-IsBalanced libs pool _ h base

    pub new_query_reader-IsBalanced :
        ⦃cases : CaseTable⦄ (c : Config) → IsBalanced optional_client (new_query_reader libs c)
    unfolding new_query_reader
    new_query_reader-IsBalanced c base =
        Satisfies-if (not c.query_enabled) (λ _. record { run = λ s h. h })
          (λ _. Satisfies-bind (open_click_house_query-IsBalanced c base) (λ pool.
            Satisfies-bind (guarded pool base (perform-IsBalanced libs _)) (λ _.
              Satisfies-bind (guarded pool base (perform-IsBalanced libs _)) (λ _.
                Satisfies-bind (guarded pool base (perform-IsBalanced libs _))
                  (λ _. record { run = λ s h. h })))))

    pub new_property_catalog_reader-IsBalanced :
        (c : Config) → IsBalanced optional_client (new_property_catalog_reader libs c)
    unfolding new_property_catalog_reader
    new_property_catalog_reader-IsBalanced c base =
        Satisfies-if (not c.query_enabled || is_empty c.my_sql_dsn) (λ _. record { run = λ s h. h })
          (λ _. Satisfies-bind (open_mysql-IsBalanced c.my_sql_dsn base) (λ pool.
            Satisfies-bind (guarded pool base (perform-IsBalanced libs _)) (λ _.
              Satisfies-bind
                (guarded pool base (
                  if-IsPlain c.my_sql_auto_migrate (perform-IsBalanced libs _)
                    (require_mysql_table-IsPlain _)))
                (λ _. record { run = λ s h. h }))))
