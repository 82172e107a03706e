-- ===== src/Runtime/Stores/Ingestion.antt =====
-- internal/runtime/worker.go: the ingestion processor hands back the clients that it opened, whether or
-- not it fails.
use anaysitics_service.Base.{◌≡◌, sym, ◌∙◌, List, [], ◌∷◌, ◌++◌, Result, ok, err, not, ◌&&◌, ◌==◌}
use anaysitics_service.Base.Action.{Ends, Satisfies, Satisfies-bind}
use anaysitics_service.Base.Text.{text, CaseTable, Text_eq}
use anaysitics_service.Config.{Config}
use anaysitics_service.Runtime.Options.{click_house_options}
use anaysitics_service.Runtime.Clients.{
  Client, click_house_connection, StartError, ping, Libraries, Process, Assembling,
}
use anaysitics_service.Runtime.Clients.Balanced.{
  stacked, stacked-append, IsBalanced, perform-IsBalanced, connect-IsBalanced, or_close-IsBalanced,
}
use anaysitics_service.Runtime.Schema.{RoutingKey}
use anaysitics_service.Runtime.TableWriter.{WriterError, WriterState}
use anaysitics_service.Runtime.Stores.{
  EventWriter, open_mysql, open_click_house_native, schema_checked, ensure_tables,
  with_property_indexing, with_property_cataloging, new_event_writer, kept, keeping, go_on,
  new_ingestion_processor, property_cataloging_requires_existing_table, batch_writer,
}
use anaysitics_service.Runtime.Stores.Balanced.{
  HasHandles, IsPlain, then-IsPlain, give-IsPlain, if-IsPlain, require_mysql_table-IsPlain,
  open_mysql-IsBalanced,
}

module _ {W : Type 0} (libs : Libraries W) where
  ensure_tables-IsPlain : ⦃cases : CaseTable⦄ (c : Config) → IsPlain libs (ensure_tables libs c)
  unfolding ensure_tables
  ensure_tables-IsPlain c base = record { run = λ s h. ends s h _ }
    where
      ends :
          (s : Process W)
          → s.opened ≡ base
          → (o : Result WriterError (Unit {0}) × WriterState W RoutingKey)
          → Ends (λ _ s. s.opened ≡ base) (λ e s. s.opened ≡ base) (schema_checked libs s o)
      ends s h (ok a, t) = h
      ends s h (err e, t) = h

  -- The clients of a value, on top of the closers; the closers alone beside an error.
  abbrev pub Held :
      {A : Type 0}
      → (A → List Client)
      → List Client
      → Result StartError A × List Client
      → Process W
      → Type 0
  Held clients base (ok a, closers) s = s.opened ≡ stacked (clients a) (stacked closers base)
  Held clients base (err e, closers) s = s.opened ≡ stacked closers base

  abbrev Never : StartError → Process W → Type 0
  Never e s = ⊥

  keeping-Held :
      {A : Type 0} (clients : A → List Client) (closers : List Client) (m : Assembling W A)
      (base : List Client)
      → IsBalanced clients m
      → Satisfies
          (λ s. s.opened ≡ stacked closers base)
          (keeping libs closers m)
          (Held clients base)
          Never
  keeping-Held {A} clients closers m base h = record {
    run = λ s held. ends (m s) ((h (stacked closers base)).run s held);
  }
    where
      ends :
          (o : Result StartError A × Process W)
          → Ends
              (λ a s. s.opened ≡ stacked (clients a) (stacked closers base))
              (λ e s. s.opened ≡ stacked closers base)
              o
          → Ends (Held clients base) Never (kept libs closers o)
      ends (ok a, s) held = held
      ends (err e, s) held = held

  go_on-Held :
      {A B : Type 0} (clients : A → List Client) (base : List Client)
      (next : A → List Client → Assembling W (Result StartError B × List Client))
      → ((a : A) (closers : List Client)
          → Satisfies
              (λ s. s.opened ≡ stacked (clients a) (stacked closers base))
              (next a closers)
              (Held {A = B} (λ _. []) base)
              Never)
      → (o : Result StartError A × List Client)
      → Satisfies (Held clients base o) (go_on libs next o) (Held (λ _. []) base) Never
  go_on-Held clients base next h (ok a, closers) = h a closers
  go_on-Held clients base next h (err e, closers) = record { run = λ s held. held }

  open_click_house_native-IsBalanced :
      (c : Config) → IsBalanced (λ c. c ∷ []) (open_click_house_native libs c)
  unfolding open_click_house_native
  open_click_house_native-IsBalanced c base =
      Satisfies-bind (connect-IsBalanced libs (click_house_connection (click_house_options c)) base)
        (λ conn.
          Satisfies-bind
            (or_close-IsBalanced libs conn _ (perform-IsBalanced libs (ping conn)) base)
            (λ _. record { run = λ s h. h }))

  with_property_indexing-IsPlain :
      (c : Config) (writer : EventWriter) → IsPlain libs (with_property_indexing libs c writer)
  unfolding with_property_indexing
  with_property_indexing-IsPlain c writer =
      if-IsPlain libs (not c.property_indexing) (give-IsPlain libs _) (
        then-IsPlain libs (perform-IsBalanced libs _) (λ _.
          then-IsPlain libs
            (if-IsPlain libs c.my_sql_auto_migrate (perform-IsBalanced libs _)
              (give-IsPlain libs tt))
            (λ _.
              then-IsPlain libs (perform-IsBalanced libs _)
                (λ _. then-IsPlain libs (perform-IsBalanced libs _) (λ _. give-IsPlain libs _)))))

  with_property_cataloging-IsPlain :
      (c : Config) (writer : EventWriter) → IsPlain libs (with_property_cataloging libs c writer)
  unfolding with_property_cataloging
  with_property_cataloging-IsPlain c writer =
      if-IsPlain libs (not c.property_cataloging) (give-IsPlain libs _) (
        then-IsPlain libs (perform-IsBalanced libs _) (λ _.
          then-IsPlain libs
            (if-IsPlain libs c.my_sql_auto_migrate (perform-IsBalanced libs _) (
              if-IsPlain libs (property_cataloging_requires_existing_table c)
                (require_mysql_table-IsPlain libs _) (give-IsPlain libs tt)))
            (λ _. then-IsPlain libs (perform-IsBalanced libs _) (λ _. give-IsPlain libs _))))

  new_event_writer-IsPlain :
      ⦃cases : CaseTable⦄ (c : Config) → IsPlain libs (new_event_writer libs c)
  unfolding new_event_writer
  new_event_writer-IsPlain c = then-IsPlain libs (perform-IsBalanced libs _) (λ _.
      then-IsPlain libs (ensure_tables-IsPlain c) (λ _.
        then-IsPlain libs (perform-IsBalanced libs _) (λ _.
          then-IsPlain libs
            (if-IsPlain libs c.my_sql_auto_migrate (perform-IsBalanced libs _)
              (give-IsPlain libs tt))
            (λ _. then-IsPlain libs (perform-IsBalanced libs _) (λ _.
              then-IsPlain libs (with_property_indexing-IsPlain c batch_writer) (λ indexed.
                then-IsPlain libs (with_property_cataloging-IsPlain c indexed) (λ writer.
                  if-IsPlain libs (c.source_resolver == text "http" && c.ingestion_enabled)
                    (give-IsPlain libs _) (give-IsPlain libs _))))))))

  -- A step with one more closer.
  after_opening :
      {A : Type 0} (closers : List Client) (c : Client) (base : List Client) {m : Assembling W A}
      {Q : A → Process W → Type 0}
      → Satisfies (λ s. s.opened ≡ stacked (closers ++ (c ∷ [])) base) m Q Never
      → Satisfies (λ s. s.opened ≡ c ∷ stacked closers base) m Q Never
  after_opening closers c base h = record {
    run = λ s held. h.run s (held ∙ sym (stacked-append closers (c ∷ []) base));
  }

  pub new_ingestion_processor-Held :
      ⦃cases : CaseTable⦄
      → HasHandles libs
      → (c : Config) (closers base : List Client)
      → Satisfies
          (λ s. s.opened ≡ stacked closers base)
          (new_ingestion_processor libs c closers)
          (Held (λ _. []) base)
          Never
  unfolding new_ingestion_processor
  new_ingestion_processor-Held handles c closers base =
      Satisfies-bind
        (keeping-Held (λ c. c ∷ []) closers (open_mysql libs c.my_sql_dsn) base
          (open_mysql-IsBalanced libs handles c.my_sql_dsn))
        (go_on-Held (λ c. c ∷ []) base _
          (λ pool closers. after_opening closers pool base (
            Satisfies-bind
              (keeping-Held (λ c. c ∷ []) (closers ++ (pool ∷ [])) (open_click_house_native libs c)
                base (open_click_house_native-IsBalanced c))
              (go_on-Held (λ c. c ∷ []) base _
                (λ conn closers. after_opening closers conn base (
                  Satisfies-bind
                    (keeping-Held (λ _. []) (closers ++ (conn ∷ [])) (new_event_writer libs c) base
                      (new_event_writer-IsPlain c))
                    (go_on-Held (λ _. []) base _
                      (λ writer closers.
                        keeping-Held (λ _. []) closers _ base
                          (then-IsPlain libs (perform-IsBalanced libs _)
                            (λ _. give-IsPlain libs _))))))))))
