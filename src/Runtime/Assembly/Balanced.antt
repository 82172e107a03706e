-- ===== src/Runtime/Assembly/Balanced.antt =====
-- internal/runtime/runtime.go: the assembly closes what it opened if it fails, and Close closes the rest.
use anaysitics_service.Base.{◌≡◌, refl, sym, ◌∙◌, List, [], ◌++◌, Result, ok, err}
use anaysitics_service.Base.Action.{Ends, Satisfies, Satisfies-bind, Satisfies-if, Satisfies-weaken}
use anaysitics_service.Base.Text.{is_empty, trim_space, CaseTable}
use anaysitics_service.CollectApi.App.{Named}
use anaysitics_service.Config.{Config}
use anaysitics_service.Runtime.Bus.{bus_closers}
use anaysitics_service.Runtime.Bus.Balanced.{new_event_bus-IsBalanced}
use anaysitics_service.Runtime.Clients.{
  Client, geoip_reader, StartError, read_file, Libraries, Process, Assembling, or_close_all,
  optional_client,
}
use anaysitics_service.Runtime.Clients.Balanced.{
  stacked, stacked-append, IsBalanced, perform-IsBalanced, connect-IsBalanced, settled-IsBalanced,
  or_close_all-IsBalanced, close_all-stacked,
}
use anaysitics_service.Runtime.Stores.{Processor}
use anaysitics_service.Runtime.Stores.Balanced.{
  HasHandles, new_query_reader-IsBalanced, new_property_catalog_reader-IsBalanced,
}
use anaysitics_service.Runtime.Stores.Ingestion.{Held, new_ingestion_processor-Held}
use anaysitics_service.Runtime.Assembly.{
  Parts, Runtime, new_geo_resolver, open_parts, processor_or_close, new_processor, new_runtime,
  close_runtime,
}

module _ {W : Type 0} ⦃cases : CaseTable⦄ (libs : Libraries W) (parts : Parts W) where
  new_geo_resolver-IsBalanced :
      (c : Config) → IsBalanced optional_client (new_geo_resolver libs parts c)
  unfolding new_geo_resolver
  new_geo_resolver-IsBalanced c base =
      Satisfies-if (is_empty c.geoip_mmdb_file) (λ _. record { run = λ s h. h })
        (λ _.
          Satisfies-bind
            (connect-IsBalanced libs (geoip_reader (trim_space c.geoip_mmdb_file)) base)
            (λ client. record { run = λ s h. h }))

  -- The next step has the new clients among its closers.
  extended :
      {A : Type 0} (closers more base : List Client) {m : Assembling W A}
      {Q : A → Process W → Type 0} {X : StartError → Process W → Type 0}
      → Satisfies (λ s. s.opened ≡ stacked (closers ++ more) base) m Q X
      → Satisfies (λ s. s.opened ≡ stacked more (stacked closers base)) m Q X
  extended closers more base h = record {
    run = λ s held. h.run s (held ∙ sym (stacked-append closers more base));
  }

  open_parts-IsBalanced :
      HasHandles libs → (c : Config) → IsBalanced (λ o. o.closers) (open_parts libs parts c)
  unfolding open_parts
  open_parts-IsBalanced handles c base =
      Satisfies-bind (settled-IsBalanced libs _ base) (λ resolver.
        Satisfies-bind
          (or_close_all-IsBalanced libs optional_client [] _ (new_geo_resolver-IsBalanced c) base)
          (λ geo.
            let with_geo = optional_client geo in
            Satisfies-bind
              (or_close_all-IsBalanced libs bus_closers with_geo _ (new_event_bus-IsBalanced libs c)
                base)
              (λ bus.
                let with_bus = with_geo ++ bus_closers bus in
                extended with_geo (bus_closers bus) base (
                  Satisfies-bind
                    (or_close_all-IsBalanced libs (λ _. []) with_bus _ (settled-IsBalanced libs _)
                      base)
                    (λ _.
                      Satisfies-bind
                        (or_close_all-IsBalanced libs (λ _. []) with_bus _
                          (settled-IsBalanced libs _) base)
                        (λ _.
                          Satisfies-bind
                            (or_close_all-IsBalanced libs (λ _. []) with_bus _
                              (perform-IsBalanced libs (read_file c.tracker_file)) base)
                            (λ _.
                              Satisfies-bind
                                (or_close_all-IsBalanced libs optional_client with_bus _
                                  (new_query_reader-IsBalanced libs handles c) base)
                                (λ reader.
                                  let with_reader = with_bus ++ optional_client reader in
                                  extended with_bus (optional_client reader) base (
                                    Satisfies-bind
                                      (or_close_all-IsBalanced libs optional_client with_reader _
                                        (new_property_catalog_reader-IsBalanced libs handles c)
                                        base)
                                      (λ catalog.
                                        extended with_reader (optional_client catalog) base
                                          (record { run = λ s h. h })))))))))))

  processor_or_close-balanced :
      (base : List Client) (o : Result StartError Processor × List Client)
      → Satisfies
          (Held libs (λ _. []) base o)
          (processor_or_close libs parts o)
          (λ (p, closers) s. s.opened ≡ stacked closers base)
          (λ e s. s.opened ≡ base)
  unfolding processor_or_close or_close_all
  processor_or_close-balanced base (ok p, closers) = record { run = λ s h. h }
  processor_or_close-balanced base (err e, closers) = record {
    run = λ s held. close_all-stacked libs closers base s held;
  }

  new_processor-balanced :
      HasHandles libs
      → (c : Config) (closers base : List Client)
      → Satisfies
          (λ s. s.opened ≡ stacked closers base)
          (new_processor libs parts c closers)
          (λ (p, closers) s. s.opened ≡ stacked closers base)
          (λ e s. s.opened ≡ base)
  unfolding new_processor
  new_processor-balanced handles c closers base =
      Satisfies-if c.ingestion_enabled
        (λ _.
          Satisfies-bind
            (Satisfies-weaken (new_ingestion_processor-Held libs handles c closers base)
              (λ o s held. held) (λ e s never. absurd never))
            (processor_or_close-balanced base))
        (λ _. record { run = λ s h. h })

  new_runtime-IsBalanced :
      HasHandles libs
      → (order : List Named → List Named) (c : Config)
      → IsBalanced (λ r. r.closers) (new_runtime libs parts order c)
  unfolding new_runtime
  new_runtime-IsBalanced handles order c base =
      Satisfies-bind (open_parts-IsBalanced handles c base) (λ opened.
        Satisfies-bind
          (or_close_all-IsBalanced libs (λ _. []) opened.closers _ (settled-IsBalanced libs _) base)
          (λ app.
            Satisfies-bind (new_processor-balanced handles c opened.closers base)
              (λ processor. record { run = λ s h. h })))

  -- How the clients stand after the assembly.
  abbrev pub Unwinds : Process W → Result StartError (Runtime W) × Process W → Type 0
  Unwinds before (err e, s) = s.opened ≡ before.opened
  Unwinds before (ok r, s) =
      (s.opened ≡ stacked r.closers before.opened)
      × ((close_runtime libs parts r s).1.opened ≡ before.opened)

  -- An assembly that fails, at whichever step, has closed every client that it opened. One that succeeds
  -- leaves open exactly the clients that the runtime holds, and Close closes them all, whether or not
  -- closing returns errors; given that gorm finds the handle of a pool that it opened.
  pub new_runtime-Unwinds :
      HasHandles libs
      → (order : List Named → List Named) (c : Config) (s : Process W)
      → Unwinds s (new_runtime libs parts order c s)
  unfolding close_runtime
  new_runtime-Unwinds handles order c s =
      unwinds (new_runtime libs parts order c s)
        ((new_runtime-IsBalanced handles order c s.opened).run s refl)
    where
      unwinds :
          (o : Result StartError (Runtime W) × Process W)
          → Ends (λ r t. t.opened ≡ stacked r.closers s.opened) (λ e t. t.opened ≡ s.opened) o
          → Unwinds s o
      unwinds (ok r, t) held = (held, close_all-stacked libs r.closers s.opened t held)
      unwinds (err e, t) held = held
