-- ===== src/Main/Ended.antt =====
-- cmd/simpletrack-analytics-service/main.go: what is left open when the process ends.
use anaysitics_service.Base.{
  ◌≡◌, refl, sym, ap, ◌∙◌, List, none, some, Result, ok, err, Option-cases, Bool-cases, inl, inr,
}
use anaysitics_service.Base.Text.{CaseTable}
use anaysitics_service.CollectApi.App.{Named}
use anaysitics_service.Config.{Environment, Config}
use anaysitics_service.Config.Load.{load_from_env}
use anaysitics_service.ControlPlane.Validate.{Error}
use anaysitics_service.Runtime.Assembly.{Parts, Runtime, new_runtime, close_runtime, start}
use anaysitics_service.Runtime.Assembly.Balanced.{Unwinds, new_runtime-Unwinds}
use anaysitics_service.Runtime.Clients.{Client, StartError, Libraries, Process}
use anaysitics_service.Runtime.Clients.Balanced.{stacked, close_all-stacked}
use anaysitics_service.Runtime.Stores.Balanced.{HasHandles}
use anaysitics_service.Main.{
  Selected, server_ended, worker_ended, interrupted, finished, canceled, broken, Host, load_config,
  build_runtime, serve_service, run_worker, Exit, returned, fatal, exit_fatally, return_closing,
  shut_down_after_worker, shut_down, on_selected, serve_until_selected, run_assembled, run_loaded,
  run_main,
}

start-closers : {W : Type 0} (r : Runtime W) → (start r).0.closers ≡ r.closers
unfolding start
start-closers r = elim (Option-cases r.processor) [
  | inl p ↦ rw p refl
  | inr (processor, p) ↦ elim (Bool-cases r.worker) [
    | inl q ↦ rw (p, q) refl
    | inr q ↦ rw (p, q) refl
  ]
]

module _ {W : Type 0} ⦃cases : CaseTable⦄ (libs : Libraries W) (parts : Parts W)
    (host : Host W) where
  -- What is open at an exit: an exit at log.Fatalf keeps the clients of the runtime, if it was built.
  abbrev Kept : List Client → List Client → Exit → Process W → Type 0
  Kept closers base returned s = s.opened ≡ base
  Kept closers base (fatal (load_config e)) s = s.opened ≡ base
  Kept closers base (fatal (build_runtime e)) s = s.opened ≡ base
  Kept closers base (fatal (serve_service e)) s = s.opened ≡ stacked closers base
  Kept closers base (fatal (run_worker e)) s = s.opened ≡ stacked closers base

  on_selected-Kept :
      (r : Runtime W) (selected : Selected) (base : List Client) (s : Process W)
      → s.opened ≡ stacked r.closers base
      → (let ended = on_selected libs parts host r selected s in
          Kept r.closers base ended.exit ended.process)
  unfolding on_selected exit_fatally return_closing close_runtime shut_down_after_worker shut_down
  on_selected-Kept r (server_ended none) base s h = close_all-stacked libs r.closers base s h
  on_selected-Kept r (server_ended (some e)) base s h = h
  on_selected-Kept r (worker_ended (broken e)) base s h = h
  on_selected-Kept r (worker_ended finished) base s h = close_all-stacked libs r.closers base _ h
  on_selected-Kept r (worker_ended canceled) base s h = close_all-stacked libs r.closers base _ h
  on_selected-Kept r interrupted base s h = close_all-stacked libs r.closers base _ h

  -- The runtime that New built for the configuration of the environment.
  abbrev pub IsBuilt : (List Named → List Named) → Environment → Process W → Runtime W → Type 0
  IsBuilt order env s r =
      (c : Config) × (load_from_env env ≡ ok c)
      × ((t : Process W) × (new_runtime libs parts order c s ≡ (ok r, t)))

  -- The clients that are open when the process has ended.
  abbrev pub Leaves :
      (List Named → List Named) → Environment → Process W → Exit → Process W → Type 0
  Leaves order env before returned s = s.opened ≡ before.opened
  Leaves order env before (fatal (load_config e)) s = s.opened ≡ before.opened
  Leaves order env before (fatal (build_runtime e)) s = s.opened ≡ before.opened
  Leaves order env before (fatal (serve_service e)) s =
      (r : Runtime W) × IsBuilt order env before r × (s.opened ≡ stacked r.closers before.opened)
  Leaves order env before (fatal (run_worker e)) s =
      (r : Runtime W) × IsBuilt order env before r × (s.opened ≡ stacked r.closers before.opened)

  Leaves-Kept :
      (order : List Named → List Named) (env : Environment) (before : Process W) (r : Runtime W)
      (closers : List Client)
      → IsBuilt order env before r
      → closers ≡ r.closers
      → (exit : Exit) (s : Process W) → Kept closers before.opened exit s
      → Leaves order env before exit s
  Leaves-Kept order env before r closers built same returned s h = h
  Leaves-Kept order env before r closers built same (fatal (load_config e)) s h = h
  Leaves-Kept order env before r closers built same (fatal (build_runtime e)) s h = h
  Leaves-Kept order env before r closers built same (fatal (serve_service e)) s h =
      (r, built, h ∙ ap (λ cs. stacked cs before.opened) same)
  Leaves-Kept order env before r closers built same (fatal (run_worker e)) s h =
      (r, built, h ∙ ap (λ cs. stacked cs before.opened) same)

  run_assembled-Leaves :
      (order : List Named → List Named) (env : Environment) (before : Process W) (c : Config)
      → load_from_env env ≡ ok c
      → (o : Result StartError (Runtime W) × Process W) → new_runtime libs parts order c before ≡ o
      → Unwinds libs parts before o
      → (let ended = run_assembled libs parts host o in
          Leaves order env before ended.exit ended.process)
  unfolding run_assembled serve_until_selected exit_fatally
  run_assembled-Leaves order env before c loads (err e, s) made unwound = unwound
  run_assembled-Leaves order env before c loads (ok r, s) made (held, closable) =
      Leaves-Kept order env before r (start r).0.closers (c, loads, (s, made)) (start-closers r) _ _
        (on_selected-Kept (start r).0 (host.select (start r).0.worker s.world).0 before.opened _
          (held ∙ ap (λ cs. stacked cs before.opened) (sym (start-closers r))))

  -- When main has returned, or has failed to load the configuration or to build the runtime, every
  -- client that was opened is closed again. Only where serving or the worker has failed, which ends the
  -- process at log.Fatalf, exactly the clients of the runtime that New built are still open.
  pub run_main-Leaves :
      HasHandles libs
      → (order : List Named → List Named) (env : Environment) (s : Process W)
      → Leaves order env s
          (run_main libs parts host order env s).exit
          (run_main libs parts host order env s).process
  unfolding run_main run_loaded exit_fatally
  run_main-Leaves handles order env s = loaded (load_from_env env) refl
    where
      loaded :
          (o : Result Error Config)
          → load_from_env env ≡ o
          → Leaves order env s
              (run_loaded libs parts host order o s).exit
              (run_loaded libs parts host order o s).process
      loaded (err e) h = refl
      loaded (ok c) h =
          run_assembled-Leaves order env s c h (new_runtime libs parts order c s) refl
            (new_runtime-Unwinds libs parts handles order c s)
