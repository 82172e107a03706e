-- ===== src/Main.antt =====
-- cmd/simpletrack-analytics-service/main.go: the life of the process.
pub mod Ended
use anaysitics_service.Base.{Bool, List, [], ◌∷◌, ◌++◌, Option, none, some, Result, ok, err}
use anaysitics_service.Base.Text.{Text, CaseTable}
use anaysitics_service.CollectApi.App.{Named}
use anaysitics_service.Config.{Environment, Config}
use anaysitics_service.Config.Load.{load_from_env}
use anaysitics_service.ControlPlane.Validate.{Error}
use anaysitics_service.Runtime.Assembly.{Parts, Runtime, new_runtime, close_runtime, start}
use anaysitics_service.Runtime.Clients.{StartError, Libraries, Process}

-- How Processor.Run returns: without an error, with context.Canceled, or with another error.
pub data WorkerEnd : Type 0 where
  finished canceled : WorkerEnd
  broken : Text → WorkerEnd

-- The case of the `select` that is taken.
pub data Selected : Type 0 where
  server_ended : Option Text → Selected
  worker_ended : WorkerEnd → Selected
  interrupted : Selected

-- The HTTP server, the worker and the signals, in a world W: the select, where the channel of a worker
-- that was not started is nil; Shutdown; and the wait for the server's result.
pub record Host (W : Type 0) : Type 0 where
  pub select : Bool → W → Selected × W
  pub shutdown : W → Option Text × W
  pub await_server : W → Option Text × W

-- log.Printf
pub data LogLine : Type 0 where
  shutdown_after_worker shutdown_server serve_failed : Text → LogLine
  close_failed : List StartError → LogLine

-- log.Fatalf
pub data Fatal : Type 0 where
  load_config : Error → Fatal
  build_runtime : StartError → Fatal
  serve_service run_worker : Text → Fatal

pub data Exit : Type 0 where
  returned : Exit
  fatal : Fatal → Exit

-- How a process ended, with its log.
pub record Ending (W : Type 0) : Type 0 where
  pub exit : Exit
  pub lines : List LogLine
  pub process : Process W

module _ {W : Type 0} ⦃cases : CaseTable⦄ (libs : Libraries W) (parts : Parts W)
    (host : Host W) where
  -- log.Fatalf exits at once: no deferred call is run.
  unfoldable pub exit_fatally : Fatal → Process W → Ending W
  exit_fatally f s = record { exit = fatal f; lines = []; process = s }

  unfoldable pub line_of : (Text → LogLine) → Option Text → List LogLine
  line_of f none = []
  line_of f (some e) = f e ∷ []

  unfoldable pub close_lines : List StartError → List LogLine
  close_lines [] = []
  close_lines (e ∷ es) = close_failed (e ∷ es) ∷ []

  -- A return from main runs the deferred Close.
  unfoldable pub return_closing : Runtime W → List LogLine → Process W → Ending W
  return_closing r lines s =
      let (errors, s') = close_runtime libs parts r s in
      record { exit = returned; lines = lines ++ close_lines errors; process = s' }

  unfoldable pub shut_down_after_worker : Runtime W → Process W → Ending W
  shut_down_after_worker r s =
      let (error, world) = host.shutdown s.world in
      return_closing r (line_of shutdown_after_worker error) (record s { world = world })

  unfoldable pub shut_down : Runtime W → Process W → Ending W
  shut_down r s =
      let (error, world) = host.shutdown s.world in
      let (result, world') = host.await_server world in
      return_closing r (line_of shutdown_server error ++ line_of serve_failed result)
        (record s { world = world' })

  -- The cases of the select.
  unfoldable pub on_selected : Runtime W → Selected → Process W → Ending W
  on_selected r (server_ended none) s = return_closing r [] s
  on_selected r (server_ended (some e)) s = exit_fatally (serve_service e) s
  on_selected r (worker_ended (broken e)) s = exit_fatally (run_worker e) s
  on_selected r (worker_ended finished) s = shut_down_after_worker r s
  on_selected r (worker_ended canceled) s = shut_down_after_worker r s
  on_selected r interrupted s = shut_down r s

  -- From the start of the worker on.
  unfoldable pub serve_until_selected : Runtime W → Process W → Ending W
  serve_until_selected r s =
      let (r', started) = start r in
      let (selected, world) = host.select r'.worker s.world in
      on_selected r' selected (record s { world = world })

  unfoldable pub run_assembled : Result StartError (Runtime W) × Process W → Ending W
  run_assembled (err e, s) = exit_fatally (build_runtime e) s
  run_assembled (ok r, s) = serve_until_selected r s

  unfoldable pub run_loaded : (List Named → List Named) → Result Error Config → Process W → Ending W
  run_loaded order (err e) s = exit_fatally (load_config e) s
  run_loaded order (ok c) s = run_assembled (new_runtime libs parts order c s)

  -- main
  unfoldable pub run_main : (List Named → List Named) → Environment → Process W → Ending W
  run_main order env s = run_loaded order (load_from_env env) s
