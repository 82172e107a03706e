-- ===== src/Tests/Processes.antt =====
-- cmd/simpletrack-analytics-service/main.go at a concrete environment.
use anaysitics_service.Base.{ℕ, suc, ◌≡◌, refl, [], ◌∷◌, none, some}
use anaysitics_service.Base.Text.{text}
use anaysitics_service.Base.Text.Case.{ascii_table}
use anaysitics_service.Main.{Selected, interrupted, server_ended, Host, shutdown_server, run_main}
use anaysitics_service.Main.Ended.{Leaves, run_main-Leaves}
use anaysitics_service.Runtime.Clients.{kafka_provider}
use anaysitics_service.Runtime.Options.{kafka_options}
use anaysitics_service.Tests.Configs.{env, config}
use anaysitics_service.Tests.Runs.{main_runs}
use anaysitics_service.Tests.Starting.{parts, libs, handles, idle}

-- The first select sees the event; the server does not shut down in time.
abbrev host_with : Selected → Host ℕ
host_with selected = record {
  select = λ started w. (selected, suc w);
  shutdown = λ w. (some (text "timeout"), suc w);
  await_server = λ w. (none, suc w);
}

closed_on_a_signal :
    (run_main libs parts (host_with interrupted) (λ paths. paths) env idle).process.opened ≡ []
unfolding main_runs
closed_on_a_signal = refl

logged_on_a_signal :
    (run_main libs parts (host_with interrupted) (λ paths. paths) env idle).lines
    ≡ shutdown_server (text "timeout") ∷ []
unfolding main_runs
logged_on_a_signal = refl

-- The address is in use: the provider is not closed.
open_on_a_failure :
    (run_main libs parts
      (host_with (server_ended (some (text "bind"))))
      (λ paths. paths)
      env
      idle).process.opened
    ≡ record { kind = kafka_provider (kafka_options config none); number = 0 } ∷ []
unfolding main_runs
open_on_a_failure = refl

run_main-Leaves_example :
    Leaves libs parts
      (host_with interrupted)
      (λ paths. paths)
      env
      idle
      (run_main libs parts (host_with interrupted) (λ paths. paths) env idle).exit
      (run_main libs parts (host_with interrupted) (λ paths. paths) env idle).process
run_main-Leaves_example =
    run_main-Leaves libs parts (host_with interrupted) handles (λ paths. paths) env idle
