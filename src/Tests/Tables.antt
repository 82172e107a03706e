-- ===== src/Tests/Tables.antt =====
-- internal/runtime/dynamic_table_writer.go at a concrete warehouse.
use anaysitics_service.Base.{ℕ, suc, ◌≡◌, refl, true, [], ◌∷◌, ◌++◌, ok}
use anaysitics_service.Base.Text.{Text_eq, Text, text}
use anaysitics_service.Tests.Runs.{table_runs}
use anaysitics_service.Runtime.TableWriter.{
  Warehouse, TableWriter, WriterState, executed, found, wrote, write_event,
}
use anaysitics_service.Runtime.TableWriter.Once.{write_event_twice}
use anaysitics_service.Runtime.TableWriter.Ordered.{IsSafe, write_event-IsSafe}

-- An envelope is the name of its source.
abbrev warehouse : Warehouse ℕ Text
warehouse = record {
  route = λ envelope. ok (text "events_" ++ envelope);
  create_event_table_statement = λ table. ok (text "CREATE " ++ table);
  create_property_table_statement = λ table. ok (text "CREATE P_" ++ table);
  property_table_for = λ table. ok (text "p_" ++ table);
  exec = λ statement w. (ok tt, suc w);
  count_tables = λ table w. (ok 1, suc w);
  write = λ envelope w. (ok 7, suc w);
}

abbrev writer : TableWriter ℕ Text
writer = record { warehouse = warehouse; property_indexing = true }

abbrev start : WriterState ℕ Text
start = record { world = 0; ensured = []; steps = [] }

first_write :
    (write_event writer (text "a") start).1.steps
    ≡ wrote (text "a")
      ∷ found (text "p_events_a")
      ∷ executed (text "CREATE P_events_a")
      ∷ found (text "events_a")
      ∷ executed (text "CREATE events_a")
      ∷ []
unfolding table_runs
first_write = refl

second_write :
    (write_event writer (text "a") (write_event writer (text "a") start).1).1.steps
    ≡ wrote (text "a") ∷ (write_event writer (text "a") start).1.steps
unfolding table_runs
second_write = refl

write_event-IsSafe_example : IsSafe writer (write_event writer (text "a") start).1
write_event-IsSafe_example = write_event-IsSafe writer (text "a") start (tt, tt)

events_a : writer.warehouse.route (text "a") ≡ ok (text "events_a")
unfolding table_runs
events_a = refl

written_a : (write_event writer (text "a") start).0 ≡ ok 7
unfolding table_runs
written_a = refl

write_event_twice_example :
    let s' = (write_event writer (text "a") start).1 in
    write_event writer (text "a") s' ≡ (
      ok 7,
      record { world = suc s'.world; ensured = s'.ensured; steps = wrote (text "a") ∷ s'.steps },
    )
write_event_twice_example =
    write_event_twice writer (text "a") (text "a") start (text "events_a") 7 events_a events_a
      written_a
