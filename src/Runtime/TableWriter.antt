-- ===== src/Runtime/TableWriter.antt =====
-- internal/runtime/dynamic_table_writer.go: DynamicTableEnsuringWriter, which creates and checks the
-- routed tables before the first write to them.
pub mod Ordered
pub mod Once
pub mod Built
use anaysitics_service.Base.{
  ℕ, Bool, true, false, contains, nat_eq, List, [], ◌∷◌, Result, ok, err, if◌then◌else◌,
}
use anaysitics_service.Base.Action.{Action, ◌>>=◌, ◌>>◌, give, stop, settled}
use anaysitics_service.Base.Text.{Text, Text_eq}

-- An error of a library, or a table that is missing.
pub data WriterError : Type 0 where
  library_error : ℕ → WriterError
  table_required : Text → WriterError

-- The router and the statements of analytics-core, the connection, and the inner writer, in a world
-- W. A routed table stands for its physical name.
pub record Warehouse (W Envelope : Type 0) : Type 0 where
  pub route : Envelope → Result WriterError Text
  pub create_event_table_statement : Text → Result WriterError Text
  pub create_property_table_statement : Text → Result WriterError Text
  pub property_table_for : Text → Result WriterError Text
  pub exec : Text → W → Result WriterError (Unit {0}) × W
  pub count_tables : Text → W → Result WriterError ℕ × W
  pub write : Envelope → W → Result WriterError ℕ × W

pub record TableWriter (W Envelope : Type 0) : Type 0 where
  pub warehouse : Warehouse W Envelope
  pub property_indexing : Bool

-- What was done: a table found in the catalog, or an envelope handed to the inner writer.
pub data Step (Envelope : Type 0) : Type 0 where
  executed : Text → Step Envelope
  found : Text → Step Envelope
  wrote : Envelope → Step Envelope

-- The world, the set of ensured tables, and the steps so far, the last first.
pub record WriterState (W Envelope : Type 0) : Type 0 where
  pub world : W
  pub ensured : List Text
  pub steps : List (Step Envelope)

abbrev pub Writing : Type 0 → Type 0 → Type 0 → Type 0
Writing W Envelope A = Action (WriterState W Envelope) WriterError A

module _ {W Envelope : Type 0} (w : TableWriter W Envelope) where
  -- What a call returned, with the step that it is.
  abbrev pub exec_state :
      Text
      → WriterState W Envelope
      → Result WriterError (Unit {0}) × W
      → Result WriterError (Unit {0}) × WriterState W Envelope
  exec_state statement s (answer, world) =
      (answer, record s { world = world; steps = executed statement ∷ s.steps })

  -- w.conn.Exec
  unfoldable pub exec : Text → Writing W Envelope (Unit {0})
  exec statement s = exec_state statement s (w.warehouse.exec statement s.world)

  abbrev pub found_state :
      Text
      → WriterState W Envelope
      → Result WriterError ℕ × W
      → Result WriterError (Unit {0}) × WriterState W Envelope
  found_state table s (err e, world) = (err e, record s { world = world })
  found_state table s (ok count, world) =
      if nat_eq count 0
      then (err (table_required table), record s { world = world })
      else (ok tt, record s { world = world; steps = found table ∷ s.steps })

  -- requireClickHouseTable
  unfoldable pub require_click_house_table : Text → Writing W Envelope (Unit {0})
  require_click_house_table table s = found_state table s (w.warehouse.count_tables table s.world)

  -- `w.ensured[table.Physical] = struct{}{}`
  unfoldable pub mark_ensured : Text → Writing W Envelope (Unit {0})
  mark_ensured table s = (ok tt, record s { ensured = table ∷ s.ensured })

  -- The part for the property table, if properties are indexed.
  unfoldable pub ensure_property_table : Text → Writing W Envelope (Unit {0})
  ensure_property_table table =
      if w.property_indexing
      then (do
        statement ← settled (w.warehouse.create_property_table_statement table)
        exec statement
        property_table ← settled (w.warehouse.property_table_for table)
        require_click_house_table property_table)
      else give tt

  -- The creation and the checks, for a table that is not ensured.
  unfoldable pub ensure_new_table : Text → Writing W Envelope (Unit {0})
  ensure_new_table table = do
    statement ← settled (w.warehouse.create_event_table_statement table)
    exec statement
    require_click_house_table table
    ensure_property_table table
    mark_ensured table

  -- The test of isEnsured, and what is done for a table that is not; the test under the lock of the
  -- part that creates is the same.
  unfoldable pub unless_ensured :
      Text → Writing W Envelope (Unit {0}) → Writing W Envelope (Unit {0})
  unless_ensured table create s = if contains s.ensured table then (ok tt, s) else create s

  -- ensureTablesForEnvelope
  unfoldable pub ensure_tables_for_envelope : Envelope → Writing W Envelope (Unit {0})
  ensure_tables_for_envelope envelope = do
    table ← settled (w.warehouse.route envelope)
    unless_ensured table (unless_ensured table (ensure_new_table table))

  abbrev pub written_state :
      Envelope
      → WriterState W Envelope
      → Result WriterError ℕ × W
      → Result WriterError ℕ × WriterState W Envelope
  written_state envelope s (answer, world) =
      (answer, record s { world = world; steps = wrote envelope ∷ s.steps })

  unfoldable pub delegate : Envelope → Writing W Envelope ℕ
  delegate envelope s = written_state envelope s (w.warehouse.write envelope s.world)

  -- DynamicTableEnsuringWriter.WriteEvent
  unfoldable pub write_event : Envelope → Writing W Envelope ℕ
  write_event envelope = do ensure_tables_for_envelope envelope; delegate envelope
