-- ===== src/Runtime/TableWriter/Built.antt =====
-- internal/runtime/dynamic_table_writer.go: the constructor of the writer.
use anaysitics_service.Base.{Bool, List, [], Option, none, some, Result, ok, err}
use anaysitics_service.Base.Text.{Text}
use anaysitics_service.ControlPlane.Validate.{Error, failure}
use anaysitics_service.Runtime.TableWriter.{Warehouse, TableWriter}

-- NewDynamicTableEnsuringWriter, where an argument may be nil; the connection, the router and the inner
-- writer make up the warehouse. The set of ensured tables is returned beside the writer.
unfoldable pub new_dynamic_table_ensuring_writer :
    {W Envelope Conn Router Inner : Type 0}
    → (Conn → Router → Inner → Warehouse W Envelope)
    → Option Conn
    → Option Router
    → Option Inner
    → Bool
    → Result Error (TableWriter W Envelope × List Text)
new_dynamic_table_ensuring_writer join none router inner property_indexing =
    err (failure "clickhouse schema connection is required")
new_dynamic_table_ensuring_writer join (some conn) none inner property_indexing =
    err (failure "clickhouse table router is required")
new_dynamic_table_ensuring_writer join (some conn) (some router) none property_indexing =
    err (failure "event writer is required")
new_dynamic_table_ensuring_writer join (some conn) (some router) (some inner) property_indexing =
    ok (record { warehouse = join conn router inner; property_indexing = property_indexing }, [])
