-- ===== src/Db/Pool/Open/Tests.antt =====
-- A pool that is opened over connections that are their paths, with the pragmas that were set.
use essential_node.RusqlitePool.{zero_capacity}
use essential_node.RusqlitePool.Instances.{list_queue, list_queue_laws, counter, counter_laws}
use essential_node.Db.Pool.Open.{Sqlite, path, Pragma, in_pool, with_tables}
use essential_node.Db.Pool.Open.Ready.{Finishes, with_tables-Finishes}
use essential_node.Prelude.{
  ℕ, ◌≡◌, Bool, true, false, List, [], ◌∷◌, if◌then◌else◌, length, ok, err, Bytes,
}

record Opened : Type 0 where
  from : Bytes
  pragmas : List Pragma
  tables : Bool

abbrev sqlite : Sqlite
sqlite = record {
  Connection = Opened;
  Error = ℕ;
  open_path = λ file i. ok (record { from = file; pragmas = []; tables = false });
  open_memdb = λ id i. ok (record { from = id; pragmas = []; tables = false });
  pragma_update = λ p conn. ok (record conn { pragmas = p ∷ conn.pragmas });
  create_tables = λ conn. ok (record conn { tables = true });
  close_connection = λ conn. if conn.tables then ok tt else err (length conn.pragmas);
}

with_tables-Finishes_example :
    Finishes sqlite (list_queue Opened) (list_queue_laws Opened) counter counter_laws 2 (
      with_tables sqlite
        (list_queue Opened)
        counter
        (record { conn_limit = 2; source = path (1 ∷ []) }))
    × (with_tables sqlite
          (list_queue Opened)
          counter
          (record { conn_limit = 0; source = path (1 ∷ []) })
        ≡ err (in_pool zero_capacity))
with_tables-Finishes_example =
    with_tables-Finishes sqlite (list_queue Opened) (list_queue_laws Opened) counter counter_laws 1
      (path (1 ∷ []))
