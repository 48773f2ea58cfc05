-- ===== src/Errors.antt =====
-- The errors of the database layer: `rusqlite::Error` as far as the node tells its cases apart, and
-- `QueryError` of crates/node-db/src/error.rs.
use essential_node.Prelude.{ℕ}

-- the primary result codes of SQLite that occur: a broken constraint, and the two that the streams
-- take as recoverable
pub data ErrorCode : Type 0 where
  database_locked database_busy constraint_violation : ErrorCode
  other_code : ℕ → ErrorCode

pub data RusqliteError : Type 0 where
  sqlite_failure : ErrorCode → RusqliteError
  to_sql_conversion_failure : RusqliteError
  invalid_column_type : RusqliteError
  other_rusqlite : ℕ → RusqliteError

pub data QueryError : Type 0 where
  rusqlite : RusqliteError → QueryError
  unsupported_range : QueryError
