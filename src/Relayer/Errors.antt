-- ===== src/Relayer/Errors.antt =====
-- crates/relayer/src/error.rs, and in crates/relayer/src/lib.rs what restarts the stream and what ends
-- it. Errors of other crates that are not looked into are numbers.
pub mod Run
mod Tests
use essential_node.Types.{ContentAddress}
use essential_node.Errors.{RusqliteError, sqlite_failure, database_locked, database_busy}
use essential_node.Db.Pool.{AcquireThenError, inner}
use essential_node.Prelude.{ℕ, Option, none, some, List, [], ◌∷◌, ℤ, Result, ok, err, Bytes}

-- `DataSyncError::Fork`
pub record Fork : Type 0 where
  pub block_number : ℤ
  pub progress_address : ContentAddress
  pub block_address : Option ContentAddress

pub data CriticalError : Type 0 where
  url_parse overflow : CriticalError
  data_sync_failed : Fork → CriticalError
  http_client_build : ℕ → CriticalError
  db_pool_rusqlite : AcquireThenError RusqliteError → CriticalError

-- `NonSequentialBlock(got, expected)`, in the words of its message
pub data RecoverableError : Type 0 where
  stream : ℕ → RecoverableError
  bad_server_response : ℕ → RecoverableError
  http_client : ℕ → RecoverableError
  non_sequential_block : ℤ → ℤ → RecoverableError
  stream_error : Bytes → RecoverableError
  rusqlite_failed : RusqliteError → RecoverableError

pub data InternalError : Type 0 where
  critical : CriticalError → InternalError
  recoverable : RecoverableError → InternalError

unfoldable pub map_recoverable_errors : InternalError → InternalError
map_recoverable_errors (critical (db_pool_rusqlite (inner (sqlite_failure database_locked)))) =
    recoverable (rusqlite_failed (sqlite_failure database_locked))
map_recoverable_errors (critical (db_pool_rusqlite (inner (sqlite_failure database_busy)))) =
    recoverable (rusqlite_failed (sqlite_failure database_busy))
map_recoverable_errors e = e

abbrev pub exit_code : InternalError → Result CriticalError (Unit {0})
exit_code (critical e) = err e
exit_code (recoverable e) = ok tt

-- the wait of a second after an HTTP error is left out
unfoldable pub handle_error : InternalError → Result CriticalError (Unit {0})
unfolding map_recoverable_errors
handle_error e = exit_code (map_recoverable_errors e)

-- the loop of `run`: the results of the runs of the stream, until one ends it; `none` where the list
-- is at its end and the stream still runs
unfoldable pub run :
    List (Result InternalError (Unit {0})) → Option (Result CriticalError (Unit {0}))
run [] = none
run (ok u ∷ rs) = some (ok tt)
run (err e ∷ rs) = let rest = run rs in elim (handle_error e) [ err f ↦ some (err f) | ok u ↦ rest ]
