-- ===== src/Validation/Errors.antt =====
-- The errors that the validation stream tells apart (crates/node/src/error.rs), their conversions, and
-- which of them end the stream: `map_recoverable_errors` and `handle_error` of
-- crates/node/src/validation.rs.
use essential_node.Types.{PredicateAddress}
use essential_node.Errors.{
  RusqliteError, sqlite_failure, database_locked, database_busy, QueryError, rusqlite,
  unsupported_range,
}
use essential_node.Db.Pool.{AcquireError, AcquireThenError, acquire_failed, join_failed, inner}
use essential_node.Validate.Registry.{
  SolutionSetPredicatesError, predicates_acquire, predicate_query, missing_predicate,
  QueryPredicateError,
}
use essential_node.Validate.Inner.{
  ValidationError, solution_set_predicates, validation_query, validation_pool_closed,
  validation_rusqlite, validation_join,
}
use essential_node.Prelude.{ℕ, Bool, true, false, if◌then◌else◌, Result, ok, err}

pub data RecoverableError : Type 0 where
  read_state_failed : AcquireThenError QueryError → RecoverableError
  query_failed : QueryError → RecoverableError
  predicate_failed : PredicateAddress → QueryPredicateError → RecoverableError
  join : RecoverableError
  last_progress : AcquireThenError QueryError → RecoverableError
  rusqlite_failed : RusqliteError → RecoverableError
  predicate_not_found : PredicateAddress → RecoverableError

-- an error of the relayer is not looked into: its text stands for it
pub data CriticalError : Type 0 where
  fork : CriticalError
  database_failed : RusqliteError → CriticalError
  read_state : AcquireThenError QueryError → CriticalError
  get_next_block_failed : AcquireThenError QueryError → CriticalError
  db_pool_closed : AcquireError → CriticalError
  relayer : ℕ → CriticalError
  last_progress_none : CriticalError

pub data InternalError : Type 0 where
  recoverable : RecoverableError → InternalError
  critical : CriticalError → InternalError

-- `From<SolutionSetPredicatesError> for InternalError`
unfoldable pub of_predicates_error : SolutionSetPredicatesError → InternalError
of_predicates_error (predicates_acquire e) = critical (db_pool_closed e)
of_predicates_error (missing_predicate addr) = recoverable (predicate_not_found addr)
of_predicates_error (predicate_query addr e) = recoverable (predicate_failed addr e)

-- `From<ValidationError> for InternalError`
unfoldable pub of_validation_error : ValidationError → InternalError
unfolding of_predicates_error
of_validation_error (solution_set_predicates e) = of_predicates_error e
of_validation_error (validation_query e) = recoverable (query_failed e)
of_validation_error (validation_pool_closed e) = critical (db_pool_closed e)
of_validation_error (validation_rusqlite e) = recoverable (rusqlite_failed e)
of_validation_error validation_join = recoverable join

-- `From<AcquireThenError<ValidationError>> for InternalError`
unfoldable pub of_acquire_then : AcquireThenError ValidationError → InternalError
unfolding of_validation_error
of_acquire_then (acquire_failed e) = critical (db_pool_closed e)
of_acquire_then (inner e) = of_validation_error e
of_acquire_then join_failed = recoverable join

unfoldable pub is_recoverable_db_err : RusqliteError → Bool
is_recoverable_db_err (sqlite_failure database_locked) = true
is_recoverable_db_err (sqlite_failure database_busy) = true
is_recoverable_db_err _ = false

unfoldable pub map_recoverable_errors : InternalError → InternalError
unfolding is_recoverable_db_err
map_recoverable_errors (critical (database_failed e)) =
    if is_recoverable_db_err e
    then recoverable (rusqlite_failed e)
    else critical (database_failed e)
map_recoverable_errors (critical (read_state (acquire_failed e))) = critical (db_pool_closed e)
map_recoverable_errors (critical (read_state join_failed)) =
    recoverable (read_state_failed join_failed)
map_recoverable_errors (critical (read_state (inner (rusqlite e)))) =
    if is_recoverable_db_err e
    then recoverable (rusqlite_failed e)
    else critical (database_failed e)
map_recoverable_errors (critical (read_state (inner unsupported_range))) =
    recoverable (query_failed unsupported_range)
map_recoverable_errors e = e

abbrev pub exit_code : InternalError → Result CriticalError (Unit {0})
exit_code (critical e) = err e
exit_code (recoverable e) = ok tt

-- an error ends the stream, or the stream starts again
unfoldable pub handle_error : InternalError → Result CriticalError (Unit {0})
unfolding map_recoverable_errors
handle_error e = exit_code (map_recoverable_errors e)
