-- ===== src/Validation/Recovery.antt =====
-- Which errors end the validation stream.
use essential_node.Errors.{
  RusqliteError, sqlite_failure, database_locked, database_busy, constraint_violation, other_code,
  to_sql_conversion_failure, invalid_column_type, other_rusqlite, rusqlite, unsupported_range,
}
use essential_node.Db.Pool.{acquire_failed, join_failed, inner}
use essential_node.Validation.Errors.{
  critical, CriticalError, fork, database_failed, read_state, get_next_block_failed, db_pool_closed,
  relayer, last_progress_none, is_recoverable_db_err, handle_error,
}
use essential_node.Prelude.{◌≡◌, refl, ◌↔◌, ◌⊎◌, inl, inr, true, arith, ok}

-- An SQLite failure because the database is locked or busy.
abbrev pub IsBusy : RusqliteError → Type 0
IsBusy e = (e ≡ sqlite_failure database_locked) ⊎ (e ≡ sqlite_failure database_busy)

-- The critical errors that the stream survives: the database was busy, or the task of a read did not
-- end, or the read had an unsupported range.
abbrev pub Survives : CriticalError → Type 0
Survives (database_failed e) = IsBusy e
Survives (read_state (inner (rusqlite e))) = IsBusy e
Survives (read_state (inner unsupported_range)) = Unit {0}
Survives (read_state join_failed) = Unit {0}
Survives (read_state (acquire_failed e)) = ⊥
Survives fork = ⊥
Survives (get_next_block_failed e) = ⊥
Survives (db_pool_closed e) = ⊥
Survives (relayer n) = ⊥
Survives last_progress_none = ⊥

IsBusy-iff : (e : RusqliteError) → (is_recoverable_db_err e ≡ true) ↔ IsBusy e
unfolding is_recoverable_db_err
IsBusy-iff (sqlite_failure database_locked) = (λ _. inl refl, λ _. refl)
IsBusy-iff (sqlite_failure database_busy) = (λ _. inr refl, λ _. refl)
IsBusy-iff (sqlite_failure constraint_violation) = ground arith
IsBusy-iff (sqlite_failure (other_code n)) = ground arith
IsBusy-iff to_sql_conversion_failure = ground arith
IsBusy-iff invalid_column_type = ground arith
IsBusy-iff (other_rusqlite n) = ground arith

-- A critical error restarts the stream exactly where it says that the database was locked or busy,
-- as a failure of the database or of a read of the state, that the task of a read of the state did
-- not end, or that such a read had an unsupported range.
pub handle_error-Survives : (e : CriticalError) → (handle_error (critical e) ≡ ok tt) ↔ Survives e
unfolding handle_error
handle_error-Survives (database_failed e) = ground (arith, IsBusy-iff e)
handle_error-Survives (read_state (inner (rusqlite e))) = ground (arith, IsBusy-iff e)
handle_error-Survives (read_state (inner unsupported_range)) = (λ _. tt, λ _. refl)
handle_error-Survives (read_state join_failed) = (λ _. tt, λ _. refl)
handle_error-Survives (read_state (acquire_failed e)) = ((λ h. cc), λ h. absurd h)
handle_error-Survives fork = ((λ h. cc), λ h. absurd h)
handle_error-Survives (get_next_block_failed e) = ((λ h. cc), λ h. absurd h)
handle_error-Survives (db_pool_closed e) = ((λ h. cc), λ h. absurd h)
handle_error-Survives (relayer n) = ((λ h. cc), λ h. absurd h)
handle_error-Survives last_progress_none = ((λ h. cc), λ h. absurd h)
