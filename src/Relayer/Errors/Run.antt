-- ===== src/Relayer/Errors/Run.antt =====
-- Which errors end the relayer's stream, and when `run` ends.
use essential_node.Errors.{sqlite_failure, database_locked, database_busy}
use essential_node.Db.Pool.{acquire_failed, join_failed, inner}
use essential_node.Relayer.Errors.{
  InternalError, critical, recoverable, CriticalError, url_parse, overflow, data_sync_failed,
  http_client_build, db_pool_rusqlite, handle_error,
}
use essential_node.Prelude.{◌≡◌, ◌⊎◌, Option, none, some, List, [], ◌∷◌, ◌++◌, Result, ok, err}

-- The errors after which the stream is started again: every recoverable one, and a critical one that
-- says that the database is locked or busy.
abbrev pub Restarts : InternalError → Type 0
Restarts (recoverable e) = Unit {0}
Restarts (critical (db_pool_rusqlite (inner e))) =
    (e ≡ sqlite_failure database_locked) ⊎ (e ≡ sqlite_failure database_busy)
Restarts (critical (db_pool_rusqlite (acquire_failed e))) = ⊥
Restarts (critical (db_pool_rusqlite join_failed)) = ⊥
Restarts (critical url_parse) = ⊥
Restarts (critical overflow) = ⊥
Restarts (critical (data_sync_failed f)) = ⊥
Restarts (critical (http_client_build n)) = ⊥

abbrev Round : Type 0
Round = Result InternalError (Unit {0})

-- every round ended in an error that restarts the stream
abbrev pub AllRestart : List Round → Type 0
AllRestart [] = Unit {0}
AllRestart (ok u ∷ rs) = ⊥
AllRestart (err e ∷ rs) = Restarts e × AllRestart rs

-- what the end of the loop says of the rounds: none ended it, or the rounds up to one restarted it,
-- and this one ended well or in an error that does not restart the stream
abbrev pub Ends : List Round → Option (Result CriticalError (Unit {0})) → Type 0
Ends rs none = AllRestart rs
Ends rs (some (ok u)) =
    (before : List Round) × (after : List Round) × (rs ≡ before ++ ok tt ∷ after)
    × AllRestart before
Ends rs (some (err f)) =
    (before : List Round) × (e : InternalError) × (after : List Round) × (rs
      ≡ before ++ err e ∷ after)
    × AllRestart before
    × (¬ Restarts e)
    × (handle_error e ≡ err f)
