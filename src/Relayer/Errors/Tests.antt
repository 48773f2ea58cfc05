-- ===== src/Relayer/Errors/Tests.antt =====
-- The theorem about the loop of the relayer, at two rounds.
use essential_node.Errors.{sqlite_failure, database_busy}
use essential_node.Db.Pool.{inner}
use essential_node.Relayer.Errors.{InternalError, critical, overflow, db_pool_rusqlite}
use essential_node.Prelude.{List, [], ◌∷◌, Result, err}

abbrev two_rounds : List (Result InternalError (Unit {0}))
two_rounds =
    err (critical (db_pool_rusqlite (inner (sqlite_failure database_busy))))
    ∷ err (critical overflow)
    ∷ []
