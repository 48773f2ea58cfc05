-- ===== src/Validate/DryRun.antt =====
-- The dry run of crates/node/src/validate.rs: the block is put in a database of its own, in memory,
-- which is asked before the node's. The time of a dry run of a solution set is a parameter.
use essential_node.Types.{ContentAddress, Duration, Header, SolutionSet, Block}
use essential_node.Convert.{Convert}
use essential_node.Hashing.{Hashing, Predicates}
use essential_node.Errors.{RusqliteError}
use essential_node.Db.{Database, Engine, create_tables}
use essential_node.Db.Insert.{insert_block, finalize_block}
use essential_node.Db.Query.{get_latest_finalized_block_address, get_block_header}
use essential_node.Validate.{Source, dry_run, connection_pool}
use essential_node.Db.Pool.{ConnectionPool, acquire_pool}
use essential_node.Validate.Inner.{
  ValidationError, validation_pool_closed, validation_rusqlite, ValidateOutcome, Checker,
  validate_inner,
}
use essential_node.Prelude.{false, Option, none, some, [], ◌∷◌, ℤ, pos, Result, ok, ◌>>=◌, map_err}

abbrev pub header_number : Option Header → ℤ
header_number none = pos 1
header_number (some h) = h.number

module _ (c : Convert) (h : Hashing) where
  -- `Memory::new`: a new database with the block inserted and finalized
  unfoldable pub memory_new : Block → Result RusqliteError ConnectionPool
  memory_new block = do
    (hash, db) ← insert_block c h block create_tables
    db' ← finalize_block hash db
    ok (record { database = db'; closed = false })

  -- `DryRun::new`
  unfoldable pub dry_run_new : ConnectionPool → Block → Result RusqliteError Source
  unfolding memory_new
  dry_run_new pool block = do memory ← memory_new block; ok (dry_run memory pool)

  module _ (e : Engine) (p : Predicates) (k : Checker p) where
    unfoldable pub validate :
        ConnectionPool
        → ContentAddress
        → ContentAddress
        → Block
        → Result ValidationError (ValidateOutcome k.CheckError)
    unfolding validate_inner
    validate pool contract_registry program_registry block =
        validate_inner e c p k (connection_pool pool) contract_registry program_registry block

    unfoldable pub validate_dry_run :
        ConnectionPool
        → ContentAddress
        → ContentAddress
        → Block
        → Result ValidationError (ValidateOutcome k.CheckError)
    unfolding dry_run_new validate_inner
    validate_dry_run pool contract_registry program_registry block = do
      db_type ← map_err validation_rusqlite (dry_run_new pool block)
      validate_inner e c p k db_type contract_registry program_registry block

    -- the number of the latest finalized block, or 1
    unfoldable pub dry_run_number : Database → ℤ
    dry_run_number db = elim (get_latest_finalized_block_address e db) [
      | none ↦ pos 1
      | some address ↦ header_number (get_block_header address db)
    ]

    unfoldable pub validate_solution_set_dry_run :
        ConnectionPool
        → ContentAddress
        → ContentAddress
        → SolutionSet
        → Duration
        → Result ValidationError (ValidateOutcome k.CheckError)
    unfolding validate_dry_run dry_run_number
    validate_solution_set_dry_run pool contract_registry program_registry set now = do
      db ← map_err validation_pool_closed (acquire_pool pool)
      validate_dry_run pool contract_registry program_registry (record {
        header = record { number = dry_run_number db; timestamp = now };
        solution_sets = set ∷ [];
      })
