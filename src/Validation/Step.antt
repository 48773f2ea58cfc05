-- ===== src/Validation/Step.antt =====
-- `validate_next_block` of crates/node/src/validation.rs, and the loop that `validation_stream` runs.
use essential_node.Types.{ContentAddress, SolutionSet, Block}
use essential_node.Types.Addr.{from_block}
use essential_node.Convert.{Convert}
use essential_node.Hashing.{Hashing, Predicates}
use essential_node.Errors.{RusqliteError, QueryError}
use essential_node.Db.{Database, Engine}
use essential_node.Db.Insert.{update_validation_progress, insert_failed_block}
use essential_node.Db.Query.{
  get_validation_progress, get_next_block_addresses, get_block, get_block_header,
  get_latest_finalized_block_address,
}
use essential_node.Db.Pool.{ConnectionPool, AcquireThenError, acquire_then}
use essential_node.Validate.Inner.{
  ValidateOutcome, valid, invalid, Checker, validation_rusqlite, ValidationError,
}
use essential_node.Validate.DryRun.{validate}
use essential_node.Validation.Errors.{
  InternalError, critical, recoverable, fork, get_next_block_failed, last_progress,
  last_progress_none, of_validation_error, of_acquire_then,
}
use essential_node.Prelude.{
  ℕ, zero, suc, Bool, true, false, Option, none, some, List, [], ◌∷◌, get_elem?, ℤ, ltb_ℤ, Result,
  ok, err, ◌>>=◌, map_err, ok_or,
}

unfoldable pub get_last_progress : ConnectionPool → Result InternalError (Option ContentAddress)
get_last_progress pool =
    map_err (λ e. recoverable (last_progress e))
      (acquire_then {E = QueryError} pool (λ db. (ok (get_validation_progress db), db))).0

-- What `transaction` and the two reads after it fail with on a database, as where it is locked or busy;
-- `none` where they succeed.
abbrev pub Failing : Type 0
Failing = Database → Option RusqliteError

module _ (c : Convert) (h : Hashing) (e : Engine) where
  -- what `get_next_block` makes of the addresses: none, a fork, or the block
  unfoldable pub next_of :
      List ContentAddress → Database → Result QueryError (Result InternalError (Option Block))
  next_of [] db = ok (ok none)
  next_of (address ∷ []) db = do block ← get_block e c address db; ok (ok block)
  next_of (address ∷ other ∷ more) db = ok (err (critical fork))

  abbrev pub join_result :
      Result (AcquireThenError QueryError) (Result InternalError (Option Block))
      → Result InternalError (Option Block)
  join_result (ok r) = r
  join_result (err f) = err (critical (get_next_block_failed f))

  unfoldable pub get_next_block :
      ConnectionPool → ContentAddress → Result InternalError (Option Block)
  get_next_block pool progress =
      join_result
        (acquire_then pool (λ db. (next_of (get_next_block_addresses e progress db) db, db))).0

  -- the number of the latest finalized block
  unfoldable pub latest_number : Database → Option ℤ
  latest_number db = elim (get_latest_finalized_block_address e db) [
    | none ↦ none
    | some address ↦ elim (get_block_header address db) [
      | none ↦ none
      | some header ↦ some header.number
    ]
  ]

  abbrev pub is_behind : ℤ → Option ℤ → Bool
  is_behind number none = false
  is_behind number (some latest) = ltb_ℤ number latest

  -- the answer of the closure, or the error of the reads
  abbrev pub unless_failed : Option RusqliteError → Bool → Result ValidationError Bool
  unless_failed none more = ok more
  unless_failed (some f) more = err (validation_rusqlite f)

  -- The closure for a valid block. The progress is in force before the transaction starts, also where
  -- the transaction or a read in it fails.
  unfoldable pub mark_valid :
      Failing → ContentAddress → ℤ → Database → Result ValidationError Bool × Database
  unfolding latest_number
  mark_valid fails address number db =
      elim (map_err validation_rusqlite (update_validation_progress address db)) [
        | err f ↦ (err f, db)
        | ok db' ↦ (unless_failed (fails db') (is_behind number (latest_number db')), db')
      ]

  -- the closure for an invalid block; a `none` is the panic of an `expect`
  unfoldable pub mark_invalid :
      ContentAddress → Option SolutionSet → Database → Result ValidationError Bool × Database
  mark_invalid address none db = (ok false, db)
  mark_invalid address (some set) db =
      (ok false, insert_failed_block address (h.solution_set_addr set) db)

  module _ (p : Predicates) (k : Checker p) (fails : Failing)
      (contract_registry program_registry : ContentAddress) where
    -- what is written once the block has an outcome
    unfoldable pub record_outcome :
        Block
        → ConnectionPool
        → ValidateOutcome k.CheckError
        → Result InternalError Bool × ConnectionPool
    record_outcome block pool (valid gas) =
        let out = acquire_then pool (mark_valid fails (from_block h block) block.header.number) in
        (map_err of_acquire_then out.0, out.1)
    record_outcome block pool (invalid failure ix) =
        let out =
          acquire_then pool
            (mark_invalid (from_block h block) (get_elem? block.solution_sets ix)) in
        (map_err of_acquire_then out.0, out.1)

    -- the block after the progress, if there is one
    unfoldable pub block_to_validate : ConnectionPool → Result InternalError (Option Block)
    block_to_validate pool = do
      found ← get_last_progress pool
      progress ← ok_or found (critical last_progress_none)
      get_next_block pool progress

    -- whether more blocks are left, and the pool after the call
    unfoldable pub validate_next_block : ConnectionPool → Result InternalError Bool × ConnectionPool
    validate_next_block pool = elim (block_to_validate pool) [
      | err f ↦ (err f, pool)
      | ok none ↦ (ok false, pool)
      | ok (some block) ↦ elim (validate c h e p k pool contract_registry program_registry block) [
        | err f ↦ (err (of_validation_error f), pool)
        | ok outcome ↦ record_outcome block pool outcome
      ]
    ]

    -- the inner loop of `validation_stream`, up to the wait for a notification: after how many rounds
    -- is the fuel. `none` says that it has not got there.
    unfoldable pub validate_available :
        ℕ → ConnectionPool → Option (Result InternalError (Unit {0}) × ConnectionPool)
    validate_available zero pool = none
    validate_available (suc fuel) pool =
        let (result, pool') = validate_next_block pool in
        elim result [
          | err f ↦ some (err f, pool')
          | ok true ↦ validate_available fuel pool'
          | ok false ↦ some (ok tt, pool')
        ]
