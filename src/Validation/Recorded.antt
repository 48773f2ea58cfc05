-- ===== src/Validation/Recorded.antt =====
-- What a round of the validation stream leaves, by the outcome of its block: the closures of
-- `validate_next_block` of crates/node/src/validation.rs.
use essential_node.Types.{SolutionSet, ContentAddress, Block}
use essential_node.Types.Addr.{from_block}
use essential_node.Convert.{Convert}
use essential_node.Hashing.{Hashing, Predicates}
use essential_node.Db.{BlockRow, Database, Engine}
use essential_node.Db.Insert.{update_validation_progress, insert_failed_block}
use essential_node.Db.Pool.{
  acquire_then-open, inner, ConnectionPool, acquire_pool, acquire_then, acquire_then-err,
  with_database,
}
use essential_node.Db.Statements.{find_block, replace_progress, insert_failed}
use essential_node.Validate.Inner.{
  ValidateOutcome, valid, invalid, ValidateFailure, Checker, ValidationError,
}
use essential_node.Validate.DryRun.{validate}
use essential_node.Validate.{connection_pool}
use essential_node.Validate.Inner.Spec.{validate_inner-invalid_lt}
use essential_node.Validation.Errors.{
  recoverable, rusqlite_failed, of_validation_error, InternalError, of_acquire_then,
}
use essential_node.Errors.{RusqliteError}
use essential_node.Validation.Step.{
  unless_failed, Failing, mark_valid, mark_invalid, record_outcome, block_to_validate,
  validate_next_block, is_behind, latest_number,
}
use essential_node.Prelude.{
  err-eq-err, ◌≡◌, refl, inl, inr, Bool, Option, none, some, arith, ℤ, Result, err, map_err, ℕ, sym,
  ap, ◌∙◌, false, get_elem?, ok, map_err-eq-err, get_elem?-of_lt, ◌⊎◌, true, Bool-cases,
  Option-cases, set,
}

-- the database with the progress at the row
abbrev pub at_row : Database → BlockRow → Database
at_row db row = record db { progress = some row.id }

module _ (c : Convert) (h : Hashing) (e : Engine) (p : Predicates) (k : Checker p) (fails : Failing)
    (contract_registry program_registry : ContentAddress) where
  abbrev pub round : ConnectionPool → Result InternalError Bool × ConnectionPool
  round = validate_next_block c h e p k fails contract_registry program_registry

  abbrev pub block_after : ConnectionPool → Result InternalError (Option Block)
  block_after = block_to_validate c h e p k fails contract_registry program_registry

  abbrev pub recorded :
      Block
      → ConnectionPool
      → ValidateOutcome k.CheckError
      → Result InternalError Bool × ConnectionPool
  recorded = record_outcome c h e p k fails contract_registry program_registry

  mark_valid-found :
      (address : ContentAddress) (n : ℤ) (db : Database) (row : BlockRow)
      → find_block db address ≡ some row
      → mark_valid c h e fails address n db ≡ (
        unless_failed c h e
            (fails (at_row db row))
            (is_behind c h e n (latest_number c h e (at_row db row))),
        at_row db row,
      )
  unfolding mark_valid update_validation_progress replace_progress
  mark_valid-found address n db row f =
      rw (f, mark_valid, update_validation_progress, replace_progress)

  mark_valid-missing :
      (address : ContentAddress) (n : ℤ) (db : Database)
      → find_block db address ≡ none
      → (mark_valid c h e fails address n db).1 ≡ db
  unfolding mark_valid update_validation_progress replace_progress
  mark_valid-missing address n db f =
      rw (f, mark_valid, update_validation_progress, replace_progress) refl

  pub mark_invalid-set :
      (address : ContentAddress) (set : SolutionSet) (db : Database)
      → mark_invalid c h e address (some set) db
        ≡ (ok false, insert_failed_block address (h.solution_set_addr set) db)
  unfolding mark_invalid
  mark_invalid-set address set db = refl

  pub progress-insert_failed_block :
      (address set_addr : ContentAddress) (db : Database)
      → (insert_failed_block address set_addr db).progress ≡ db.progress
  unfolding insert_failed_block insert_failed
  progress-insert_failed_block address set_addr db = ground arith

  -- an invalid outcome names a set of the block
  pub invalid_set :
      (pool : ConnectionPool) (block : Block) {failure : ValidateFailure k.CheckError} {ix : ℕ}
      → validate c h e p k pool contract_registry program_registry block ≡ ok (invalid failure ix)
      → (set : SolutionSet) × (get_elem? block.solution_sets ix ≡ some set)
  unfolding validate
  invalid_set pool block v = get_elem?-of_lt block.solution_sets _ (
      validate_inner-invalid_lt e c p k (connection_pool pool) contract_registry program_registry
        block v)

  mark_invalid-err :
      (address : ContentAddress) (set : Option SolutionSet) (db : Database) (f : ValidationError)
      → (mark_invalid c h e address set db).0 ≡ err f
      → (mark_invalid c h e address set db).1 ≡ db
  unfolding mark_invalid
  mark_invalid-err address none db f r = refl
  mark_invalid-err address (some set) db f r = cc

  -- what a round leaves whose block is valid and in the database
  pub recorded-valid :
      (block : Block) (pool : ConnectionPool) (row : BlockRow) (gas : ℕ)
      → pool.closed ≡ false
      → find_block pool.database (from_block h block) ≡ some row
      → recorded block pool (valid gas) ≡ (
        map_err of_acquire_then (
            map_err inner (
              unless_failed c h e (fails (at_row pool.database row)) (
                is_behind c h e block.header.number
                  (latest_number c h e (at_row pool.database row))))),
        with_database pool (at_row pool.database row),
      )
  unfolding record_outcome
  recorded-valid block pool row gas o f =
      rw
        (acquire_then-open pool (mark_valid c h e fails (from_block h block) block.header.number) o)
        (rw (mark_valid-found (from_block h block) block.header.number pool.database row f) refl)

  -- the progress is at the row of the block, and a read after that failed
  abbrev pub FailedAfter : Block → ConnectionPool → InternalError → ConnectionPool → Type 0
  FailedAfter block pool f pool' =
      (row : BlockRow) × (g : RusqliteError) × (find_block pool.database (from_block h block)
        ≡ some row)
      × (pool' ≡ with_database pool (at_row pool.database row))
      × (fails (at_row pool.database row) ≡ some g)
      × (f ≡ recoverable (rusqlite_failed g))

  recorded-failed :
      (block : Block) (pool : ConnectionPool) (row : BlockRow) (gas : ℕ) {f : InternalError}
      → pool.closed ≡ false
      → find_block pool.database (from_block h block) ≡ some row
      → (recorded block pool (valid gas)).0 ≡ err f
      → FailedAfter block pool f (recorded block pool (valid gas)).1
  unfolding of_acquire_then of_validation_error
  recorded-failed block pool row gas o found r =
      let same = recorded-valid block pool row gas o found in
      let failed = ap (λ x. x.0) (sym same) ∙ r in
      elim (Option-cases (fails (at_row pool.database row))) [
        | inl none_failed ↦ absurd (let failed' = rw none_failed at failed in cc)
        | inr (g, g_failed) ↦
            (row, g, found, ap (λ x. x.1) same, g_failed, err-eq-err (sym (rw g_failed at failed)))
      ]

  recorded-missing :
      (block : Block) (pool : ConnectionPool) (gas : ℕ)
      → pool.closed ≡ false
      → find_block pool.database (from_block h block) ≡ none
      → (recorded block pool (valid gas)).1 ≡ pool
  unfolding record_outcome
  recorded-missing block pool gas o missing =
      ap (λ x. x.1)
        (acquire_then-open pool (mark_valid c h e fails (from_block h block) block.header.number) o)
      ∙ ap (with_database pool)
          (mark_valid-missing (from_block h block) block.header.number pool.database missing)

  recorded-closed :
      (block : Block) (pool : ConnectionPool) (gas : ℕ)
      → pool.closed ≡ true
      → (recorded block pool (valid gas)).1 ≡ pool
  unfolding record_outcome acquire_then acquire_pool
  recorded-closed block pool gas closed = rw closed refl

  pub recorded-err :
      (block : Block) (pool : ConnectionPool) (gas : ℕ) {f : InternalError}
      → (recorded block pool (valid gas)).0 ≡ err f
      → ((recorded block pool (valid gas)).1 ≡ pool)
        ⊎ FailedAfter block pool f (recorded block pool (valid gas)).1
  recorded-err block pool gas r = elim (Bool-cases pool.closed) [
    | inl closed ↦ inl (recorded-closed block pool gas closed)
    | inr opened ↦ elim (Option-cases (find_block pool.database (from_block h block))) [
      | inl missing ↦ inl (recorded-missing block pool gas opened missing)
      | inr (row, found) ↦ inr (recorded-failed block pool row gas opened found r)
    ]
  ]

  pub recorded_invalid-err :
      (block : Block) (pool : ConnectionPool) (failure : ValidateFailure k.CheckError) (ix : ℕ)
      {f : InternalError}
      → (recorded block pool (invalid failure ix)).0 ≡ err f
      → (recorded block pool (invalid failure ix)).1 ≡ pool
  unfolding record_outcome
  recorded_invalid-err block pool failure ix r =
      acquire_then-err pool
        (mark_invalid c h e (from_block h block) (get_elem? block.solution_sets ix))
        (mark_invalid-err (from_block h block) (get_elem? block.solution_sets ix))
        (map_err-eq-err of_acquire_then _ r).1

  pub round-recorded :
      (pool : ConnectionPool) (block : Block) (o : ValidateOutcome k.CheckError)
      → block_after pool ≡ ok (some block)
      → validate c h e p k pool contract_registry program_registry block ≡ ok o
      → round pool ≡ recorded block pool o
  unfolding validate_next_block
  round-recorded pool block o b v = rw (b, validate_next_block) (rw v refl)
