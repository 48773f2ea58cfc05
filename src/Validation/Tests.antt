-- ===== src/Validation/Tests.antt =====
-- The theorems about the validation stream, at a chain of two blocks.
use essential_node.Validate.{acquire}
use essential_node.Validate.Registry.{query_predicates_programs, query_solution_set_predicates}
use essential_node.Types.{SolutionSet, Block}
use essential_node.Types.Addr.{from_block}
use essential_node.Convert.BigEndian.{big_endian}
use essential_node.Errors.{sqlite_failure, database_busy, database_locked}
use essential_node.Db.Statements.{find_block}
use essential_node.Db.Query.{
  get_validation_progress, get_next_block_addresses, get_block, get_hash, get_solution_set,
}
use essential_node.Db.{SolutionRow, BlockRow, Database, create_tables, row_engine}
use essential_node.Db.Pool.{ConnectionPool, with_database, acquire_pool, acquire_then}
use essential_node.Validate.Inner.{valid}
use essential_node.Validation.Errors.{
  InternalError, recoverable, rusqlite_failed, of_acquire_then, of_validation_error, critical, fork,
  handle_error, database_failed,
}
use essential_node.Validation.Step.{
  Failing, block_to_validate, validate_next_block, get_last_progress, get_next_block, next_of,
}
use essential_node.Validation.Recovery.{Survives, handle_error-Survives}
use essential_node.Validation.Recorded.{FailedAfter, round-recorded, recorded-valid}
use essential_node.Validation.Progress.{
  validate_next_block-err, validate_next_block-valid, validate_next_block-fork,
}
use essential_node.Validation.Next.{UniqueRows, pair-UniqueRows}
use essential_node.Validation.Ahead.{IsAheadOf}
use essential_node.Validate.DryRun.{validate}
use essential_node.Samples.{row_engine-IsScan, hashing, predicates, checker, one_solution, block_at}
use essential_node.Prelude.{
  none, ◌⊎◌, arith, ℕ, ◌≡◌, refl, ap, ◌↔◌, Bool, false, some, List, [], ◌∷◌, ℤ, pos, Result, ok,
  err, Bytes, bytes_eq, ◌∙◌, true,
}

abbrev empty_set : SolutionSet
empty_set = record { solutions = [] }

abbrev valid_block : Block
valid_block = block_at (pos 1) (empty_set ∷ [])

abbrev row_of : ℕ → ℤ → Bytes → BlockRow
row_of id number address = record {
  id = id;
  block_address = address;
  parent_block_id = 0;
  number = number;
  timestamp_secs = 10;
  timestamp_nanos = 500;
}

abbrev start_row : BlockRow
start_row = row_of 1 (pos 0) (0 ∷ [])

abbrev valid_row : BlockRow
valid_row = row_of 2 (pos 1) (1 ∷ 10 ∷ 500 ∷ 0 ∷ [])

abbrev invalid_row : BlockRow
invalid_row = row_of 2 (pos 1) (1 ∷ 10 ∷ 500 ∷ 1 ∷ 0 ∷ 5 ∷ 6 ∷ [])

abbrev chain_of : List BlockRow → Bytes → List SolutionRow → Database
chain_of rows set_addr solutions = record create_tables {
  block = start_row ∷ rows;
  solution_set = record { id = 1; content_addr = set_addr } ∷ [];
  block_solution_set = record { block_id = 2; solution_set_id = 1; solution_set_index = 0 } ∷ [];
  solution = solutions;
  progress = some 1;
}

abbrev solution_row : SolutionRow
solution_row = record {
  id = 1;
  solution_set_id = 1;
  solution_index = 0;
  contract_addr = 5 ∷ [];
  predicate_addr = 6 ∷ [];
}

abbrev pool_of : Database → ConnectionPool
pool_of db = record { database = db; closed = false }

-- the reads after the move of the progress succeed
abbrev quiet : Failing
quiet db = none

abbrev round : ConnectionPool → Result InternalError Bool × ConnectionPool
round = validate_next_block big_endian hashing row_engine predicates checker quiet (1 ∷ []) (2 ∷ [])

handle_error-Survives_example :
    (handle_error (critical (database_failed (sqlite_failure database_busy))) ≡ ok tt)
    ↔ Survives (database_failed (sqlite_failure database_busy))
handle_error-Survives_example =
    handle_error-Survives (database_failed (sqlite_failure database_busy))

abbrev forked : ConnectionPool
forked = pool_of (chain_of (valid_row ∷ row_of 3 (pos 1) (9 ∷ []) ∷ []) (0 ∷ []) [])

forked_progress : get_validation_progress forked.database ≡ some (0 ∷ [])
unfolding get_validation_progress
forked_progress = refl

forked_next :
    get_next_block_addresses row_engine (0 ∷ []) forked.database
    ≡ (1 ∷ 10 ∷ 500 ∷ 0 ∷ []) ∷ (9 ∷ []) ∷ []
unfolding get_next_block_addresses bytes_eq
forked_next = refl

forked_ends : round forked ≡ (err (critical fork), forked)
forked_ends =
    validate_next_block-fork big_endian hashing row_engine predicates checker quiet (1 ∷ [])
      (2 ∷ []) forked (0 ∷ []) (1 ∷ 10 ∷ 500 ∷ 0 ∷ []) (9 ∷ []) refl forked_progress forked_next

abbrev with_valid : ConnectionPool
with_valid = pool_of (chain_of (valid_row ∷ []) (0 ∷ []) [])

abbrev advanced : Database
advanced = record with_valid.database { progress = some 2 }

next_valid :
    block_to_validate big_endian hashing row_engine predicates checker quiet
      (1 ∷ [])
      (2 ∷ [])
      with_valid
    ≡ ok (some valid_block)
unfolding block_to_validate get_last_progress acquire_then acquire_pool get_validation_progress
    get_next_block next_of get_next_block_addresses bytes_eq get_block get_hash get_solution_set
next_valid = refl

validated :
    validate big_endian hashing row_engine predicates checker with_valid
      (1 ∷ [])
      (2 ∷ [])
      valid_block
    ≡ ok (valid 0)
unfolding validate query_solution_set_predicates acquire query_predicates_programs
validated = refl

valid_row_found : find_block with_valid.database (from_block hashing valid_block) ≡ some valid_row
unfolding find_block bytes_eq from_block
valid_row_found = refl

with_valid_unique : UniqueRows with_valid.database.block
with_valid_unique = pair-UniqueRows start_row valid_row (λ e. omega (arith, e)) (λ e. absurd cc)

validate_next_block-valid_example :
    (more : Bool) × (round with_valid ≡ (ok more, with_database with_valid advanced))
    × ((more ≡ true) ↔ IsAheadOf (pos 1) with_valid.database)
validate_next_block-valid_example =
    validate_next_block-valid big_endian hashing row_engine predicates checker quiet (1 ∷ [])
      (2 ∷ []) row_engine-IsScan with_valid valid_block valid_row 0 refl with_valid_unique
      next_valid validated valid_row_found refl

-- the database is locked once the progress is at the block
abbrev locked : Failing
locked db = some (sqlite_failure database_locked)

abbrev locked_round : ConnectionPool → Result InternalError Bool × ConnectionPool
locked_round =
    validate_next_block big_endian hashing row_engine predicates checker locked (1 ∷ []) (2 ∷ [])

abbrev locked_error : InternalError
locked_error = recoverable (rusqlite_failed (sqlite_failure database_locked))

locked_ends : locked_round with_valid ≡ (err locked_error, with_database with_valid advanced)
unfolding of_acquire_then of_validation_error block_to_validate
locked_ends =
    round-recorded big_endian hashing row_engine predicates checker locked (1 ∷ []) (2 ∷ [])
      with_valid valid_block (valid 0) next_valid validated
    ∙ recorded-valid big_endian hashing row_engine predicates checker locked (1 ∷ []) (2 ∷ [])
        valid_block with_valid valid_row 0 refl valid_row_found

validate_next_block-err_example :
    ((locked_round with_valid).1 ≡ with_valid)
    ⊎ ((block : Block) × (gas : ℕ) × (block_to_validate big_endian hashing row_engine predicates
            checker locked
            (1 ∷ [])
            (2 ∷ [])
            with_valid
          ≡ ok (some block))
        × (validate big_endian hashing row_engine predicates checker with_valid
              (1 ∷ [])
              (2 ∷ [])
              block
            ≡ ok (valid gas))
        × FailedAfter big_endian hashing row_engine predicates checker locked
            (1 ∷ [])
            (2 ∷ [])
            block
            with_valid
            locked_error
            (locked_round with_valid).1)
validate_next_block-err_example =
    validate_next_block-err big_endian hashing row_engine predicates checker locked (1 ∷ [])
      (2 ∷ []) with_valid (ap (λ x. x.0) locked_ends)

abbrev with_invalid : ConnectionPool
with_invalid = pool_of (chain_of (invalid_row ∷ []) (1 ∷ 0 ∷ 5 ∷ 6 ∷ []) (solution_row ∷ []))

abbrev unsolved : Block
unsolved = block_at (pos 1) (
    record { solutions = record one_solution { predicate_data = []; state_mutations = [] } ∷ [] }
    ∷ [])
