-- ===== src/Relayer/Sync/Tests.antt =====
-- The theorems about a run of the block stream, at a stream of two blocks.
use essential_node.Types.Addr.{from_block, from_header_and_solution_set_addrs_slice}
use essential_node.Db.Statements.{
  find_block, find_set, insert_block_row, insert_solution_set, insert_block_solution_set,
  insert_solution, insert_mutation, insert_pred_data, next_id, find_solution, solution_id,
  insert_finalized,
}
use essential_node.Db.Insert.{
  to_sql, insert_block, insert_sets, insert_whole_set, insert_solutions, insert_whole_solution,
  insert_mutations, insert_pred_datas, finalize_block,
}
use essential_node.Db.Pool.{acquire_pool}
use essential_node.Relayer.Sync.{Block, write_block, get_block_progress}
use essential_node.Relayer.Sync.Resume.{IsAhead, get_block_progress-write_block}
use essential_node.Convert.BigEndian.{big_endian}
use essential_node.Relayer.Sync.{Local, start_block, BlockProgress, Stream, sync_blocks}
use essential_node.Relayer.Sync.Sequence.{SyncsFrom, sync_blocks-SyncsFrom}
use essential_node.Relayer.Sync.Finality.{Sound, sync_blocks-Sound}
use essential_node.Relayer.Sync.Subscribed.{NoGap, received, sync_blocks-NoGap}
use essential_node.Relayer.Errors.{InternalError, recoverable, stream}
use essential_node.Errors.{QueryError}
use essential_node.Db.{create_tables, row_engine}
use essential_node.Db.Subscribe.{subscribe_blocks}
use essential_node.Samples.{row_engine-IsScan, hashing, block_at, one_set, open_pool}
use essential_node.Prelude.{
  some, [], ◌∷◌, pos, ok, none, true, arith, ◌≡◌, refl, bytes_eq, bytes_eq,
}

abbrev empty_local : Local
empty_local = record { pool = open_pool; notified = 0 }

abbrev two_blocks : Stream
two_blocks = ok (block_at (pos 0) (one_set ∷ [])) ∷ ok (block_at (pos 1) (one_set ∷ [])) ∷ []

abbrev at_block_zero : BlockProgress
at_block_zero = record {
  last_block_number = pos 0;
  last_block_address = 0 ∷ 10 ∷ 500 ∷ 1 ∷ 1 ∷ 5 ∷ 6 ∷ [];
}

sync_blocks-SyncsFrom_example :
    SyncsFrom big_endian hashing
      (some at_block_zero)
      two_blocks
      empty_local
      (sync_blocks big_endian hashing (some at_block_zero) two_blocks empty_local)
sync_blocks-SyncsFrom_example =
    sync_blocks-SyncsFrom big_endian hashing (some at_block_zero) two_blocks empty_local

sync_blocks-Sound_example :
    Sound big_endian hashing (sync_blocks big_endian hashing none two_blocks empty_local).1.pool
sync_blocks-Sound_example = sync_blocks-Sound big_endian hashing none two_blocks empty_local tt

-- an error of the other node arrives as the end of the response
abbrev broken_off : QueryError → InternalError
broken_off failure = recoverable (stream 0)

sync_blocks-NoGap_example :
    NoGap broken_off
      (sync_blocks big_endian hashing
        (some at_block_zero)
        (received broken_off
          (subscribe_blocks row_engine big_endian (pos 0) (some create_tables ∷ []) (true ∷ [])))
        empty_local).0
unfolding start_block
sync_blocks-NoGap_example =
    sync_blocks-NoGap big_endian hashing broken_off row_engine row_engine-IsScan big_endian
      (some create_tables ∷ []) (true ∷ []) (some at_block_zero) empty_local
      (omega arith, omega arith)

abbrev first_block : Block
first_block = block_at (pos 3) (one_set ∷ [])

first_written : (write_block big_endian hashing first_block open_pool).0 ≡ ok tt
unfolding write_block acquire_pool insert_block to_sql from_block
    from_header_and_solution_set_addrs_slice insert_block_row next_id find_block insert_sets
    insert_whole_set insert_solution_set find_set insert_block_solution_set insert_solutions
    insert_whole_solution insert_solution find_solution insert_mutations insert_mutation solution_id
    insert_pred_datas insert_pred_data finalize_block insert_finalized bytes_eq
first_written = refl

first_IsAhead : IsAhead big_endian hashing row_engine row_engine-IsScan first_block create_tables
unfolding find_block
first_IsAhead = record { new_address = refl; above = tt }

get_block_progress-write_block_example :
    get_block_progress row_engine (write_block big_endian hashing first_block open_pool).1 ≡ (
      ok (
          some (record {
            last_block_number = pos 3;
            last_block_address = from_block hashing first_block;
          })),
      (write_block big_endian hashing first_block open_pool).1,
    )
get_block_progress-write_block_example =
    get_block_progress-write_block big_endian hashing row_engine row_engine-IsScan first_block
      open_pool refl first_IsAhead first_written
