-- ===== src/Db/Stored/Tests.antt =====
-- Two blocks, inserted one after the other and read back.
use essential_node.Types.{SolutionSet, Block}
use essential_node.Types.Addr.{from_block, from_header_and_solution_set_addrs_slice}
use essential_node.Convert.BigEndian.{big_endian, big_endian-IsConvert}
use essential_node.Errors.{RusqliteError}
use essential_node.Db.{Database, create_tables, row_engine}
use essential_node.Db.Statements.{
  find_block, find_set, insert_block_row, insert_solution_set, insert_block_solution_set,
  insert_solution, insert_mutation, insert_pred_data, next_id, find_solution, solution_id,
}
use essential_node.Db.Insert.{
  to_sql, insert_block, insert_sets, insert_whole_set, insert_solutions, insert_whole_solution,
  insert_mutations, insert_pred_datas,
}
use essential_node.Db.Query.{get_block}
use essential_node.Db.Stored.Places.{RefersToBlocks, AreBlockWords}
use essential_node.Db.Stored.Alike.{AlikeSets}
use essential_node.Db.Stored.New.{Refers}
use essential_node.Db.Stored.Blocks.{insert_block-Refers, IsNewBlock}
use essential_node.Db.Stored.RoundTrip.{get_block-insert_block}
use essential_node.Db.Stored.Unchanged.{get_block-insert_block_other}
use essential_node.Samples.{
  row_engine-IsScan, turned_engine, turned_engine-IsPermutation, hashing, one_solution, one_set,
  block_at,
}
use essential_node.Prelude.{
  List, ◌≡◌, refl, some, [], ◌∷◌, arith, pos, Result, ok, err, bytes_eq, bytes_eq,
}

abbrev database_of : {A : Type 0} → Result RusqliteError (A × Database) → Database
database_of (ok (a, db)) = db
database_of (err e) = create_tables

-- a block with two sets, one of two solutions
abbrev large_block : Block
large_block =
    block_at (pos 1) (one_set ∷ record { solutions = one_solution ∷ one_solution ∷ [] } ∷ [])

abbrev with_large : Database
with_large = database_of (insert_block big_endian hashing large_block create_tables)

large_inserted :
    insert_block big_endian hashing large_block create_tables
    ≡ ok (from_block hashing large_block, with_large)
unfolding insert_block to_sql from_block from_header_and_solution_set_addrs_slice
large_inserted = refl

large_IsNew : IsNewBlock big_endian hashing large_block create_tables
unfolding find_block find_set next_id
large_IsNew = record {
  new_address = refl;
  new_sets = (refl, (λ e. ground (arith, e), tt), (refl, tt, tt));
  refers = record { of_solutions = tt; of_mutations = tt; of_data = tt };
  refers_to_blocks = tt;
}

large_words : AreBlockWords large_block.solution_sets
large_words = omega arith

get_block-insert_block_example :
    (from_block hashing large_block ≡ from_block hashing large_block)
    × ((sets : List SolutionSet) × (get_block turned_engine big_endian
            (from_block hashing large_block)
            with_large
          ≡ ok (some (record large_block { solution_sets = sets })))
        × AlikeSets sets large_block.solution_sets)
    × Refers with_large
    × RefersToBlocks with_large
get_block-insert_block_example =
    get_block-insert_block big_endian big_endian-IsConvert hashing turned_engine
      turned_engine-IsPermutation large_block create_tables large_inserted large_IsNew (λ e. cc)
      large_words

abbrev next_block : Block
next_block =
    block_at (pos 2) (record { solutions = one_solution ∷ one_solution ∷ one_solution ∷ [] } ∷ [])

abbrev with_both : Database
with_both = database_of (insert_block big_endian hashing next_block with_large)

next_inserted :
    insert_block big_endian hashing next_block with_large
    ≡ ok (from_block hashing next_block, with_both)
unfolding insert_block to_sql from_block from_header_and_solution_set_addrs_slice
next_inserted = refl

next_IsNew : IsNewBlock big_endian hashing next_block with_large
unfolding find_block find_set next_id insert_block to_sql from_block
    from_header_and_solution_set_addrs_slice insert_block_row insert_sets insert_whole_set
    insert_solution_set insert_block_solution_set insert_solutions insert_whole_solution
    insert_solution insert_mutations insert_mutation insert_pred_datas insert_pred_data
    find_solution solution_id bytes_eq
next_IsNew =
    let (refers, places) =
      insert_block-Refers big_endian hashing large_block create_tables large_inserted large_IsNew in
    record {
      new_address = refl;
      new_sets = (refl, tt, tt);
      refers = refers;
      refers_to_blocks = places;
    }

get_block-insert_block_other_example :
    get_block row_engine big_endian (from_block hashing large_block) with_both
    ≡ get_block row_engine big_endian (from_block hashing large_block) with_large
unfolding from_block
get_block-insert_block_other_example =
    get_block-insert_block_other big_endian hashing row_engine row_engine-IsScan next_block
      with_large (from_block hashing large_block) next_inserted next_IsNew (λ e. ground (arith, e))
