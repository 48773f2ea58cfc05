-- ===== src/Db/Insert.antt =====
-- The functions of crates/node-db/src/lib.rs that write. `named_params!` turns a `u64` into an SQL
-- integer and fails where it does not fit; a statement that runs on its own is a transaction.
use essential_node.Types.{ContentAddress, Key, Value, Mutation, Solution, SolutionSet, Block}
use essential_node.Types.Addr.{from_header_and_solution_set_addrs_slice}
use essential_node.Convert.{Convert}
use essential_node.Blob.{blob_from_words}
use essential_node.Hashing.{Hashing}
use essential_node.Errors.{RusqliteError, to_sql_conversion_failure}
use essential_node.Db.{Database}
use essential_node.Db.Statements.{
  insert_block_row, insert_solution_set, insert_block_solution_set, insert_solution,
  insert_mutation, insert_pred_data, insert_finalized, insert_failed, replace_progress,
  upsert_state, remove_state,
}
use essential_node.Prelude.{
  ℕ, suc, ◌^◌, List, [], ◌∷◌, map, ltb, if◌then◌else◌, replicate, Result, ok, err, ◌>>=◌,
}

-- the bound of an SQL integer
abbrev pub sql_integer_limit : ℕ
sql_integer_limit = 2 ^ 63

-- `u64::to_sql`
unfoldable pub to_sql : ℕ → Result RusqliteError ℕ
to_sql n = if ltb n sql_integer_limit then ok n else err to_sql_conversion_failure

abbrev pub zero_address : ContentAddress
zero_address = replicate 32 0

module _ (c : Convert) where
  unfoldable pub insert_mutations : ContentAddress → ℕ → ℕ → List Mutation → Database → Database
  insert_mutations ca solution_ix ix [] db = db
  insert_mutations ca solution_ix ix (m ∷ ms) db =
      insert_mutations ca solution_ix (suc ix) ms
        (insert_mutation ca solution_ix ix (blob_from_words c m.key) (blob_from_words c m.value) db)

  unfoldable pub insert_pred_datas : ContentAddress → ℕ → ℕ → List Value → Database → Database
  insert_pred_datas ca solution_ix ix [] db = db
  insert_pred_datas ca solution_ix ix (v ∷ vs) db =
      insert_pred_datas ca solution_ix (suc ix) vs
        (insert_pred_data ca solution_ix ix (blob_from_words c v) db)

  -- one solution with its mutations and its predicate data
  unfoldable pub insert_whole_solution : ContentAddress → ℕ → Solution → Database → Database
  insert_whole_solution ca ix s db = insert_pred_datas ca ix 0 s.predicate_data (
      insert_mutations ca ix 0 s.state_mutations
        (insert_solution ca ix s.predicate_to_solve.contract s.predicate_to_solve.predicate db))

  unfoldable pub insert_solutions : ContentAddress → ℕ → List Solution → Database → Database
  insert_solutions ca ix [] db = db
  insert_solutions ca ix (s ∷ ss) db =
      insert_solutions ca (suc ix) ss (insert_whole_solution ca ix s db)

  -- one solution set: its row, its place in the block, and its solutions
  unfoldable pub insert_whole_set :
      ContentAddress → ContentAddress → ℕ → SolutionSet → Database → Database
  insert_whole_set block_address ca ix set db =
      insert_solutions ca 0 set.solutions
        (insert_block_solution_set block_address ca ix (insert_solution_set ca db))

  module _ (h : Hashing) where
    unfoldable pub insert_sets : ContentAddress → ℕ → List SolutionSet → Database → Database
    insert_sets block_address ix [] db = db
    insert_sets block_address ix (set ∷ sets) db =
        insert_sets block_address (suc ix) sets
          (insert_whole_set block_address (h.solution_set_addr set) ix set db)

    unfoldable pub insert_block :
        Block → Database → Result RusqliteError (ContentAddress × Database)
    insert_block b db = do
      let addrs = map h.solution_set_addr b.solution_sets
      let block_address = from_header_and_solution_set_addrs_slice h b.header addrs
      secs ← to_sql b.header.timestamp.secs
      let db' =
          insert_block_row block_address zero_address b.header.number secs b.header.timestamp.nanos
            db
      ok (block_address, insert_sets block_address 0 b.solution_sets db')

  unfoldable pub update_state : ContentAddress → Key → Value → Database → Database
  update_state contract_ca key value =
      upsert_state contract_ca (blob_from_words c key) (blob_from_words c value)

  unfoldable pub delete_state : ContentAddress → Key → Database → Database
  delete_state contract_ca key = remove_state contract_ca (blob_from_words c key)

unfoldable pub finalize_block : ContentAddress → Database → Result RusqliteError Database
finalize_block = insert_finalized

unfoldable pub insert_failed_block : ContentAddress → ContentAddress → Database → Database
insert_failed_block = insert_failed

unfoldable pub update_validation_progress :
    ContentAddress → Database → Result RusqliteError Database
update_validation_progress = replace_progress
