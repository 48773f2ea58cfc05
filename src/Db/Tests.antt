-- ===== src/Db/Tests.antt =====
-- The theorems about the database, at small inputs.
use essential_node.Db.Statements.{find_block, insert_finalized}
use essential_node.Types.{Key, Value}
use essential_node.Convert.BigEndian.{big_endian, big_endian-IsConvert}
use essential_node.Db.EmptyBlock.{get_block-no_sets}
use essential_node.Db.{BlockRow, Database, create_tables, row_engine}
use essential_node.Db.Finalized.{
  Write, writes, at_or_before, value_words, query_state_inclusive_block,
  query_state_inclusive_solution_set,
}
use essential_node.Db.Finalized.Latest.{IsLatest, query_state_finalized-IsLatest}
use essential_node.Blob.{blob_from_words}
use essential_node.Errors.{rusqlite, invalid_column_type}
use essential_node.Samples.{row_engine-IsScan}
use essential_node.Db.Insert.{finalize_block, update_state, delete_state}
use essential_node.Db.Query.{get_block, query_state}
use essential_node.Db.State.{same_entry, query_state-writes}
use essential_node.Prelude.{
  ◌≡◌, none, some, [], ◌∷◌, arith, if◌then◌else◌, pos, negsuc, refl, not, Option, ltb_ℤ, ok, err,
  bytes_eq,
}

abbrev some_key : Key
some_key = pos 1 ∷ []

abbrev other_key : Key
other_key = pos 2 ∷ []

abbrev some_value : Value
some_value = negsuc 4 ∷ []

query_state-writes_example :
    (query_state big_endian
        (5 ∷ [])
        other_key
        (update_state big_endian (5 ∷ []) some_key some_value create_tables)
      ≡ (if same_entry big_endian (5 ∷ []) some_key (5 ∷ []) other_key
          then some some_value
          else query_state big_endian (5 ∷ []) other_key create_tables))
    × (query_state big_endian
          (5 ∷ [])
          other_key
          (delete_state big_endian (5 ∷ []) some_key create_tables)
        ≡ (if same_entry big_endian (5 ∷ []) some_key (5 ∷ []) other_key
            then none
            else query_state big_endian (5 ∷ []) other_key create_tables))
query_state-writes_example =
    query_state-writes big_endian big_endian-IsConvert (5 ∷ []) (5 ∷ []) some_key other_key
      some_value create_tables (omega arith, tt)

abbrev first_row : BlockRow
first_row = record {
  id = 1;
  block_address = 4 ∷ [];
  parent_block_id = 0;
  number = pos 0;
  timestamp_secs = 10;
  timestamp_nanos = 500;
}

abbrev final_block : Database
final_block = record create_tables {
  block = first_row ∷ [];
  finalized_block = record { block_number = pos 0; block_id = 1 } ∷ [];
  solution_set = record { id = 1; content_addr = 3 ∷ [] } ∷ [];
  block_solution_set = record { block_id = 1; solution_set_id = 1; solution_set_index = 0 } ∷ [];
  solution =
      record {
        id = 1;
        solution_set_id = 1;
        solution_index = 0;
        contract_addr = 5 ∷ [];
        predicate_addr = 6 ∷ [];
      }
      ∷ [];
  mutation =
      record {
        solution_id = 1;
        mutation_index = 0;
        key = blob_from_words big_endian some_key;
        value = blob_from_words big_endian some_value;
      }
      ∷ [];
}

abbrev not_final : Database
not_final = record final_block { finalized_block = [] }

finalized : finalize_block (4 ∷ []) not_final ≡ ok final_block
unfolding finalize_block insert_finalized bytes_eq
finalized = refl

query_state_finalized-IsLatest_example :
    ((w : Option Write) × IsLatest
        (λ v. not (ltb_ℤ (pos 0) v.block_number))
        (writes (5 ∷ []) (blob_from_words big_endian some_key) final_block)
        w
      × (query_state_inclusive_block row_engine big_endian (5 ∷ []) some_key (pos 0) final_block
          ≡ ok (value_words big_endian w)))
    × ((w : Option Write) × IsLatest
          (at_or_before (pos 0) 0)
          (writes (5 ∷ []) (blob_from_words big_endian some_key) final_block)
          w
        × (query_state_inclusive_solution_set row_engine big_endian
              (5 ∷ [])
              some_key
              (pos 0)
              0
              final_block
            ≡ ok (value_words big_endian w)))
query_state_finalized-IsLatest_example =
    query_state_finalized-IsLatest row_engine row_engine-IsScan big_endian (5 ∷ []) some_key (pos 0)
      0 final_block (omega arith)

abbrev empty_block : Database
empty_block = record create_tables { block = first_row ∷ [] }

first_row_found : find_block empty_block (4 ∷ []) ≡ some first_row
unfolding find_block bytes_eq
first_row_found = refl

get_block-no_sets_example :
    get_block row_engine big_endian (4 ∷ []) empty_block ≡ err (rusqlite invalid_column_type)
get_block-no_sets_example =
    get_block-no_sets row_engine row_engine-IsScan big_endian (4 ∷ []) empty_block first_row
      first_row_found refl
