-- ===== src/Db/Query.antt =====
-- The functions of crates/node-db/src/lib.rs that read one thing, over the statements of
-- crates/node-db-sql/sql/query. A statement that yields a null where a blob is wanted is an error of
-- `row.get`.
use essential_node.Types.{ContentAddress, Key, Value, Solution, SolutionSet, Header, Block}
use essential_node.Convert.{Convert}
use essential_node.Blob.{blob_from_words, words_from_blob}
use essential_node.Errors.{QueryError, rusqlite, invalid_column_type}
use essential_node.Db.{
  BlockRow, BlockSetRow, SolutionRow, MutationRow, PredDataRow, StateRow, Database, Engine,
}
use essential_node.Db.Sort.{sort}
use essential_node.Db.Statements.{find_block, find_set, solution_id, same_state}
use essential_node.Prelude.{
  ℕ, suc, ◌&&◌, Option, none, some, List, [], ◌∷◌, map, ltb, ◌==◌, head, select, exists, find,
  ltb_ℤ, eq_ℤ, inc, Result, ok, ◌>>=◌, ok_or, bytes_eq,
}

-- get_block_header.sql and `get_block_header`
unfoldable pub get_block_header : ContentAddress → Database → Option Header
unfolding find_block
get_block_header address db = elim (find_block db address) [
  | none ↦ none
  | some b ↦ some (record {
    number = b.number;
    timestamp = record { secs = b.timestamp_secs; nanos = b.timestamp_nanos };
  })
]

-- get_parent_block_address.sql
unfoldable pub get_parent_block_address : ContentAddress → Database → Option ContentAddress
unfolding find_block
get_parent_block_address address db = elim (find_block db address) [
  | none ↦ none
  | some b ↦ elim (find (λ p. p.id == b.parent_block_id) db.block) [
    | none ↦ none
    | some p ↦ some p.block_address
  ]
]

-- get_validation_progress.sql
unfoldable pub get_validation_progress : Database → Option ContentAddress
get_validation_progress db = elim db.progress [
  | none ↦ none
  | some i ↦ elim (find (λ b. b.id == i) db.block) [ none ↦ none | some b ↦ some b.block_address ]
]

-- the left join of a block with its solution sets, in the order of their index: a block that has
-- none has one row, with a null address
unfoldable pub set_rows : Database → List BlockSetRow → List (Option ContentAddress)
set_rows db [] = none ∷ []
set_rows db (r ∷ rs) =
    map
      (λ (q : BlockSetRow). elim (find (λ s. s.id == q.solution_set_id) db.solution_set) [
        | none ↦ none
        | some s ↦ some s.content_addr
      ])
      (r ∷ rs)

-- `row.get::<_, Hash>`
unfoldable pub get_hash : Option ContentAddress → Result QueryError ContentAddress
get_hash address = ok_or address (rusqlite invalid_column_type)

abbrev pub row_words : Convert → Option StateRow → Option Value
row_words c none = none
row_words c (some r) = some (words_from_blob c r.value)

-- get_state.sql
unfoldable pub query_state : Convert → ContentAddress → Key → Database → Option Value
query_state c contract_ca key db =
    row_words c (find (same_state contract_ca (blob_from_words c key)) db.state)

module _ (e : Engine) where
  -- get_latest_finalized_block_address.sql
  unfoldable pub get_latest_finalized_block_address : Database → Option ContentAddress
  get_latest_finalized_block_address db =
      elim (head (
        sort (λ a b. ltb_ℤ b.number a.number)
          (e.scan BlockRow
            (select (λ b. exists (λ f. f.block_id == b.id) db.finalized_block) db.block)))) [
              | none ↦ none
              | some b ↦ some b.block_address
            ]

  -- get_next_block_addresses.sql: the blocks whose number follows that of the given block
  unfoldable pub get_next_block_addresses : ContentAddress → Database → List ContentAddress
  get_next_block_addresses current db =
      map (λ b. b.block_address)
        (e.scan BlockRow (
          select
            (λ b.
              exists (λ p. bytes_eq p.block_address current && eq_ℤ b.number (inc p.number))
                db.block)
            db.block))

  -- get_solution.sql
  unfoldable pub solution_rows : ContentAddress → Database → List SolutionRow
  unfolding find_set
  solution_rows ca db = elim (find_set db ca) [
    | none ↦ []
    | some s ↦
        sort (λ a b. ltb a.solution_index b.solution_index)
          (e.scan SolutionRow (select (λ r. r.solution_set_id == s.id) db.solution))
  ]

  -- get_solution_mutations.sql: its `ORDER BY` stands behind the semicolon and is no part of it
  unfoldable pub mutation_rows : ContentAddress → ℕ → Database → List MutationRow
  unfolding solution_id
  mutation_rows ca ix db = elim (solution_id db ca ix) [
    | none ↦ []
    | some i ↦ e.scan MutationRow (select (λ r. r.solution_id == i) db.mutation)
  ]

  -- get_solution_pred_data.sql: nor is it here
  unfoldable pub pred_data_rows : ContentAddress → ℕ → Database → List PredDataRow
  unfolding solution_id
  pred_data_rows ca ix db = elim (solution_id db ca ix) [
    | none ↦ []
    | some i ↦ e.scan PredDataRow (select (λ r. r.solution_id == i) db.pred_data)
  ]

  -- the rows of a block's solution sets
  unfoldable pub block_set_rows : Database → BlockRow → List (Option ContentAddress)
  unfolding set_rows
  block_set_rows db b = set_rows db (
      sort (λ r s. ltb r.solution_set_index s.solution_set_index)
        (e.scan BlockSetRow (select (λ r. r.block_id == b.id) db.block_solution_set)))

  module _ (c : Convert) where
    -- the solution at place `ix` of the result, with the data fetched under this index
    unfoldable pub fetch_solution : ContentAddress → Database → ℕ → SolutionRow → Solution
    unfolding mutation_rows pred_data_rows
    fetch_solution ca db ix r = record {
      predicate_to_solve = record { contract = r.contract_addr; predicate = r.predicate_addr };
      predicate_data = map (λ d. words_from_blob c d.value) (pred_data_rows ca ix db);
      state_mutations =
          map (λ m. record { key = words_from_blob c m.key; value = words_from_blob c m.value })
            (mutation_rows ca ix db);
    }

    unfoldable pub fetch_solutions :
        ContentAddress → Database → ℕ → List SolutionRow → List Solution
    fetch_solutions ca db ix [] = []
    fetch_solutions ca db ix (r ∷ rs) =
        fetch_solution ca db ix r ∷ fetch_solutions ca db (suc ix) rs

    unfoldable pub get_solution_set : ContentAddress → Database → SolutionSet
    unfolding fetch_solutions solution_rows
    get_solution_set ca db = record { solutions = fetch_solutions ca db 0 (solution_rows ca db) }

    -- the loop over the rows of `get_block`
    unfoldable pub fetch_sets :
        Database → List (Option ContentAddress) → Result QueryError (List SolutionSet)
    fetch_sets db [] = ok []
    fetch_sets db (r ∷ rs) = do
      ca ← get_hash r
      rest ← fetch_sets db rs
      ok (get_solution_set ca db ∷ rest)

    unfoldable pub get_block : ContentAddress → Database → Result QueryError (Option Block)
    unfolding fetch_sets block_set_rows get_block_header find_block
    get_block address db = elim (get_block_header address db) [
      | none ↦ ok none
      | some header ↦ elim (find_block db address) [
        | none ↦ ok none
        | some b ↦ do
          sets ← fetch_sets db (block_set_rows db b)
          ok (some (record { header = header; solution_sets = sets }))
      ]
    ]
