-- ===== src/Db/Statements.antt =====
-- The statements that write: crates/node-db-sql/sql/insert and crates/node-db-sql/sql/update. Each
-- declaration is one file of these. A new row gets the id after the largest one. `OR IGNORE` skips a
-- row that breaks a constraint, so it skips one whose subquery finds nothing.
use essential_node.Types.{ContentAddress}
use essential_node.Errors.{RusqliteError, sqlite_failure, constraint_violation}
use essential_node.Db.{BlockRow, SolutionSetRow, BlockSetRow, SolutionRow, StateRow, Database}
use essential_node.Prelude.{
  ℕ, suc, max, Bool, not, ◌&&◌, ◌||◌, Option, none, some, List, [], ◌∷◌, ◌++◌, map, ◌==◌,
  if◌then◌else◌, select, exists, find, ℤ, eq_ℤ, Result, ok, err, Bytes, bytes_eq,
}

-- the id that SQLite gives to the next row of a table with these ids
unfoldable pub next_id : List ℕ → ℕ
next_id [] = 1
next_id (i ∷ is) = max (suc i) (next_id is)

unfoldable pub find_block : Database → ContentAddress → Option BlockRow
find_block db address = find (λ b. bytes_eq b.block_address address) db.block

-- `(SELECT id FROM solution_set WHERE content_addr = …)`
unfoldable pub find_set : Database → ContentAddress → Option SolutionSetRow
find_set db addr = find (λ s. bytes_eq s.content_addr addr) db.solution_set

-- the solution with this index in the set with this id
unfoldable pub find_solution : Database → ℕ → ℕ → Option SolutionRow
find_solution db set_id ix =
    find (λ s. (s.solution_set_id == set_id) && (s.solution_index == ix)) db.solution

-- `(SELECT solution.id FROM solution JOIN solution_set … LIMIT 1)`
unfoldable pub solution_id : Database → ContentAddress → ℕ → Option ℕ
unfolding find_set find_solution
solution_id db set_addr ix = elim (find_set db set_addr) [
  | none ↦ none
  | some s ↦ elim (find_solution db s.id ix) [ none ↦ none | some r ↦ some r.id ]
]

-- insert/block.sql
unfoldable pub insert_block_row : ContentAddress → ContentAddress → ℤ → ℕ → ℕ → Database → Database
unfolding next_id find_block
insert_block_row address parent number secs nanos db = elim (find_block db address) [
  | some b ↦ db
  | none ↦ record db {
    block =
        db.block
        ++ record {
          id = next_id (map (λ b. b.id) db.block);
          block_address = address;
          parent_block_id = elim (find_block db parent) [ none ↦ 0 | some p ↦ p.id ];
          number = number;
          timestamp_secs = secs;
          timestamp_nanos = nanos;
        }
          ∷ [];
  }
]

-- insert/solution_set.sql
unfoldable pub insert_solution_set : ContentAddress → Database → Database
unfolding next_id find_set
insert_solution_set addr db = elim (find_set db addr) [
  | some s ↦ db
  | none ↦ record db {
    solution_set =
        db.solution_set
        ++ record { id = next_id (map (λ s. s.id) db.solution_set); content_addr = addr } ∷ [];
  }
]

abbrev pub same_block_set : BlockSetRow → BlockSetRow → Bool
same_block_set r s =
    (r.block_id == s.block_id)
    && (r.solution_set_id == s.solution_set_id)
    && (r.solution_set_index == s.solution_set_index)

-- insert/block_solution_set.sql
unfoldable pub insert_block_solution_set : ContentAddress → ContentAddress → ℕ → Database → Database
unfolding find_block find_set
insert_block_solution_set block_address set_addr ix db = elim (find_block db block_address) [
  | none ↦ db
  | some b ↦ elim (find_set db set_addr) [
    | none ↦ db
    | some s ↦
        let row : BlockSetRow = record {
          block_id = b.id;
          solution_set_id = s.id;
          solution_set_index = ix;
        } in
        if exists (same_block_set row) db.block_solution_set
        then db
        else record db { block_solution_set = db.block_solution_set ++ row ∷ [] }
  ]
]

-- insert/solution.sql
unfoldable pub insert_solution :
    ContentAddress → ℕ → ContentAddress → ContentAddress → Database → Database
unfolding next_id find_set find_solution
insert_solution set_addr ix contract predicate db = elim (find_set db set_addr) [
  | none ↦ db
  | some s ↦ elim (find_solution db s.id ix) [
    | some r ↦ db
    | none ↦ record db {
      solution =
          db.solution
          ++ record {
            id = next_id (map (λ r. r.id) db.solution);
            solution_set_id = s.id;
            solution_index = ix;
            contract_addr = contract;
            predicate_addr = predicate;
          }
            ∷ [];
    }
  ]
]

-- insert/mutation.sql: the table has no `UNIQUE` constraint
unfoldable pub insert_mutation : ContentAddress → ℕ → ℕ → Bytes → Bytes → Database → Database
unfolding solution_id
insert_mutation set_addr solution_ix ix key value db = elim (solution_id db set_addr solution_ix) [
  | none ↦ db
  | some i ↦ record db {
    mutation =
        db.mutation
        ++ record { solution_id = i; mutation_index = ix; key = key; value = value } ∷ [];
  }
]

-- insert/pred_data.sql: neither has this one
unfoldable pub insert_pred_data : ContentAddress → ℕ → ℕ → Bytes → Database → Database
unfolding solution_id
insert_pred_data set_addr solution_ix ix value db = elim (solution_id db set_addr solution_ix) [
  | none ↦ db
  | some i ↦ record db {
    pred_data =
        db.pred_data ++ record { solution_id = i; pred_data_index = ix; value = value } ∷ [];
  }
]

-- insert/finalize_block.sql: `block_number` is the primary key and `block_id` is `UNIQUE`, and `OR
-- ABORT` turns a conflict into an error. No row is inserted for an address that is not there.
unfoldable pub insert_finalized : ContentAddress → Database → Result RusqliteError Database
unfolding find_block
insert_finalized address db = elim (find_block db address) [
  | none ↦ ok db
  | some b ↦
      if exists (λ f. eq_ℤ f.block_number b.number || (f.block_id == b.id)) db.finalized_block
      then err (sqlite_failure constraint_violation)
      else ok (record db {
        finalized_block =
            db.finalized_block ++ record { block_number = b.number; block_id = b.id } ∷ [];
      })
]

-- insert/failed_block.sql
unfoldable pub insert_failed : ContentAddress → ContentAddress → Database → Database
unfolding find_block find_set
insert_failed address set_addr db = elim (find_block db address) [
  | none ↦ db
  | some b ↦ elim (find_set db set_addr) [
    | none ↦ db
    | some s ↦
        if exists (λ f. (f.block_id == b.id) && (f.solution_set_id == s.id)) db.failed_block
        then db
        else record db {
          failed_block = db.failed_block ++ record { block_id = b.id; solution_set_id = s.id } ∷ [];
        }
  ]
]

-- insert/validation_progress.sql: `OR REPLACE` on the row with id 1. A null `block_id` breaks `NOT
-- NULL`, which has no default to put in its place: an error.
unfoldable pub replace_progress : ContentAddress → Database → Result RusqliteError Database
unfolding find_block
replace_progress address db = elim (find_block db address) [
  | none ↦ err (sqlite_failure constraint_violation)
  | some b ↦ ok (record db { progress = some b.id })
]

abbrev pub same_state : ContentAddress → Bytes → StateRow → Bool
same_state contract key r = bytes_eq r.contract_ca contract && bytes_eq r.key key

abbrev pub put_state : ContentAddress → Bytes → Bytes → List StateRow → List StateRow
put_state contract key value [] = record { contract_ca = contract; key = key; value = value } ∷ []
put_state contract key value (r ∷ rs) =
    let rest = put_state contract key value rs in
    if same_state contract key r then record r { value = value } ∷ rs else r ∷ rest

-- update/state.sql
unfoldable pub upsert_state : ContentAddress → Bytes → Bytes → Database → Database
upsert_state contract key value db = record db { state = put_state contract key value db.state }

-- update/delete_state.sql
unfoldable pub remove_state : ContentAddress → Bytes → Database → Database
remove_state contract key db = record db {
  state = select (λ r. not (same_state contract key r)) db.state;
}
