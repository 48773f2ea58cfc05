-- ===== src/Db/Stored.antt =====
-- The rows that `insert_block` (crates/node-db/src/lib.rs) adds for a solution set that is new to
-- the database, and the reads of them.
pub mod Insert
pub mod Alike
pub mod Read
pub mod Frame
pub mod New
pub mod Added
pub mod Sets
pub mod Places
pub mod Blocks
pub mod Others
pub mod RoundTrip
pub mod Unchanged
mod Tests
use essential_node.Types.{ContentAddress, Mutation, Value, Solution}
use essential_node.Convert.{Convert}
use essential_node.Blob.{blob_from_words}
use essential_node.Db.{SolutionSetRow, SolutionRow, MutationRow, PredDataRow, Database}
use essential_node.Db.Statements.{
  next_id, find_set, find_solution, solution_id, insert_solution, insert_mutation, insert_pred_data,
}
use essential_node.Db.Insert.{
  insert_mutations, insert_pred_datas, insert_whole_solution, insert_solutions,
}
use essential_node.Db.Select.{find-new, find-other, next_id-snoc}
use essential_node.Prelude.{
  ℕ, suc, ◌≡◌, refl, some, List, [], ◌∷◌, ◌++◌, map, append-nil, append_assoc, ap, ◌∙◌, none, set,
  Bytes,
}

-- the id of the next row
abbrev pub next_set : Database → ℕ
next_set db = next_id (map (λ s. s.id) db.solution_set)

abbrev pub next_solution : Database → ℕ
next_solution db = next_id (map (λ s. s.id) db.solution)

-- the database with more rows
abbrev pub with_rows : Database → List SolutionRow → List MutationRow → List PredDataRow → Database
with_rows db solutions mutations datas = record db {
  solution = db.solution ++ solutions;
  mutation = db.mutation ++ mutations;
  pred_data = db.pred_data ++ datas;
}

pub with_rows-with_rows :
    (db : Database) (s s' : List SolutionRow) (m m' : List MutationRow) (d d' : List PredDataRow)
    → with_rows (with_rows db s m d) s' m' d' ≡ with_rows db (s ++ s') (m ++ m') (d ++ d')
with_rows-with_rows db s s' m m' d d' =
    rw
      (append_assoc db.solution s s', append_assoc db.mutation m m', append_assoc db.pred_data d d')
      refl

abbrev pub solution_row : ℕ → ℕ → ℕ → Solution → SolutionRow
solution_row set_id ix id s = record {
  id = id;
  solution_set_id = set_id;
  solution_index = ix;
  contract_addr = s.predicate_to_solve.contract;
  predicate_addr = s.predicate_to_solve.predicate;
}

-- the rows of the solutions of a set from an index on, with ids in turn
abbrev pub rows_of_solutions : ℕ → ℕ → ℕ → List Solution → List SolutionRow
rows_of_solutions set_id ix id [] = []
rows_of_solutions set_id ix id (s ∷ ss) =
    solution_row set_id ix id s ∷ rows_of_solutions set_id (suc ix) (suc id) ss

module _ (c : Convert) where
  abbrev pub rows_of_mutations : ℕ → ℕ → List Mutation → List MutationRow
  rows_of_mutations id ix [] = []
  rows_of_mutations id ix (m ∷ ms) =
      record {
        solution_id = id;
        mutation_index = ix;
        key = blob_from_words c m.key;
        value = blob_from_words c m.value;
      }
      ∷ rows_of_mutations id (suc ix) ms

  abbrev pub rows_of_data : ℕ → ℕ → List Value → List PredDataRow
  rows_of_data id ix [] = []
  rows_of_data id ix (v ∷ vs) =
      record { solution_id = id; pred_data_index = ix; value = blob_from_words c v }
      ∷ rows_of_data id (suc ix) vs

  -- those of each solution, whose ids come in turn
  abbrev pub all_mutations : ℕ → List Solution → List MutationRow
  all_mutations id [] = []
  all_mutations id (s ∷ ss) = rows_of_mutations id 0 s.state_mutations ++ all_mutations (suc id) ss

  abbrev pub all_data : ℕ → List Solution → List PredDataRow
  all_data id [] = []
  all_data id (s ∷ ss) = rows_of_data id 0 s.predicate_data ++ all_data (suc id) ss

  insert_mutation-row :
      (ca : ContentAddress) (six ix : ℕ) (key value : Bytes) (db : Database) {id : ℕ}
      → solution_id db ca six ≡ some id
      → insert_mutation ca six ix key value db ≡ record db {
        mutation =
            db.mutation
            ++ record { solution_id = id; mutation_index = ix; key = key; value = value } ∷ [];
      }
  unfolding insert_mutation
  insert_mutation-row ca six ix key value db found = rw (found, insert_mutation) refl

  insert_pred_data-row :
      (ca : ContentAddress) (six ix : ℕ) (value : Bytes) (db : Database) {id : ℕ}
      → solution_id db ca six ≡ some id
      → insert_pred_data ca six ix value db ≡ record db {
        pred_data =
            db.pred_data ++ record { solution_id = id; pred_data_index = ix; value = value } ∷ [];
      }
  unfolding insert_pred_data
  insert_pred_data-row ca six ix value db found = rw (found, insert_pred_data) refl

  pub insert_mutations-rows :
      (ca : ContentAddress) (six ix : ℕ) (ms : List Mutation) (db : Database) {id : ℕ}
      → solution_id db ca six ≡ some id
      → insert_mutations c ca six ix ms db
        ≡ record db { mutation = db.mutation ++ rows_of_mutations id ix ms }
  unfolding insert_mutations solution_id
  insert_mutations-rows ca six ix [] db found = rw (append-nil db.mutation) refl
  insert_mutations-rows ca six ix (m ∷ ms) db {id} found =
      let row : MutationRow = record {
        solution_id = id;
        mutation_index = ix;
        key = blob_from_words c m.key;
        value = blob_from_words c m.value;
      } in
      ap (insert_mutations c ca six (suc ix) ms) (
        insert_mutation-row ca six ix (blob_from_words c m.key) (blob_from_words c m.value) db
          found)
      ∙ insert_mutations-rows ca six (suc ix) ms (record db { mutation = db.mutation ++ row ∷ [] })
          found
      ∙ ap (λ rows. record db { mutation = rows })
          (append_assoc db.mutation (row ∷ []) (rows_of_mutations id (suc ix) ms))

  pub insert_pred_datas-rows :
      (ca : ContentAddress) (six ix : ℕ) (vs : List Value) (db : Database) {id : ℕ}
      → solution_id db ca six ≡ some id
      → insert_pred_datas c ca six ix vs db
        ≡ record db { pred_data = db.pred_data ++ rows_of_data id ix vs }
  unfolding insert_pred_datas solution_id
  insert_pred_datas-rows ca six ix [] db found = rw (append-nil db.pred_data) refl
  insert_pred_datas-rows ca six ix (v ∷ vs) db {id} found =
      let row : PredDataRow = record {
        solution_id = id;
        pred_data_index = ix;
        value = blob_from_words c v;
      } in
      ap (insert_pred_datas c ca six (suc ix) vs)
        (insert_pred_data-row ca six ix (blob_from_words c v) db found)
      ∙ insert_pred_datas-rows ca six (suc ix) vs
          (record db { pred_data = db.pred_data ++ row ∷ [] }) found
      ∙ ap (λ rows. record db { pred_data = rows })
          (append_assoc db.pred_data (row ∷ []) (rows_of_data id (suc ix) vs))
