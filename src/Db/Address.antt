-- ===== src/Db/Address.antt =====
-- crates/node-db/src/query_range/address.rs: the value of a key as a block and its ancestors leave it,
-- over query_state_block_address.sql. The recursive query is a recursion on fuel, one for each ancestor;
-- `none` says that it ran out.
pub mod Ancestors
pub mod Rows
pub mod Own
pub mod Nothing
mod Tests
use mathlib.Core.Option
use essential_node.Types.{ContentAddress, Key, Value}
use essential_node.Convert.{Convert}
use essential_node.Blob.{blob_from_words, words_from_blob}
use essential_node.Errors.{QueryError, rusqlite}
use essential_node.Db.{
  BlockRow, BlockSetRow, SolutionRow, MutationRow, FinalizedRow, Database, Engine,
}
use essential_node.Db.Sort.{sort}
use essential_node.Db.Insert.{to_sql}
use essential_node.Db.Query.{get_parent_block_address}
use essential_node.Db.Finalized
use essential_node.Prelude.{
  ℕ, zero, suc, Bool, true, false, not, ◌&&◌, Option, none, some, List, [], ◌∷◌, map, ltb, leb,
  ◌==◌, head, select, exists, flat, ℤ, Result, ok, err, Bytes, bytes_eq,
}

-- A row of `chain`. Its depth is the number of the list that it is in.
pub record ChainRow : Type 0 where
  pub block_id : ℕ
  pub parent_block_id : ℕ
  pub number : ℤ
  pub found_value : Option Bytes

-- the right side of a `LEFT JOIN`
abbrev pub left_join : {A : Type 0} → List A → List (Option A)
left_join [] = none ∷ []
left_join (x ∷ xs) = map some (x ∷ xs)

abbrev pub is_none : {A : Type 0} → Option A → Bool
is_none none = true
is_none (some a) = false

module _ (e : Engine) (contract_ca : ContentAddress) (key : Bytes) (db : Database) where
  -- the solutions of a set at the contract, and their mutations of the key
  abbrev pub set_solutions : ℕ → List SolutionRow
  set_solutions set_id = e.scan SolutionRow (
      select (λ s. (s.solution_set_id == set_id) && bytes_eq s.contract_addr contract_ca)
        db.solution)

  abbrev pub key_mutations : SolutionRow → List MutationRow
  key_mutations s =
      e.scan MutationRow (select (λ m. (m.solution_id == s.id) && bytes_eq m.key key) db.mutation)

  abbrev pub left_mutations : Option SolutionRow → List (Option Bytes)
  left_mutations none = none ∷ []
  left_mutations (some s) =
      map (Option.map (λ (m : MutationRow). m.value)) (left_join (key_mutations s))

  -- the left joins on the solutions of a set
  abbrev pub left_values : ℕ → List (Option Bytes)
  left_values set_id = flat left_mutations (left_join (set_solutions set_id))

  abbrev pub left_set_values : Option BlockSetRow → List (Option Bytes)
  left_set_values none = none ∷ []
  left_set_values (some r) = left_values r.solution_set_id

  abbrev pub chain_row : BlockRow → Option Bytes → ChainRow
  chain_row b found = record {
    block_id = b.id;
    parent_block_id = b.parent_block_id;
    number = b.number;
    found_value = found;
  }

  abbrev pub block_sets : ℕ → List BlockSetRow
  block_sets id = e.scan BlockSetRow (select (λ r. r.block_id == id) db.block_solution_set)

  -- the base case
  unfoldable pub chain_base : ContentAddress → List ChainRow
  chain_base block_address =
      flat
        (λ (b : BlockRow). map (chain_row b) (flat left_set_values (left_join (block_sets b.id))))
        (e.scan BlockRow (select (λ b. bytes_eq b.block_address block_address) db.block))

  -- the recursion goes on from a row with no value, of a block that is not finalized
  abbrev pub goes_on : ChainRow → Bool
  goes_on r =
      is_none r.found_value
      && not (exists (λ (f : FinalizedRow). f.block_id == r.block_id) db.finalized_block)

  -- the recursive case, which joins a solution whose set has the id of the block
  abbrev pub parent_rows : ChainRow → List ChainRow
  parent_rows r =
      flat (λ (b : BlockRow). map (chain_row b) (left_values b.id))
        (e.scan BlockRow (select (λ b. b.id == r.parent_block_id) db.block))

  unfoldable pub chain_next : List ChainRow → List ChainRow
  chain_next rows = flat parent_rows (select goes_on rows)

  -- the rows of `chain`, a list for each depth
  unfoldable pub chain : ℕ → List ChainRow → Option (List (List ChainRow))
  chain fuel [] = some []
  chain zero (r ∷ rows) = none
  chain (suc fuel) (r ∷ rows) =
      let deeper = chain fuel (chain_next (r ∷ rows)) in Option.map (◌∷◌ (r ∷ rows)) deeper

  -- the value in the block of a row, of the set with the greatest index up to the given one
  abbrev pub in_reach : Option ℕ → BlockSetRow → Bool
  in_reach none r = true
  in_reach (some ix) r = leb r.solution_set_index ix

  abbrev pub set_values : BlockSetRow → List (BlockSetRow × Bytes)
  set_values r =
      flat (λ (s : SolutionRow). map (λ (m : MutationRow). (r, m.value)) (key_mutations s))
        (set_solutions r.solution_set_id)

  abbrev pub block_values : Option ℕ → ℕ → List (BlockSetRow × Bytes)
  block_values ix block_id = flat set_values (select (in_reach ix) (block_sets block_id))

  abbrev pub greater_index : BlockSetRow × Bytes → BlockSetRow × Bytes → Bool
  greater_index p q = ltb q.0.solution_set_index p.0.solution_set_index

  unfoldable pub value_in_block : Option ℕ → ℕ → Option Bytes
  value_in_block ix block_id =
      Option.map (λ (p : BlockSetRow × Bytes). p.1)
        (head (sort greater_index (block_values ix block_id)))

  -- `WHERE found_value IS NOT NULL`, which is the column of `chain`, by depth
  unfoldable pub first_found : List (List ChainRow) → Option ChainRow
  first_found levels = head (select (λ r. not (is_none r.found_value)) (flat (λ rows. rows) levels))

  -- query_state_block_address.sql
  unfoldable pub chain_value : ℕ → Option ℕ → ContentAddress → Option (Option (Option Bytes × ℤ))
  unfolding chain chain_base first_found value_in_block
  chain_value fuel ix block_address =
      Option.map
        (λ levels.
          Option.map (λ (r : ChainRow). (value_in_block ix r.block_id, r.number))
            (first_found levels))
        (chain fuel (chain_base block_address))

module _ (e : Engine) (c : Convert) (contract_ca : ContentAddress) (key : Key) where
  -- the `match` on the row
  unfoldable pub value_or_finalized :
      Option (Option Bytes × ℤ) → Database → Result QueryError (Option Value)
  value_or_finalized none db = ok none
  value_or_finalized (some (some blob, n)) db = ok (some (words_from_blob c blob))
  value_or_finalized (some (none, n)) db =
      Finalized.query_state_inclusive_block e c contract_ca key n db

  unfoldable pub query_state_inclusive_block :
      ℕ → ContentAddress → Database → Option (Result QueryError (Option Value))
  unfolding chain_value value_or_finalized
  query_state_inclusive_block fuel block_address db =
      Option.map (λ row. value_or_finalized row db)
        (chain_value e contract_ca (blob_from_words c key) db fuel none block_address)

  unfoldable pub query_state_exclusive_block :
      ℕ → ContentAddress → Database → Option (Result QueryError (Option Value))
  unfolding query_state_inclusive_block
  query_state_exclusive_block fuel block_address db =
      elim (get_parent_block_address block_address db) [
        | none ↦ some (ok none)
        | some parent ↦ query_state_inclusive_block fuel parent db
      ]

  unfoldable pub query_state_inclusive_solution_set :
      ℕ → ContentAddress → ℕ → Database → Option (Result QueryError (Option Value))
  unfolding chain_value value_or_finalized to_sql
  query_state_inclusive_solution_set fuel block_address ix db = elim (to_sql ix) [
    | err f ↦ some (err (rusqlite f))
    | ok i ↦
        Option.map (λ row. value_or_finalized row db)
          (chain_value e contract_ca (blob_from_words c key) db fuel (some i) block_address)
  ]

  unfoldable pub query_state_exclusive_solution_set :
      ℕ → ContentAddress → ℕ → Database → Option (Result QueryError (Option Value))
  unfolding query_state_exclusive_block query_state_inclusive_solution_set
  query_state_exclusive_solution_set fuel block_address zero db =
      query_state_exclusive_block fuel block_address db
  query_state_exclusive_solution_set fuel block_address (suc ix) db =
      query_state_inclusive_solution_set fuel block_address ix db
