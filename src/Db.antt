-- ===== src/Db.antt =====
-- The tables of the node's database, after the `CREATE TABLE` statements that `create_tables` of
-- crates/node-db/src/lib.rs runs (crates/node-db-sql/sql/create). A row keeps the columns that some
-- statement reads; a table is the list of its rows, the oldest first. What SQLite leaves open, the
-- order in which it yields rows that no `ORDER BY` separates, is the parameter `Engine`.
pub mod Sort
pub mod Has
pub mod Distinct
pub mod Select
pub mod Ascending
pub mod Statements
pub mod Insert
pub mod Query
pub mod Listing
pub mod GetBlock
pub mod LatestBlock
pub mod Stored
pub mod Subscribe
pub mod Finalized
pub mod Address
pub mod Transaction
pub mod Pool
pub mod State
pub mod Blocks
pub mod Finality
pub mod EmptyBlock
mod Tests
use essential_node.Types.{ContentAddress}
use essential_node.Prelude.{ℕ, ◌≡◌, refl, Option, none, List, [], ℤ, Bytes}

pub record BlockRow : Type 0 where
  pub id : ℕ
  pub block_address : ContentAddress
  pub parent_block_id : ℕ
  pub number : ℤ
  pub timestamp_secs : ℕ
  pub timestamp_nanos : ℕ

pub record FinalizedRow : Type 0 where
  pub block_number : ℤ
  pub block_id : ℕ

pub record SolutionSetRow : Type 0 where
  pub id : ℕ
  pub content_addr : ContentAddress

pub record BlockSetRow : Type 0 where
  pub block_id : ℕ
  pub solution_set_id : ℕ
  pub solution_set_index : ℕ

pub record SolutionRow : Type 0 where
  pub id : ℕ
  pub solution_set_id : ℕ
  pub solution_index : ℕ
  pub contract_addr : ContentAddress
  pub predicate_addr : ContentAddress

pub record MutationRow : Type 0 where
  pub solution_id : ℕ
  pub mutation_index : ℕ
  pub key : Bytes
  pub value : Bytes

pub record PredDataRow : Type 0 where
  pub solution_id : ℕ
  pub pred_data_index : ℕ
  pub value : Bytes

pub record FailedRow : Type 0 where
  pub block_id : ℕ
  pub solution_set_id : ℕ

pub record StateRow : Type 0 where
  pub contract_ca : ContentAddress
  pub key : Bytes
  pub value : Bytes

-- `validation_progress` has the row with id 1 or none, and `progress` is its `block_id`.
pub record Database : Type 0 where
  pub block : List BlockRow
  pub finalized_block : List FinalizedRow
  pub solution_set : List SolutionSetRow
  pub block_solution_set : List BlockSetRow
  pub solution : List SolutionRow
  pub mutation : List MutationRow
  pub pred_data : List PredDataRow
  pub failed_block : List FailedRow
  pub state : List StateRow
  pub progress : Option ℕ

-- what `create_tables` leaves in a new database
abbrev pub create_tables : Database
create_tables = record {
  block = [];
  finalized_block = [];
  solution_set = [];
  block_solution_set = [];
  solution = [];
  mutation = [];
  pred_data = [];
  failed_block = [];
  state = [];
  progress = none;
}

-- the order in which rows come that a statement does not put in order
pub record Engine : Type 1 where
  pub scan : (A : Type 0) → List A → List A

-- an engine that yields the rows in the order of their ids
abbrev pub row_engine : Engine
row_engine = record { scan = λ A xs. xs }
