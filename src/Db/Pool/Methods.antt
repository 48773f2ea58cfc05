-- ===== src/Db/Pool/Methods.antt =====
-- The methods of `ConnectionPool` in crates/node-db/src/pool.rs: a result, and the pool after the call.
use essential_node.Types.{ContentAddress, Key, Value, SolutionSet, Duration, Block}
use essential_node.Convert.{Convert}
use essential_node.Hashing.{Hashing}
use essential_node.Errors.{RusqliteError, QueryError}
use essential_node.Db.{Database, Engine}
use essential_node.Db.Pool.{ConnectionPool, AcquireThenError, acquire_then}
use essential_node.Db.Transaction.{with_tx}
use essential_node.Db.Insert
use essential_node.Db.Query
use essential_node.Db.Listing
use essential_node.Db.Finalized
use essential_node.Prelude.{ℕ, Option, none, some, List, ℤ, Result, ok, err}

abbrev pub Call : Type 0 → Type 0 → Type 0
Call E T = ConnectionPool → Result (AcquireThenError E) T × ConnectionPool

-- a function that only reads
abbrev pub reading : {E T : Type 0} → (Database → Result E T) → Database → Result E T × Database
reading f db = (f db, db)

-- a statement that writes, outside a transaction: it fails or is in force
abbrev pub writing :
    {E : Type 0} → (Database → Result E Database) → Database → Result E (Unit {0}) × Database
writing f db = elim (f db) [ ok db' ↦ (ok tt, db') | err e ↦ (err e, db) ]

-- a function that reads, in a transaction
abbrev pub in_tx : {E T : Type 0} → (Database → Result E T) → Database → Result E (T × Database)
in_tx f db = elim (f db) [ ok out ↦ ok (out, db) | err e ↦ err e ]

unfoldable pub finalize_block : ContentAddress → Call RusqliteError (Unit {0})
unfolding acquire_then
finalize_block block_ca pool = acquire_then pool (writing (Insert.finalize_block block_ca))

unfoldable pub update_validation_progress : ContentAddress → Call RusqliteError (Unit {0})
unfolding acquire_then
update_validation_progress block_ca pool =
    acquire_then pool (writing (Insert.update_validation_progress block_ca))

unfoldable pub get_validation_progress : Call QueryError (Option ContentAddress)
unfolding acquire_then
get_validation_progress pool =
    acquire_then pool (reading (λ db. ok (Query.get_validation_progress db)))

module _ (c : Convert) where
  unfoldable pub insert_block : Hashing → Block → Call RusqliteError ContentAddress
  unfolding acquire_then with_tx
  insert_block h block pool = acquire_then pool (with_tx (Insert.insert_block c h block))

  unfoldable pub update_state : ContentAddress → Key → Value → Call RusqliteError (Unit {0})
  unfolding acquire_then
  update_state contract_ca key value pool =
      acquire_then pool (writing (λ db. ok (Insert.update_state c contract_ca key value db)))

  unfoldable pub delete_state : ContentAddress → Key → Call RusqliteError (Unit {0})
  unfolding acquire_then
  delete_state contract_ca key pool =
      acquire_then pool (writing (λ db. ok (Insert.delete_state c contract_ca key db)))

  unfoldable pub query_state : ContentAddress → Key → Call QueryError (Option Value)
  unfolding acquire_then
  query_state contract_ca key pool =
      acquire_then pool (reading (λ db. ok (Query.query_state c contract_ca key db)))

module _ (e : Engine) where
  unfoldable pub get_next_block_addresses : ContentAddress → Call QueryError (List ContentAddress)
  unfolding acquire_then
  get_next_block_addresses current pool =
      acquire_then pool (reading (λ db. ok (Query.get_next_block_addresses e current db)))

  module _ (c : Convert) where
    unfoldable pub get_block : ContentAddress → Call QueryError (Option Block)
    unfolding acquire_then with_tx
    get_block address pool = acquire_then pool (with_tx (in_tx (Query.get_block e c address)))

    unfoldable pub get_solution_set : ContentAddress → Call QueryError SolutionSet
    unfolding acquire_then with_tx
    get_solution_set ca pool =
        acquire_then pool (with_tx (in_tx (λ db. ok (Query.get_solution_set e c ca db))))

    -- the value of the key as the latest finalized block leaves it
    abbrev pub latest_value : ContentAddress → Key → Database → Result QueryError (Option Value)
    latest_value contract_ca key db = elim (Query.get_latest_finalized_block_address e db) [
      | none ↦ ok none
      | some addr ↦ elim (Query.get_block_header addr db) [
        | none ↦ ok none
        | some header ↦ Finalized.query_state_inclusive_block e c contract_ca key header.number db
      ]
    ]

    unfoldable pub query_latest_finalized_block :
        ContentAddress → Key → Call QueryError (Option Value)
    unfolding acquire_then
    query_latest_finalized_block contract_ca key pool =
        acquire_then pool (reading (latest_value contract_ca key))

    unfoldable pub query_state_finalized_inclusive_block :
        ContentAddress → Key → ℤ → Call QueryError (Option Value)
    unfolding acquire_then
    query_state_finalized_inclusive_block contract_ca key n pool =
        acquire_then pool (reading (Finalized.query_state_inclusive_block e c contract_ca key n))

    unfoldable pub query_state_finalized_exclusive_block :
        ContentAddress → Key → ℤ → Call QueryError (Option Value)
    unfolding acquire_then
    query_state_finalized_exclusive_block contract_ca key n pool =
        acquire_then pool (reading (Finalized.query_state_exclusive_block e c contract_ca key n))

    unfoldable pub query_state_finalized_inclusive_solution_set :
        ContentAddress → Key → ℤ → ℕ → Call QueryError (Option Value)
    unfolding acquire_then
    query_state_finalized_inclusive_solution_set contract_ca key n ix pool =
        acquire_then pool
          (reading (Finalized.query_state_inclusive_solution_set e c contract_ca key n ix))

    unfoldable pub query_state_finalized_exclusive_solution_set :
        ContentAddress → Key → ℤ → ℕ → Call QueryError (Option Value)
    unfolding acquire_then
    query_state_finalized_exclusive_solution_set contract_ca key n ix pool =
        acquire_then pool
          (reading (Finalized.query_state_exclusive_solution_set e c contract_ca key n ix))

    unfoldable pub list_blocks : ℤ → ℤ → Call QueryError (List Block)
    unfolding acquire_then with_tx
    list_blocks start end pool =
        acquire_then pool (with_tx (in_tx (Listing.list_blocks e c start end)))

    unfoldable pub list_blocks_by_time : Duration → Duration → ℤ → ℤ → Call QueryError (List Block)
    unfolding acquire_then with_tx
    list_blocks_by_time start end page_size page_number pool =
        acquire_then pool
          (with_tx (in_tx (Listing.list_blocks_by_time e c start end page_size page_number)))
