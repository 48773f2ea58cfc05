-- ===== src/Validate.antt =====
-- crates/node/src/validate.rs. `State`, the databases that a validation reads, and `key_range`; the
-- children have the keys, the registries, the check of a block and the dry run.
mod Tests
pub mod NextKey
pub mod KeyRange
pub mod Registry
pub mod Inner
pub mod DryRun
use essential_node.Types.{ContentAddress, Key, Value}
use essential_node.Convert.{Convert}
use essential_node.Errors.{QueryError, RusqliteError}
use essential_node.Db.{Database, Engine}
use essential_node.Db.Pool.{AcquireError, ConnectionPool, acquire_pool}
use essential_node.Db.Finalized.{
  query_state_inclusive_solution_set, query_state_exclusive_solution_set,
}
use NextKey.{next_key}
use essential_node.Prelude.{
  ℕ, zero, suc, Bool, true, false, Option, none, some, List, [], ◌∷◌, if◌then◌else◌, ℤ, Result, ok,
  err, ◌>>=◌, ◌>>◌, map_err, ok_or,
}

-- the enum `Db`
pub data Source : Type 0 where
  dry_run : ConnectionPool → ConnectionPool → Source
  connection_pool : ConnectionPool → Source

-- the enum `Transaction`; a `Conn` is only asked for one
pub data Transaction : Type 0 where
  cascade : Database → Database → Transaction
  handle : Database → Transaction

pub record State : Type 0 where
  pub block_number : ℤ
  pub solution_set_index : ℕ
  pub pre_state : Bool
  pub conn_pool : Source

-- `StateReadError` of crates/node/src/error.rs
pub data StateReadError : Type 0 where
  query_failed : QueryError → StateReadError
  db_pool_closed : AcquireError → StateReadError
  rusqlite_failed : RusqliteError → StateReadError
  join_failed : StateReadError
  key_range_error : StateReadError

-- `Db::acquire` and `Conn::transaction`
unfoldable pub acquire : Source → Result AcquireError Transaction
unfolding acquire_pool
acquire (dry_run memory pool) = do m ← acquire_pool memory; d ← acquire_pool pool; ok (cascade m d)
acquire (connection_pool pool) = do d ← acquire_pool pool; ok (handle d)

abbrev pub Query : Type 0
Query = Database → Result QueryError (Option Value)

-- the function `cascade`
unfoldable pub run_cascade : Database → Database → Query → Result QueryError (Option Value)
run_cascade memory db f = do
  found ← f memory
  let next = f db
  elim found [ some val ↦ ok (some val) | none ↦ next ]

unfoldable pub query : Transaction → Query → Result QueryError (Option Value)
unfolding run_cascade
query (cascade memory db) f = run_cascade memory db f
query (handle db) f = f db

abbrev pub unwrap_or_default : Option Value → Value
unwrap_or_default none = []
unwrap_or_default (some v) = v

-- the loop of `key_range`, over the query at a key
unfoldable pub key_range_loop :
    (Key → Result QueryError (Option Value)) → ℕ → Key → Result StateReadError (List Value)
key_range_loop read zero key = ok []
key_range_loop read (suc n) key = do
  value ← map_err query_failed (read key)
  key' ← ok_or (next_key key) key_range_error
  values ← key_range_loop read n key'
  ok (unwrap_or_default value ∷ values)

module _ (e : Engine) (c : Convert) where
  unfoldable pub query_state : ContentAddress → Key → ℤ → ℕ → Bool → Query
  query_state contract_ca key block_number ix true db =
      query_state_exclusive_solution_set e c contract_ca key block_number ix db
  query_state contract_ca key block_number ix false db =
      query_state_inclusive_solution_set e c contract_ca key block_number ix db

  unfoldable pub key_range : State → ContentAddress → Key → ℕ → Result StateReadError (List Value)
  unfolding query_state acquire query key_range_loop
  key_range state contract_addr key num_values = do
    tx ← map_err db_pool_closed (acquire state.conn_pool)
    key_range_loop
        (λ k.
          query tx (
            query_state contract_addr k state.block_number state.solution_set_index
              state.pre_state))
        num_values key
