-- ===== src/Db/Pool/Open.antt =====
-- How crates/node-db/src/pool.rs opens and closes its connections, over the pool of
-- crates/rusqlite-pool. SQLite is outside the repository: what the code calls of it is a parameter.
pub mod Ready
mod Tests
use essential_node.RusqlitePool.{Panic, ConnectionHandle, deref}
use essential_node.RusqlitePool.Queue.{ArrayQueue}
use essential_node.RusqlitePool.Permits.{Semaphore}
use essential_node.RusqlitePool.Tokio.{
  AsyncConnectionHandle, AsyncConnectionPool, new_async, try_acquire, drop_async, close_async,
}
use essential_node.Prelude.{
  ℕ, ◌*◌, min, Bool, true, false, Option, none, some, List, [], ◌∷◌, ◌++◌, Result, ok, err, ◌>>=◌,
  ◌>>◌, Bytes,
}

pub data Source : Type 0 where
  memory path : Bytes → Source

pub record Config : Type 0 where
  pub conn_limit : ℕ
  pub source : Source

pub data Pragma : Type 0 where
  trusted_schema foreign_keys : Bool → Pragma
  synchronous : ℕ → Pragma
  journal_mode_wal : Pragma

-- The number says which of the connections of the pool is opened. `create_tables` is the transaction
-- that runs the function of this name, and `close` gives the error of a connection that stays open.
pub record Sqlite : Type 1 where
  pub Connection : Type 0
  pub Error : Type 0
  pub open_path : Bytes → ℕ → Result Error Connection
  pub open_memdb : Bytes → ℕ → Result Error Connection
  pub pragma_update : Pragma → Connection → Result Error Connection
  pub create_tables : Connection → Result Error Connection
  pub close_connection : Connection → Result Error (Unit {0})

-- `expect("pool must have at least one connection")` and the `unwrap` of `with_tables`
pub data OpenPanic : Type 0 where
  in_pool : Panic → OpenPanic
  none_available : OpenPanic

-- "__default-id"
abbrev pub default_id : Bytes
default_id = 95 ∷ 95 ∷ 100 ∷ 101 ∷ 102 ∷ 97 ∷ 117 ∷ 108 ∷ 116 ∷ 45 ∷ 105 ∷ 100 ∷ []

unfoldable pub default_memory : Source
default_memory = memory default_id

-- `num_cpus::get().saturating_mul(4)`, of a `usize` with the given largest value
unfoldable pub default_conn_limit : ℕ → ℕ → ℕ
default_conn_limit usize_max num_cpus = min (num_cpus * 4) usize_max

unfoldable pub default_config : ℕ → ℕ → Config
unfolding default_memory default_conn_limit
default_config usize_max num_cpus = record {
  conn_limit = default_conn_limit usize_max num_cpus;
  source = default_memory;
}

module _ (sq : Sqlite) where
  open sq use {Connection, Error}

  -- "file:/"
  abbrev file_scheme : Bytes
  file_scheme = 102 ∷ 105 ∷ 108 ∷ 101 ∷ 58 ∷ 47 ∷ []

  unfoldable pub new_mem_conn : Bytes → ℕ → Result Error Connection
  new_mem_conn id i = sq.open_memdb (file_scheme ++ id) i

  -- the creation of the directory is ignored where it fails
  unfoldable pub open_source : Source → ℕ → Result Error Connection
  unfolding new_mem_conn
  open_source (memory id) i = new_mem_conn id i
  open_source (path p) i = do
    conn ← sq.open_path p i
    conn ← sq.pragma_update (trusted_schema false) conn
    sq.pragma_update (synchronous 1) conn

  unfoldable pub new_conn : Source → ℕ → Result Error Connection
  unfolding open_source
  new_conn source i = do conn ← open_source source i; sq.pragma_update (foreign_keys true) conn

  module _ (aq : ArrayQueue sq.Connection) (sm : Semaphore) where
    abbrev pub Pool : Type 0
    Pool = AsyncConnectionPool aq sm

    -- a panic, an error of SQLite, or a result
    abbrev pub Opened : Type 0 → Type 0
    Opened T = Result OpenPanic (Result Error T)

    unfoldable pub new_conn_pool : Config → Result Panic (Result Error Pool)
    unfolding new_conn
    new_conn_pool conf = new_async aq sm conf.conn_limit (new_conn conf.source)

    -- a connection is acquired, changed, and given back when its handle is dropped
    unfoldable pub with_handle : (Connection → Result Error Connection) → Pool → Opened Pool
    unfolding try_acquire drop_async
    with_handle change pool = elim (try_acquire aq sm pool) [
      | err panic ↦ err (in_pool panic)
      | ok (err e) ↦ err none_available
      | ok (ok (handle, pool')) ↦ elim (deref aq handle.conn) [
        | err panic ↦ err (in_pool panic)
        | ok conn ↦ elim (change conn) [
          | err e ↦ ok (err e)
          | ok conn' ↦
              elim (drop_async aq sm (record { conn = record { conn = some conn' } }) pool') [
                | err panic ↦ err (in_pool panic)
                | ok pool'' ↦ ok (ok pool'')
              ]
        ]
      ]
    ]

    -- the write-ahead log of a database in a file
    unfoldable pub set_journal_mode : Source → Pool → Opened Pool
    unfolding with_handle
    set_journal_mode (memory id) pool = ok (ok pool)
    set_journal_mode (path p) pool = with_handle (sq.pragma_update journal_mode_wal) pool

    unfoldable pub new_pool : Config → Opened Pool
    unfolding new_conn_pool set_journal_mode
    new_pool conf = elim (new_conn_pool conf) [
      | err panic ↦ err (in_pool panic)
      | ok (err e) ↦ ok (err e)
      | ok (ok pool) ↦ set_journal_mode conf.source pool
    ]

    unfoldable pub with_tables : Config → Opened Pool
    unfolding new_pool with_handle
    with_tables conf = elim (new_pool conf) [
      | err panic ↦ err panic
      | ok (err e) ↦ ok (err e)
      | ok (ok pool) ↦ with_handle sq.create_tables pool
    ]

    -- `res.into_iter().filter_map(Result::err)`
    abbrev pub errors_of : List (Result Error (Unit {0})) → List Error
    errors_of [] = []
    errors_of (ok u ∷ res) = errors_of res
    errors_of (err e ∷ res) = e ∷ errors_of res

    abbrev pub close_result : List Error → Result (List Error) (Unit {0})
    close_result [] = ok tt
    close_result (e ∷ errs) = err (e ∷ errs)

    -- on the fuel of the loop of `close`
    unfoldable pub close_pool : ℕ → Pool → Option (Result (List Error) (Unit {0}) × Pool)
    unfolding close_async
    close_pool fuel pool = elim (close_async aq sm fuel sq.close_connection pool) [
      | none ↦ none
      | some (res, pool') ↦ some (close_result (errors_of res), pool')
    ]
