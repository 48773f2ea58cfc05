-- ===== src/RusqlitePool.antt =====
-- crates/rusqlite-pool/src/lib.rs: a pool of connections over a queue of fixed capacity. The queue is
-- crossbeam's `ArrayQueue` (RusqlitePool/Queue), and a connection is any type. An operation gives
-- the pool after it; a panic is a value.
pub mod Queue
pub mod Permits
pub mod Tokio
pub mod Steps
pub mod Facts
pub mod Balance
pub mod Invariant
pub mod Calls
pub mod Close
pub mod Safety
pub mod Instances
mod Tests
pub mod Open
use Queue.{ArrayQueue}
use essential_node.Prelude.{ℕ, zero, suc, Bool, Option, none, some, List, [], ◌∷◌, Result, ok, err}

-- `ArrayQueue::new` panics on 0; the others have the messages "cannot exceed fixed queue size",
-- "connection cannot be `None`", "permit guarantees availability".
pub data Panic : Type 0 where
  zero_capacity queue_len conn_none no_connection : Panic

pub record ConnectionHandle (Connection : Type 0) : Type 0 where
  pub conn : Option Connection

module _ {Connection : Type 0} (aq : ArrayQueue Connection) where
  open aq use {Queue, new_queue, push, pop_front, queue_capacity, is_full}

  -- the struct `ConnectionPool`, of which the queue is all
  abbrev pub ConnectionPool : Type 0
  ConnectionPool = Queue

  -- the loop of `new`: the rounds left, the number of the next connection, and what opening it gives
  unfoldable pub new_loop :
      {E : Type 0}
      → ℕ
      → ℕ
      → (ℕ → Result E Connection)
      → ConnectionPool
      → Result Panic (Result E ConnectionPool)
  new_loop zero i new_conn queue = ok (ok queue)
  new_loop (suc n) i new_conn queue = elim (new_conn i) [
    | err e ↦ ok (err e)
    | ok conn ↦ elim (push conn queue) [
      | err c ↦ err queue_len
      | ok queue' ↦ new_loop n (suc i) new_conn queue'
    ]
  ]

  unfoldable pub new :
      {E : Type 0} → ℕ → (ℕ → Result E Connection) → Result Panic (Result E ConnectionPool)
  unfolding new_loop
  new capacity new_conn = elim (new_queue capacity) [
    | none ↦ err zero_capacity
    | some queue ↦ new_loop capacity 0 new_conn queue
  ]

  unfoldable pub pop : ConnectionPool → Option (ConnectionHandle Connection × ConnectionPool)
  pop pool = elim (pop_front pool) [
    | none ↦ none
    | some (conn, pool') ↦ some (record { conn = some conn }, pool')
  ]

  unfoldable pub capacity : ConnectionPool → ℕ
  capacity pool = queue_capacity pool

  unfoldable pub all_connections_ready : ConnectionPool → Bool
  all_connections_ready pool = is_full pool

  -- `deref` and `deref_mut` of a handle
  unfoldable pub deref : ConnectionHandle Connection → Result Panic Connection
  deref handle = elim handle.conn [ none ↦ err conn_none | some conn ↦ ok conn ]

  -- `drop` of a handle
  unfoldable pub drop_handle :
      ConnectionHandle Connection → ConnectionPool → Result Panic ConnectionPool
  drop_handle handle pool = elim handle.conn [
    | none ↦ err conn_none
    | some conn ↦ elim (push conn pool) [ err c ↦ err queue_len | ok pool' ↦ ok pool' ]
  ]

  -- the loop of `close`, on fuel: the results of closing the connections in the queue. `none` says
  -- that the fuel ran out.
  unfoldable pub close :
      {R : Type 0} → ℕ → (Connection → R) → ConnectionPool → Option (List R × ConnectionPool)
  close zero close_conn pool = none
  close (suc fuel) close_conn pool = elim (pop_front pool) [
    | none ↦ some ([], pool)
    | some (conn, pool') ↦ elim (close fuel close_conn pool') [
      | none ↦ none
      | some (res, pool'') ↦ some (close_conn conn ∷ res, pool'')
    ]
  ]
