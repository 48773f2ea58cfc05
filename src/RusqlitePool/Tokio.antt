-- ===== src/RusqlitePool/Tokio.antt =====
-- crates/rusqlite-pool/src/tokio.rs: the pool behind a semaphore, each call run with no other between
-- its steps. RusqlitePool/Steps has the steps of several callers in any order.
use essential_node.RusqlitePool.{
  Panic, no_connection, ConnectionHandle, ConnectionPool, new, pop, capacity, all_connections_ready,
  drop_handle, close,
}
use essential_node.RusqlitePool.Queue.{ArrayQueue}
use essential_node.RusqlitePool.Permits.{Semaphore, TryAcquireError, closed, no_permits}
use essential_node.Prelude.{ℕ, Bool, Option, none, some, List, Result, ok, err}

-- what a call of `acquire` gives: it may have to wait
pub data Acquired (H : Type 0) : Type 0 where
  acquired : H → Acquired H
  acquire_error waits : Acquired H

-- the permit that a handle holds is counted by the semaphore
pub record AsyncConnectionHandle (Connection : Type 0) : Type 0 where
  pub conn : ConnectionHandle Connection

module _ {Connection : Type 0} (aq : ArrayQueue Connection) (sm : Semaphore) where
  open sm use {
    Sem, new_semaphore, try_acquire_owned, add_permit, close_semaphore, semaphore_is_closed,
  }

  pub record AsyncConnectionPool : Type 0 where
    pub pool : ConnectionPool aq
    pub semaphore : Sem

  unfoldable pub new_async :
      {E : Type 0} → ℕ → (ℕ → Result E Connection) → Result Panic (Result E AsyncConnectionPool)
  new_async conn_limit new_conn = elim (new aq conn_limit new_conn) [
    | err panic ↦ err panic
    | ok (err e) ↦ ok (err e)
    | ok (ok queue) ↦ ok (ok (record { pool = queue; semaphore = new_semaphore conn_limit }))
  ]

  unfoldable pub capacity_async : AsyncConnectionPool → ℕ
  capacity_async p = capacity aq p.pool

  unfoldable pub all_connections_ready_async : AsyncConnectionPool → Bool
  all_connections_ready_async p = all_connections_ready aq p.pool

  -- what follows on a permit in `acquire` and in `try_acquire`
  unfoldable pub with_permit :
      AsyncConnectionPool → Result Panic (AsyncConnectionHandle Connection × AsyncConnectionPool)
  with_permit p = elim (pop aq p.pool) [
    | none ↦ err no_connection
    | some (conn, pool') ↦ ok (record { conn = conn }, record p { pool = pool' })
  ]

  unfoldable pub try_acquire :
      AsyncConnectionPool
      → Result Panic
          (Result TryAcquireError (AsyncConnectionHandle Connection × AsyncConnectionPool))
  unfolding with_permit
  try_acquire p = elim (try_acquire_owned p.semaphore) [
    | err e ↦ ok (err e)
    | ok sem ↦ elim (with_permit (record p { semaphore = sem })) [
      | err panic ↦ err panic
      | ok out ↦ ok (ok out)
    ]
  ]

  -- `acquire`, up to its wait for a permit
  unfoldable pub acquire :
      AsyncConnectionPool
      → Result Panic (Acquired (AsyncConnectionHandle Connection × AsyncConnectionPool))
  unfolding with_permit
  acquire p = elim (try_acquire_owned p.semaphore) [
    | err closed ↦ ok acquire_error
    | err no_permits ↦ ok waits
    | ok sem ↦ elim (with_permit (record p { semaphore = sem })) [
      | err panic ↦ err panic
      | ok out ↦ ok (acquired out)
    ]
  ]

  -- the drop of a handle: first of the connection, then of the permit
  unfoldable pub drop_async :
      AsyncConnectionHandle Connection → AsyncConnectionPool → Result Panic AsyncConnectionPool
  drop_async handle p = elim (drop_handle aq handle.conn p.pool) [
    | err panic ↦ err panic
    | ok pool' ↦ ok (record { pool = pool'; semaphore = add_permit p.semaphore })
  ]

  unfoldable pub close_async :
      {R : Type 0}
      → ℕ
      → (Connection → R)
      → AsyncConnectionPool
      → Option (List R × AsyncConnectionPool)
  close_async fuel close_conn p = elim (close aq fuel close_conn p.pool) [
    | none ↦ none
    | some (res, pool') ↦
        some (res, record { pool = pool'; semaphore = close_semaphore p.semaphore })
  ]

  unfoldable pub is_closed : AsyncConnectionPool → Bool
  is_closed p = semaphore_is_closed p.semaphore
