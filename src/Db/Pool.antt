-- ===== src/Db/Pool.antt =====
-- `ConnectionPool` of crates/node-db/src/pool.rs: a database behind a pool of connections, and whether
-- the pool was closed, which is when `acquire` fails. Each method runs one function on a connection;
-- `spawn_blocking` runs it to its end and its task is joined. How connections are shared out is in
-- RusqlitePool.
pub mod Methods
pub mod Open
use essential_node.Db.{Database}
use essential_node.Prelude.{
  Bool, if◌then◌else◌, Result, ok, err, map_err, ◌≡◌, inl, inr, arith, Result-cases, false, sym,
  subst,
}

pub data AcquireError : Type 0 where
  acquire_error : AcquireError

pub record ConnectionPool : Type 0 where
  pub database : Database
  pub closed : Bool

-- `join_failed` is a `JoinError`, of a task that was cancelled or that panicked
pub data AcquireThenError (E : Type 0) : Type 0 where
  acquire_failed : AcquireError → AcquireThenError E
  join_failed : AcquireThenError E
  inner : E → AcquireThenError E

unfoldable pub acquire_pool : ConnectionPool → Result AcquireError Database
acquire_pool p = if p.closed then err acquire_error else ok p.database

-- the pool with this database behind it
abbrev pub with_database : ConnectionPool → Database → ConnectionPool
with_database pool db = record pool { database = db }

-- the function's result, and the pool with what it wrote
unfoldable pub acquire_then :
    {T E : Type 0}
    → ConnectionPool
    → (Database → Result E T × Database)
    → Result (AcquireThenError E) T × ConnectionPool
acquire_then pool f = elim (acquire_pool pool) [
  | err e ↦ (err (acquire_failed e), pool)
  | ok db ↦ let out = f db in (map_err inner out.0, with_database pool out.1)
]

acquire_pool-eq-ok :
    (pool : ConnectionPool) {db : Database} → acquire_pool pool ≡ ok db → db ≡ pool.database
unfolding acquire_pool
acquire_pool-eq-ok pool h = ground arith

-- where the function keeps the database when it fails, so does the call the pool
pub acquire_then-err :
    {T E : Type 0} (pool : ConnectionPool) (f : Database → Result E T × Database)
    {e : AcquireThenError E}
    → ((db : Database) (e' : E) → (f db).0 ≡ err e' → (f db).1 ≡ db)
    → (acquire_then pool f).0 ≡ err e
    → (acquire_then pool f).1 ≡ pool
unfolding acquire_then
acquire_then-err pool f keeps h = elim (Result-cases (acquire_pool pool)) [
  | inr (g, a) ↦ rw (a, acquire_then)
  | inl (db, a) ↦ elim (Result-cases (f db).0) [
    | inl (out, r) ↦ absurd (ground (arith, a, r))
    | inr (g, r) ↦ rw (a, acquire_then) (rw (keeps db g r, acquire_pool-eq-ok pool a))
  ]
]

-- an open pool runs the function on its database
pub acquire_then-open :
    {T E : Type 0} (pool : ConnectionPool) (f : Database → Result E T × Database)
    → pool.closed ≡ false
    → acquire_then pool f
      ≡ (map_err inner (f pool.database).0, with_database pool (f pool.database).1)
unfolding acquire_then acquire_pool
acquire_then-open pool f h = rw h

-- what the function keeps of the database, the call keeps of the pool's
pub acquire_then-keeps :
    {T E : Type 0} (P : Database → Type 0) (pool : ConnectionPool)
    (f : Database → Result E T × Database)
    → P pool.database
    → ((db : Database) → P db → P (f db).1)
    → P (acquire_then pool f).1.database
unfolding acquire_then acquire_pool
acquire_then-keeps P pool f h keeps = elim (Result-cases (acquire_pool pool)) [
  | inl (db, a) ↦ rw (a, acquire_then) (keeps db (subst P (sym (acquire_pool-eq-ok pool a)) h))
  | inr (g, a) ↦ rw (a, acquire_then) h
]
