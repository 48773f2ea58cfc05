-- ===== src/Db/Pool/Open/Ready.antt =====
-- What opening the pool of crates/node-db/src/pool.rs gives on every branch.
use essential_node.RusqlitePool.{Panic, zero_capacity, ConnectionPool, new, pop, drop_handle, deref}
use essential_node.RusqlitePool.Queue.{ArrayQueue, IsArrayQueue}
use essential_node.RusqlitePool.Permits.{Semaphore, IsSemaphore}
use essential_node.RusqlitePool.Tokio.{
  AsyncConnectionPool, new_async, with_permit, try_acquire, drop_async,
}
use essential_node.RusqlitePool.Open.{Opens, all_open, open_fails, new-Opens}
use essential_node.Db.Pool.Open.{
  Sqlite, Source, memory, path, journal_mode_wal, Opened, in_pool, with_handle, set_journal_mode,
  new_conn, new_conn_pool, new_pool, with_tables,
}
use essential_node.Prelude.{
  ℕ, suc, ◌≡◌, ap, ◌∙◌, inl, inr, false, arith, length, Result, ok, err, Result-cases, List-cases,
  [], ◌∷◌, length-append, refl,
}

module _ (sq : Sqlite) (aq : ArrayQueue sq.Connection) (qlaws : IsArrayQueue aq) (sm : Semaphore)
    (slaws : IsSemaphore sm) where
  -- an open pool whose connections, `n` of them, are all in the queue, each with its permit
  pub record Ready (n : ℕ) (p : AsyncConnectionPool aq sm) : Type 0 where
    pub all_queued : length (qlaws.contents p.pool) ≡ n
    pub all_permits : slaws.permits p.semaphore ≡ n
    pub capacity_same : aq.queue_capacity p.pool ≡ n
    pub not_closed : sm.semaphore_is_closed p.semaphore ≡ false

  -- a ready pool, or an error of SQLite, and no panic
  pub data Finishes (n : ℕ) : Opened sq aq sm (AsyncConnectionPool aq sm) → Type 0 where
    opened : {p : AsyncConnectionPool aq sm} → Ready n p → Finishes n (ok (ok p))
    sqlite_error : {e : sq.Error} → Finishes n (ok (err e))

  -- a connection for a change is there, and there is room for it afterwards
  with_handle-Finishes :
      (n : ℕ) (change : sq.Connection → Result sq.Error sq.Connection)
      (p : AsyncConnectionPool aq sm)
      → Ready (suc n) p
      → Finishes (suc n) (with_handle sq aq sm change p)
  unfolding with_handle pop deref drop_handle
  with_handle-Finishes n change p r =
      let (sem, given, left, opened_still) =
        slaws.acquire_some n p.semaphore r.not_closed r.all_permits in
      elim (List-cases (qlaws.contents p.pool)) [
        | inl empty ↦ absurd (omega (arith, r.all_queued, ap length empty))
        | inr (c, rest, held) ↦
            let (q, popped, fewer, cap1) = qlaws.pop_first c rest p.pool held in
            elim (Result-cases (change c)) [
              | inr (e, failed) ↦
                  rw (with_handle, try_acquire, given, with_permit, pop, popped, deref, failed)
                    sqlite_error
              | inl (c', changed) ↦
                  let (q', pushed, more, cap2) = qlaws.push_room c' q (
                    omega
                      (arith, r.all_queued, r.capacity_same, ap length held, ap length fewer)) in
                  rw
                    (
                      with_handle, try_acquire, given, with_permit, pop, popped, deref, changed,
                      drop_async, drop_handle, pushed,
                    )
                    (opened (record {
                      all_queued = omega (
                        arith,
                        r.all_queued,
                        ap length held,
                        ap length fewer,
                        ap length more,
                        length-append (qlaws.contents q) (c' ∷ []),
                      );
                      all_permits = slaws.permits-add sem ∙ ap suc left;
                      capacity_same = cap2 ∙ cap1 ∙ r.capacity_same;
                      not_closed = slaws.closed-add sem ∙ opened_still;
                    }))
            ]
      ]

  Finishes-change :
      (n : ℕ) (change : sq.Connection → Result sq.Error sq.Connection)
      {out : Opened sq aq sm (AsyncConnectionPool aq sm)}
      → Finishes (suc n) out
      → Finishes (suc n) (elim out [
        | err panic ↦ err panic
        | ok (err e) ↦ ok (err e)
        | ok (ok pool) ↦ with_handle sq aq sm change pool
      ])
  Finishes-change n change (opened {p} r) = with_handle-Finishes n change p r
  Finishes-change n change sqlite_error = sqlite_error

  set_journal_mode-Finishes :
      (n : ℕ) (source : Source) (p : AsyncConnectionPool aq sm)
      → Ready (suc n) p
      → Finishes (suc n) (set_journal_mode sq aq sm source p)
  unfolding set_journal_mode
  set_journal_mode-Finishes n (memory id) p r = opened r
  set_journal_mode-Finishes n (path f) p r =
      with_handle-Finishes n (sq.pragma_update journal_mode_wal) p r

  new_pool-Finishes :
      (n : ℕ) (source : Source)
      → Finishes (suc n) (new_pool sq aq sm (record { conn_limit = suc n; source = source }))
  unfolding new_pool new_conn_pool new_async
  new_pool-Finishes n source = by_new refl (new-Opens aq qlaws n (new_conn sq source))
    where
      by_new :
          {r : Result Panic (Result sq.Error (ConnectionPool aq))}
          → new aq (suc n) (new_conn sq source) ≡ r
          → Opens aq qlaws (suc n) (new_conn sq source) r
          → Finishes (suc n) (new_pool sq aq sm (record { conn_limit = suc n; source = source }))
      by_new made (open_fails i below failed) =
          rw (new_pool, new_conn_pool, new_async, made) sqlite_error
      by_new made (all_open held capped) =
          rw (new_pool, new_conn_pool, new_async, made)
            (set_journal_mode-Finishes n source _ (record {
              all_queued = held;
              all_permits = slaws.permits-new (suc n);
              capacity_same = capped;
              not_closed = slaws.closed-new (suc n);
            }))

  -- Opening a pool with its tables never panics where the configuration asks for at least one
  -- connection: it gives an open pool with just that many connections, all in the queue and each with
  -- its permit, or an error of SQLite. Where the configuration asks for none, it panics.
  pub with_tables-Finishes :
      (n : ℕ) (source : Source)
      → Finishes (suc n) (with_tables sq aq sm (record { conn_limit = suc n; source = source }))
        × (with_tables sq aq sm (record { conn_limit = 0; source = source })
            ≡ err (in_pool zero_capacity))
  unfolding with_tables new_pool new_conn_pool new_async new
  with_tables-Finishes n source = (
    Finishes-change n sq.create_tables (new_pool-Finishes n source),
    rw (with_tables, new_pool, new_conn_pool, new_async, new, qlaws.new_queue-zero) refl,
  )
