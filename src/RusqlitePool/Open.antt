-- ===== src/RusqlitePool/Open.antt =====
-- What `new` and `close` of crates/rusqlite-pool/src/lib.rs and of tokio.rs give on every branch.
use essential_node.RusqlitePool.{zero_capacity, Panic, ConnectionPool, new_loop, new}
use essential_node.RusqlitePool.Permits.{Semaphore}
use essential_node.RusqlitePool.Tokio.{AsyncConnectionPool, new_async}
use essential_node.RusqlitePool.Queue.{ArrayQueue, IsArrayQueue}
use essential_node.Prelude.{
  ℕ, zero, suc, ◌+◌, ◌<◌, ◌≡◌, arith, length, Result, ok, err, ap, ◌∙◌, inl, inr, [], ◌∷◌,
  length-append, Result-cases, subst, refl,
}

module _ {Connection : Type 0} (aq : ArrayQueue Connection) (qlaws : IsArrayQueue aq) where
  -- The pool is full of connections, or the error is that of a connection that failed to open.
  pub data Opens {E : Type 0} (n : ℕ) (new_conn : ℕ → Result E Connection)
      : Result Panic (Result E (ConnectionPool aq)) → Type 0 where
    all_open :
        {pool : ConnectionPool aq}
        → length (qlaws.contents pool) ≡ n
        → aq.queue_capacity pool ≡ n
        → Opens n new_conn (ok (ok pool))
    open_fails : {e : E} (i : ℕ) → i < n → new_conn i ≡ err e → Opens n new_conn (ok (err e))

  new_loop-Opens :
      {E : Type 0} (n k i : ℕ) (new_conn : ℕ → Result E Connection) (q : aq.Queue)
      → length (qlaws.contents q) ≡ i
      → aq.queue_capacity q ≡ n
      → i + k ≡ n
      → Opens n new_conn (new_loop aq k i new_conn q)
  unfolding new_loop
  new_loop-Opens n zero i new_conn q held capped sum = all_open (omega arith) capped
  new_loop-Opens n (suc k) i new_conn q held capped sum = elim (Result-cases (new_conn i)) [
    | inl (c, opened) ↦
        let (q', pushed, more, same) = qlaws.push_room c q (omega arith) in
        let rest =
          new_loop-Opens n k (suc i) new_conn q'
            (omega (arith, ap length more, length-append (qlaws.contents q) (c ∷ [])))
            (same ∙ capped) (omega arith) in
        rw (new_loop, opened, pushed) rest
    | inr (e, failed) ↦ rw (new_loop, failed) (open_fails i (omega arith) failed)
  ]

  -- `new` of a capacity above 0 never panics: it gives a full pool of that many connections, or the
  -- error of a connection that failed to open.
  pub new-Opens :
      {E : Type 0} (n : ℕ) (new_conn : ℕ → Result E Connection)
      → Opens (suc n) new_conn (new aq (suc n) new_conn)
  unfolding new
  new-Opens n new_conn =
      let (q, made, empty, capped) = qlaws.new_queue-suc n in
      rw (new, made)
        (new_loop-Opens (suc n) (suc n) 0 new_conn q (ap length empty) capped (omega arith))

  Opens-held :
      {E : Type 0} {n : ℕ} {new_conn : ℕ → Result E Connection} {q : aq.Queue}
      → Opens n new_conn (ok (ok q))
      → (length (qlaws.contents q) ≡ n) × (aq.queue_capacity q ≡ n)
  Opens-held (all_open held capped) = (held, capped)

  pub new-eq-ok :
      {E : Type 0} (n : ℕ) (new_conn : ℕ → Result E Connection) {q : aq.Queue}
      → new aq n new_conn ≡ ok (ok q)
      → (length (qlaws.contents q) ≡ n) × (aq.queue_capacity q ≡ n)
  unfolding new
  new-eq-ok {E} zero new_conn {q} e =
      let panics : new aq {E = E} zero new_conn ≡ err zero_capacity =
        rw (new, qlaws.new_queue-zero) refl in
      absurd cc
  new-eq-ok (suc n) new_conn e =
      Opens-held (subst (Opens (suc n) new_conn) e (new-Opens n new_conn))

  pub new_async-eq-ok :
      {E : Type 0} (sm : Semaphore) (n : ℕ) (new_conn : ℕ → Result E Connection)
      {p : AsyncConnectionPool aq sm}
      → new_async aq sm n new_conn ≡ ok (ok p)
      → (p.semaphore ≡ sm.new_semaphore n)
        × (length (qlaws.contents p.pool) ≡ n)
        × (aq.queue_capacity p.pool ≡ n)
  unfolding new_async
  new_async-eq-ok sm n new_conn {p} e = elim (Result-cases (new aq n new_conn)) [
    | inr (x, failed) ↦
        absurd (let panics : new_async aq sm n new_conn ≡ err x = rw (new_async, failed) refl in cc)
    | inl (err x, made) ↦
        absurd
          (let fails : new_async aq sm n new_conn ≡ ok (err x) = rw (new_async, made) refl in cc)
    | inl (ok q, made) ↦
        let (held, capped) = new-eq-ok n new_conn made in
        let opened : AsyncConnectionPool aq sm = record {
          pool = q;
          semaphore = sm.new_semaphore n;
        } in
        let gives : new_async aq sm n new_conn ≡ ok (ok opened) = rw (new_async, made) refl in
        let same : opened ≡ p = cc (gives, e) in
        subst
          (λ p.
            (p.semaphore ≡ sm.new_semaphore n)
            × (length (qlaws.contents p.pool) ≡ n)
            × (aq.queue_capacity p.pool ≡ n))
          same (refl, held, capped)
  ]
