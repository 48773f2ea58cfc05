-- ===== src/RusqlitePool/Steps.antt =====
-- The calls of crates/rusqlite-pool/src/tokio.rs by several callers at once: each operation on the
-- queue or on the semaphore is a step, and the steps of the callers come in any order.
use essential_node.RusqlitePool.{Panic, queue_len, no_connection}
use essential_node.RusqlitePool.Queue.{ArrayQueue}
use essential_node.RusqlitePool.Permits.{Semaphore}
use essential_node.RusqlitePool.Tokio.{AsyncConnectionPool}
use essential_node.Prelude.{ℕ, ◌≡◌, none, some, List, [], ◌∷◌, ◌++◌, get_elem?, set, ok, err, subst}

-- where a caller is
pub data Pc (Connection : Type 0) : Type 0 where
  idle : Pc Connection
  -- in `acquire` or `try_acquire`, with a permit
  permitted : Pc Connection
  holding : Connection → Pc Connection
  -- in the drop of a handle, with the permit left
  returned : Pc Connection
  -- in `close`, and after it, with the connections that it took
  closing : List Connection → Pc Connection
  closed_with : List Connection → Pc Connection
  panicked : Panic → Pc Connection

module _ {Connection : Type 0} (aq : ArrayQueue Connection) (sm : Semaphore) where
  abbrev pub Pool : Type 0
  Pool = AsyncConnectionPool aq sm

  -- A step of one caller. A panic drops the permit.
  pub data Move (p : Pool) : Pc Connection → Pool → Pc Connection → Type 0 where
    get_permit :
        {sem : sm.Sem}
        → sm.try_acquire_owned p.semaphore ≡ ok sem
        → Move p idle (record p { semaphore = sem }) permitted
    take_conn :
        {c : Connection} {queue : aq.Queue}
        → aq.pop_front p.pool ≡ some (c, queue)
        → Move p permitted (record p { pool = queue }) (holding c)
    no_conn :
        aq.pop_front p.pool ≡ none
        → Move p permitted
            (record p { semaphore = sm.add_permit p.semaphore })
            (panicked no_connection)
    give_back :
        {c : Connection} {queue : aq.Queue}
        → aq.push c p.pool ≡ ok queue
        → Move p (holding c) (record p { pool = queue }) returned
    no_room :
        {c e : Connection}
        → aq.push c p.pool ≡ err e
        → Move p
            (holding c)
            (record p { semaphore = sm.add_permit p.semaphore })
            (panicked queue_len)
    drop_permit : Move p returned (record p { semaphore = sm.add_permit p.semaphore }) idle
    shut : Move p idle (record p { semaphore = sm.close_semaphore p.semaphore }) (closing [])
    drain :
        {c : Connection} {cs : List Connection} {queue : aq.Queue}
        → aq.pop_front p.pool ≡ some (c, queue)
        → Move p (closing cs) (record p { pool = queue }) (closing (cs ++ c ∷ []))
    drained :
        {cs : List Connection} → aq.pop_front p.pool ≡ none → Move p (closing cs) p (closed_with cs)

  pub record System : Type 0 where
    pub shared : Pool
    pub callers : List (Pc Connection)

  pub data Step (s : System) : System → Type 0 where
    pick :
        (i : ℕ) {p : Pc Connection} {shared : Pool} {p' : Pc Connection}
        → get_elem? s.callers i ≡ some p
        → Move s.shared p shared p'
        → Step s (record { shared = shared; callers = set s.callers i p' })

  pub data Reach (s : System) : System → Type 0 where
    here : Reach s s
    later : {t u : System} → Reach s t → Step t u → Reach s u

  pub Reach-append : {s t u : System} → Reach s t → Reach t u → Reach s u
  Reach-append before here = before
  Reach-append before (later after step) = later (Reach-append before after) step

  -- the system after caller `i` moved
  abbrev pub after : System → ℕ → Pool → Pc Connection → System
  after s i p pc = record { shared = p; callers = set s.callers i pc }

  pub Reach-same_callers :
      {s : System} {p : Pool} {cs cs' : List (Pc Connection)}
      → cs ≡ cs'
      → Reach s (record { shared = p; callers = cs })
      → Reach s (record { shared = p; callers = cs' })
  Reach-same_callers {s} {p} eq r = subst (λ cs. Reach s (record { shared = p; callers = cs })) eq r
