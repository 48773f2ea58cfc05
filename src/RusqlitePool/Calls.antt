-- ===== src/RusqlitePool/Calls.antt =====
-- Each call of crates/rusqlite-pool/src/tokio.rs is a sequence of the steps of RusqlitePool/Steps.
use essential_node.RusqlitePool.{drop_handle, pop, Panic}
use essential_node.RusqlitePool.Queue.{ArrayQueue}
use essential_node.RusqlitePool.Permits.{Semaphore, TryAcquireError}
use essential_node.RusqlitePool.Tokio.{drop_async, with_permit, AsyncConnectionHandle, try_acquire}
use essential_node.RusqlitePool.Steps.{
  Reach-same_callers, no_room, drop_permit, give_back, Pc, idle, holding, panicked, Pool, Move,
  get_permit, take_conn, no_conn, System, pick, Reach, here, later, after,
}
use essential_node.Prelude.{
  ℕ, ◌≡◌, inl, inr, some, Option-cases, get_elem?, Result, ok, err, Result-cases, get_elem?-set,
  set-set,
}

module _ {Connection : Type 0} (aq : ArrayQueue Connection) (sm : Semaphore) where
  -- Two moves of one caller, the first from a place that is known.
  Reach-twice :
      (s : System aq sm) (i : ℕ) {pc pc1 pc2 : Pc Connection} {p1 p2 : Pool aq sm}
      → get_elem? s.callers i ≡ some pc
      → Move aq sm s.shared pc p1 pc1
      → Move aq sm p1 pc1 p2 pc2
      → Reach aq sm s (after aq sm s i p2 pc2)
  Reach-twice s i {pc1 = pc1} {pc2 = pc2} at first second =
      Reach-same_callers aq sm (set-set s.callers i pc1 pc2)
        (later (later here (pick i at first)) (pick i (get_elem?-set s.callers i pc1 at) second))

  -- the handle of a connection
  abbrev pub handle_of : Connection → AsyncConnectionHandle Connection
  handle_of c = record { conn = record { conn = some c } }

  -- what `try_acquire` of caller `i` gives, and where its steps lead
  pub data Performs (s : System aq sm) (i : ℕ)
      : Result Panic (Result TryAcquireError (AsyncConnectionHandle Connection × Pool aq sm))
        → Type 0 where
    gives :
        {c : Connection} {p : Pool aq sm}
        → Reach aq sm s (after aq sm s i p (holding c))
        → Performs s i (ok (ok (handle_of c, p)))
    refuses :
        {e : TryAcquireError}
        → sm.try_acquire_owned s.shared.semaphore ≡ err e
        → Performs s i (ok (err e))
    panics :
        {x : Panic} {p : Pool aq sm}
        → Reach aq sm s (after aq sm s i p (panicked x))
        → Performs s i (err x)

  -- A call of `try_acquire` is the steps of an idle caller.
  try_acquire-Performs :
      (s : System aq sm) (i : ℕ)
      → get_elem? s.callers i ≡ some idle
      → Performs s i (try_acquire aq sm s.shared)
  unfolding try_acquire with_permit pop
  try_acquire-Performs s i at = elim (Result-cases (sm.try_acquire_owned s.shared.semaphore)) [
    | inr (e, failed) ↦ rw (try_acquire, failed) (refuses failed)
    | inl (sem, given) ↦ elim (Option-cases (aq.pop_front s.shared.pool)) [
      | inl empty ↦
          rw (try_acquire, given, with_permit, pop, empty)
            (panics (Reach-twice s i at (get_permit given) (no_conn empty)))
      | inr ((c, queue), popped) ↦
          rw (try_acquire, given, with_permit, pop, popped)
            (gives (Reach-twice s i at (get_permit given) (take_conn popped)))
    ]
  ]

  -- what the drop of a handle gives, and where its steps lead
  pub data Drops (s : System aq sm) (i : ℕ) : Result Panic (Pool aq sm) → Type 0 where
    drops : {p : Pool aq sm} → Reach aq sm s (after aq sm s i p idle) → Drops s i (ok p)
    drop_panics :
        {x : Panic} {p : Pool aq sm}
        → Reach aq sm s (after aq sm s i p (panicked x))
        → Drops s i (err x)

  -- The drop of a handle is the steps of a caller that holds its connection.
  drop_async-Drops :
      (s : System aq sm) (i : ℕ) (c : Connection)
      → get_elem? s.callers i ≡ some (holding c)
      → Drops s i (drop_async aq sm (handle_of c) s.shared)
  unfolding drop_async drop_handle
  drop_async-Drops s i c at = elim (Result-cases (aq.push c s.shared.pool)) [
    | inr (e, failed) ↦
        rw (drop_async, drop_handle, failed) (drop_panics (later here (pick i at (no_room failed))))
    | inl (queue, pushed) ↦
        rw (drop_async, drop_handle, pushed)
          (drops (Reach-twice s i at (give_back pushed) drop_permit))
  ]

  -- A call of `try_acquire` is the steps of an idle caller, and the drop of a handle those of a caller
  -- that holds its connection: what the call gives is where these steps lead, panics included.
  pub calls-Performs :
      (s : System aq sm) (i j : ℕ) (c : Connection)
      → get_elem? s.callers i ≡ some idle
      → get_elem? s.callers j ≡ some (holding c)
      → Performs s i (try_acquire aq sm s.shared)
        × Drops s j (drop_async aq sm (handle_of c) s.shared)
  calls-Performs s i j c free busy = (try_acquire-Performs s i free, drop_async-Drops s j c busy)
