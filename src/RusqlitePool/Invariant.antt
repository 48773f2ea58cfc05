-- ===== src/RusqlitePool/Invariant.antt =====
-- What every order of the callers' steps keeps: permits and connections are counted, so a caller with
-- a permit finds a connection for as long as the pool is open, and one that gives a connection back
-- always finds room.
use essential_node.RusqlitePool.Queue.{ArrayQueue, IsArrayQueue}
use essential_node.RusqlitePool.Permits.{Semaphore, IsSemaphore}
use essential_node.RusqlitePool.Steps.{Pool, Pc, idle, System, Step, pick, Reach, here, later}
use essential_node.RusqlitePool.Balance.{
  in_use, spare_permits, to_close, closers, other_panics, misses, free_permits, queued, IsOpen,
  Move-Balanced,
}
use essential_node.Prelude.{
  ℕ, ◌+◌, ◌≡◌, ◌∙◌, arith, total, total-set, at_most-total, refl, replicate, total-replicate,
}

module _ {Connection : Type 0} (aq : ArrayQueue Connection) (qlaws : IsArrayQueue aq)
    (sm : Semaphore) (slaws : IsSemaphore sm) where
  pub record Counted (n : ℕ) (s : System aq sm) : Type 0 where
    pub permits_kept :
        free_permits aq qlaws sm slaws s.shared
          + total in_use s.callers
          + total spare_permits s.callers
        ≡ n
    pub conns_kept :
        queued aq qlaws sm slaws s.shared + total in_use s.callers + total to_close s.callers ≡ n
    pub capacity_kept : aq.queue_capacity s.shared.pool ≡ n
    pub none_panicked : total other_panics s.callers ≡ 0
    pub open_kept :
        IsOpen aq qlaws sm slaws s.shared
        → (total closers s.callers ≡ 0)
          × (total to_close s.callers ≡ 0)
          × (total misses s.callers ≡ 0)

  Step-Counted : (n : ℕ) {s t : System aq sm} → Step aq sm s t → Counted n s → Counted n t
  Step-Counted n {s} (pick i {p} {shared} {p'} at move) c =
      let bal =
        Move-Balanced aq qlaws sm slaws move
          (omega (arith, c.conns_kept, c.capacity_kept, at_most-total in_use s.callers i at))
          (λ h.
            let (none_closes, none_taken, none_missed) = c.open_kept h in
            (
              omega (arith, none_closes, at_most-total closers s.callers i at),
              omega (
                arith,
                none_taken,
                c.conns_kept,
                c.permits_kept,
                at_most-total spare_permits s.callers i at,
              ),
            )) in
      let used = total-set in_use s.callers i p' at in
      let spare = total-set spare_permits s.callers i p' at in
      let taken = total-set to_close s.callers i p' at in
      record {
        permits_kept = omega (arith, c.permits_kept, bal.permits_same);
        conns_kept = omega (arith, c.conns_kept, bal.conns_same);
        capacity_kept = bal.capacity_same ∙ c.capacity_kept;
        none_panicked = omega (
          arith,
          c.none_panicked,
          bal.other_panics_same,
          total-set other_panics s.callers i p' at,
        );
        open_kept = λ h.
            let (none_closes, none_taken, none_missed) = c.open_kept (bal.still_open h) in
            let (closers_same, taken_same, missed_same) = bal.open_same h in
            (
              omega (arith, total-set closers s.callers i p' at),
              omega arith,
              omega (arith, total-set misses s.callers i p' at),
            );
      }

  pub Reach-Counted : (n : ℕ) {s t : System aq sm} → Counted n s → Reach aq sm s t → Counted n t
  Reach-Counted n c here = c
  Reach-Counted n c (later before step) = Step-Counted n step (Reach-Counted n c before)

  -- At the start the callers are idle and the queue is full.
  pub start-Counted :
      (n k : ℕ) (p : Pool aq sm)
      → free_permits aq qlaws sm slaws p ≡ n
      → queued aq qlaws sm slaws p ≡ n
      → aq.queue_capacity p.pool ≡ n
      → Counted n (record { shared = p; callers = replicate k idle })
  start-Counted n k p permits conns cap =
      let none_yet : (f : Pc Connection → ℕ) → f idle ≡ 0 → total f (replicate k idle) ≡ 0 =
        λ f e. total-replicate f k idle e in
      record {
        permits_kept = omega (arith, none_yet in_use refl, none_yet spare_permits refl);
        conns_kept = omega (arith, none_yet in_use refl, none_yet to_close refl);
        capacity_kept = cap;
        none_panicked = none_yet other_panics refl;
        open_kept = λ _. (none_yet closers refl, none_yet to_close refl, none_yet misses refl);
      }
