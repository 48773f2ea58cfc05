-- ===== src/RusqlitePool/Balance.antt =====
-- What every order of the callers' steps keeps: permits and connections are counted.
use essential_node.RusqlitePool.{no_connection}
use essential_node.RusqlitePool.Queue.{ArrayQueue, IsArrayQueue}
use essential_node.RusqlitePool.Permits.{Semaphore, IsSemaphore}
use essential_node.RusqlitePool.Steps.{
  Pc, permitted, holding, returned, closing, closed_with, panicked, Pool, Move, get_permit,
  take_conn, no_conn, give_back, no_room, drop_permit, shut, drain, drained,
}
use essential_node.RusqlitePool.Facts.{pop-contents, pop-none, push-contents, push-err, acquire-ok}
use essential_node.Prelude.{
  ℕ, ◌+◌, ◌≤◌, ◌≡◌, refl, sym, ap, ◌∙◌, false, arith, length, [], ◌∷◌, length-append,
}

module _ {Connection : Type 0} where
  -- the connections that a caller has for use
  abbrev pub in_use : Pc Connection → ℕ
  in_use (holding c) = 1
  in_use _ = 0

  -- the permits that a caller has without a connection
  abbrev pub spare_permits : Pc Connection → ℕ
  spare_permits permitted = 1
  spare_permits returned = 1
  spare_permits _ = 0

  -- the connections that a caller has taken to close
  abbrev pub to_close : Pc Connection → ℕ
  to_close (closing cs) = length cs
  to_close (closed_with cs) = length cs
  to_close _ = 0

  abbrev pub closers : Pc Connection → ℕ
  closers (closing cs) = 1
  closers (closed_with cs) = 1
  closers _ = 0

  -- the callers that met an empty queue, and those that ended in another panic
  abbrev pub other_panics : Pc Connection → ℕ
  other_panics (panicked no_connection) = 0
  other_panics (panicked _) = 1
  other_panics _ = 0

  abbrev pub misses : Pc Connection → ℕ
  misses (panicked no_connection) = 1
  misses _ = 0

module _ {Connection : Type 0} (aq : ArrayQueue Connection) (qlaws : IsArrayQueue aq)
    (sm : Semaphore) (slaws : IsSemaphore sm) where
  abbrev pub free_permits : Pool aq sm → ℕ
  free_permits p = slaws.permits p.semaphore

  abbrev pub queued : Pool aq sm → ℕ
  queued p = length (qlaws.contents p.pool)

  abbrev pub IsOpen : Pool aq sm → Type 0
  IsOpen p = sm.semaphore_is_closed p.semaphore ≡ false

  -- what a step of one caller keeps
  pub record Balanced (p : Pool aq sm) (pc : Pc Connection) (p' : Pool aq sm) (pc' : Pc Connection)
      : Type 0 where
    pub permits_same :
        free_permits p' + in_use pc' + spare_permits pc'
        ≡ free_permits p + in_use pc + spare_permits pc
    pub conns_same : queued p' + in_use pc' + to_close pc' ≡ queued p + in_use pc + to_close pc
    pub capacity_same : aq.queue_capacity p'.pool ≡ aq.queue_capacity p.pool
    pub other_panics_same : other_panics pc' ≡ other_panics pc
    pub still_open : IsOpen p' → IsOpen p
    pub open_same :
        IsOpen p' → (closers pc' ≡ 0) × (to_close pc' ≡ to_close pc) × (misses pc' ≡ misses pc)

  pub Move-Balanced :
      {p p' : Pool aq sm} {pc pc' : Pc Connection}
      → Move aq sm p pc p' pc'
      → queued p + in_use pc ≤ aq.queue_capacity p.pool
      → (IsOpen p → (closers pc ≡ 0) × (spare_permits pc ≤ queued p))
      → Balanced p pc p' pc'
  Move-Balanced {p} (get_permit e) fits opened =
      let (one, was, is) = acquire-ok aq qlaws sm slaws p.semaphore e in
      record {
        permits_same = omega arith;
        conns_same = omega arith;
        capacity_same = refl;
        other_panics_same = refl;
        still_open = λ _. was;
        open_same = λ _. (refl, refl, refl);
      }
  Move-Balanced {p} (take_conn e) fits opened =
      let (held, same) = pop-contents aq qlaws sm slaws p.pool e in
      record {
        permits_same = omega arith;
        conns_same = omega (arith, ap length held);
        capacity_same = same;
        other_panics_same = refl;
        still_open = λ h. h;
        open_same = λ _. (refl, refl, refl);
      }
  Move-Balanced {p} (no_conn e) fits opened =
      let empty = pop-none aq qlaws sm slaws p.pool e in
      let was : IsOpen (record p { semaphore = sm.add_permit p.semaphore }) → IsOpen p =
        λ h. sym (slaws.closed-add p.semaphore) ∙ h in
      record {
        permits_same = omega (arith, slaws.permits-add p.semaphore);
        conns_same = omega arith;
        capacity_same = refl;
        other_panics_same = refl;
        still_open = was;
        open_same = λ h. absurd (omega (arith, opened (was h)));
      }
  Move-Balanced {p} (give_back {c} e) fits opened =
      let (more, same) = push-contents aq qlaws sm slaws c p.pool e in
      record {
        permits_same = omega arith;
        conns_same = omega arith;
        capacity_same = same;
        other_panics_same = refl;
        still_open = λ h. h;
        open_same = λ _. (refl, refl, refl);
      }
  Move-Balanced {p} (no_room {c} e) fits opened =
      absurd (omega (arith, push-err aq qlaws sm slaws c p.pool e))
  Move-Balanced {p} drop_permit fits opened = record {
    permits_same = omega (arith, slaws.permits-add p.semaphore);
    conns_same = omega arith;
    capacity_same = refl;
    other_panics_same = refl;
    still_open = λ h. sym (slaws.closed-add p.semaphore) ∙ h;
    open_same = λ _. (refl, refl, refl);
  }
  Move-Balanced {p} shut fits opened = record {
    permits_same = omega (arith, slaws.permits-close p.semaphore);
    conns_same = omega arith;
    capacity_same = refl;
    other_panics_same = refl;
    still_open = λ h. absurd (let shut_now = slaws.closed-close p.semaphore in cc);
    open_same = λ h. absurd (let shut_now = slaws.closed-close p.semaphore in cc);
  }
  Move-Balanced {p} (drain {c} {cs} e) fits opened =
      let (held, same) = pop-contents aq qlaws sm slaws p.pool e in
      record {
        permits_same = omega arith;
        conns_same = omega (arith, ap length held, length-append cs (c ∷ []));
        capacity_same = same;
        other_panics_same = refl;
        still_open = λ h. h;
        open_same = λ h. absurd (omega (arith, opened h));
      }
  Move-Balanced {p} (drained e) fits opened = record {
    permits_same = refl;
    conns_same = refl;
    capacity_same = refl;
    other_panics_same = refl;
    still_open = λ h. h;
    open_same = λ h. absurd (omega (arith, opened h));
  }
