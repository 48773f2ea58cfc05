-- ===== src/RusqlitePool/Safety.antt =====
-- What holds of a pool in every order of its callers' steps, and how `close` breaks it.
use essential_node.RusqlitePool.{Panic, zero_capacity, queue_len, conn_none, no_connection}
use essential_node.RusqlitePool.Queue.{ArrayQueue, IsArrayQueue}
use essential_node.RusqlitePool.Permits.{Semaphore, IsSemaphore}
use essential_node.RusqlitePool.Tokio.{new_async}
use essential_node.RusqlitePool.Open.{new_async-eq-ok}
use essential_node.RusqlitePool.Balance.{in_use, other_panics, misses}
use essential_node.RusqlitePool.Close.{close_async-Reach}
use essential_node.RusqlitePool.Invariant.{Counted, Reach-Counted, start-Counted}
use essential_node.RusqlitePool.Steps.{
  Pc, idle, permitted, closed_with, panicked, no_conn, Pool, System, pick, Reach, later,
}
use essential_node.Prelude.{
  ℕ, ◌≤◌, ◌≡◌, ap, ◌∙◌, true, some, arith, get_elem?, total, replicate, Result, ok, suc, refl, sym,
  subst, ◌≢◌, inl, inr, Bool-cases, length, set, at_most-total, get_elem?-set, get_elem?-set_other,
}

module _ {Connection : Type 0} (aq : ArrayQueue Connection) (qlaws : IsArrayQueue aq)
    (sm : Semaphore) (slaws : IsSemaphore sm) where
  -- `k` callers of a new pool
  abbrev pub start : ℕ → Pool aq sm → System aq sm
  start k p = record { shared = p; callers = replicate k idle }

  new_async-Counted :
      {E : Type 0} (n k : ℕ) (new_conn : ℕ → Result E Connection) {p : Pool aq sm}
      → new_async aq sm n new_conn ≡ ok (ok p)
      → Counted aq qlaws sm slaws n (start k p)
  new_async-Counted n k new_conn {p} e =
      let (sem, held, capped) = new_async-eq-ok aq qlaws sm n new_conn e in
      start-Counted aq qlaws sm slaws n k p (ap slaws.permits sem ∙ slaws.permits-new n) held capped

  -- In every state that any number of callers reach from a pool opened with `n` connections, in any
  -- order of their steps, at most `n` of the callers hold a connection.
  pub in_use-at_most :
      {E : Type 0} (n k : ℕ) (new_conn : ℕ → Result E Connection) {p : Pool aq sm}
      {t : System aq sm}
      → new_async aq sm n new_conn ≡ ok (ok p)
      → Reach aq sm (start k p) t
      → total in_use t.callers ≤ n
  in_use-at_most n k new_conn opened steps =
      let c = Reach-Counted aq qlaws sm slaws n (new_async-Counted n k new_conn opened) steps in
      omega (arith, c.permits_kept)

  panic_kind :
      (x : Panic) → (let pc : Pc Connection = panicked x in other_panics pc) ≡ 0 → x ≡ no_connection
  panic_kind no_connection e = refl
  panic_kind zero_capacity e = absurd (omega arith)
  panic_kind queue_len e = absurd (omega arith)
  panic_kind conn_none e = absurd (omega arith)

  -- In every state that any number of callers reach from a new pool, in any order of their steps, a
  -- caller that panicked met an empty queue after it got a permit, and the pool has been closed: no
  -- drop of a handle ever meets a full queue, and no permit fails its holder on an open pool.
  pub panicked_callers :
      {E : Type 0} (n k : ℕ) (new_conn : ℕ → Result E Connection) {p : Pool aq sm}
      {t : System aq sm} (i : ℕ) {x : Panic}
      → new_async aq sm n new_conn ≡ ok (ok p)
      → Reach aq sm (start k p) t
      → get_elem? t.callers i ≡ some (panicked x)
      → (x ≡ no_connection) × (sm.semaphore_is_closed t.shared.semaphore ≡ true)
  panicked_callers n k new_conn {t = t} i {x} opened steps at =
      let c = Reach-Counted aq qlaws sm slaws n (new_async-Counted n k new_conn opened) steps in
      let missed =
        panic_kind x (omega (arith, c.none_panicked, at_most-total other_panics t.callers i at)) in
      (
        missed,
        elim (Bool-cases (sm.semaphore_is_closed t.shared.semaphore)) [
          | inl shut_down ↦ shut_down
          | inr opened ↦
              let (closes, taken, none_missed) = c.open_kept opened in
              let met = at_most-total misses t.callers i at in
              absurd (
                omega (
                  arith,
                  subst
                      (λ x. misses {Connection = Connection} (panicked x) ≤ total misses t.callers)
                      missed met,
                ))
        ],
      )

  -- From every state in which caller `i` has got its permit but not yet its connection, and another
  -- caller is idle, that other caller can close the pool so that `i` panics.
  pub close_race :
      (s : System aq sm) (i j : ℕ)
      → i ≢ j
      → get_elem? s.callers i ≡ some permitted
      → get_elem? s.callers j ≡ some idle
      → (t : System aq sm) × Reach aq sm s t
        × (get_elem? t.callers i ≡ some (panicked no_connection))
  close_race s i j other waits at =
      let fuel = suc (length (qlaws.contents s.shared.pool)) in
      let (p, closes, empty, sem, steps) =
        close_async-Reach aq qlaws sm fuel (λ c. c) s j at (omega arith) in
      let cs = set s.callers j (closed_with (qlaws.contents s.shared.pool)) in
      let still : get_elem? cs i ≡ some permitted =
        get_elem?-set_other s.callers j i (closed_with (qlaws.contents s.shared.pool))
          (λ e. other (sym e))
        ∙ waits in
      (
        _,
        later steps (pick i still (no_conn (qlaws.pop_empty p.pool empty))),
        get_elem?-set cs i (panicked no_connection) still,
      )
