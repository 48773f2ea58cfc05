-- ===== src/RusqlitePool/Close.antt =====
-- `close` of crates/rusqlite-pool/src/lib.rs and of tokio.rs, and its steps.
use essential_node.RusqlitePool.{close}
use essential_node.RusqlitePool.Queue.{ArrayQueue, IsArrayQueue}
use essential_node.RusqlitePool.Permits.{Semaphore}
use essential_node.RusqlitePool.Tokio.{close_async}
use essential_node.RusqlitePool.Steps.{
  idle, closing, closed_with, Pool, shut, drain, drained, System, pick, Reach, here, later,
  Reach-append, Reach-same_callers, after,
}
use essential_node.Prelude.{
  ℕ, zero, suc, ◌<◌, ◌≡◌, refl, ap, ◌∙◌, inl, inr, some, List, [], ◌∷◌, ◌++◌, map, append-nil,
  append_assoc, arith, length, get_elem?, set, get_elem?-set, set-set, List-cases, sym,
}

module _ {Connection : Type 0} (aq : ArrayQueue Connection) (qlaws : IsArrayQueue aq)
    (sm : Semaphore) where
  -- what the loop of `close` gives, for a caller that has popped `cs`
  record Closes {R : Type 0} (fuel : ℕ) (close_conn : Connection → R) (s : System aq sm) (i : ℕ)
      (cs : List Connection) : Type 0 where
    queue : aq.Queue
    results :
        close aq fuel close_conn s.shared.pool
        ≡ some (map close_conn (qlaws.contents s.shared.pool), queue)
    none_left : qlaws.contents queue ≡ []
    steps : Reach aq sm s (
        after aq sm s i
          (record s.shared { pool = queue })
          (closed_with (cs ++ qlaws.contents s.shared.pool)))

  abbrev popped_one : System aq sm → ℕ → List Connection → Connection → aq.Queue → System aq sm
  popped_one s i cs c queue =
      after aq sm s i (record s.shared { pool = queue }) (closing (cs ++ c ∷ []))

  callers_after :
      (s : System aq sm) (i : ℕ) (cs : List Connection) (c : Connection) (queue : aq.Queue)
      (ds : List Connection)
      → set (popped_one s i cs c queue).callers i (closed_with ((cs ++ c ∷ []) ++ ds))
        ≡ set s.callers i (closed_with (cs ++ c ∷ ds))
  callers_after s i cs c queue ds =
      set-set s.callers i (closing (cs ++ c ∷ [])) (closed_with ((cs ++ c ∷ []) ++ ds))
      ∙ ap (λ xs. set s.callers i (closed_with xs)) (append_assoc cs (c ∷ []) ds)

  close-Closes :
      {R : Type 0} (fuel : ℕ) (close_conn : Connection → R) (s : System aq sm) (i : ℕ)
      (cs : List Connection)
      → get_elem? s.callers i ≡ some (closing cs)
      → length (qlaws.contents s.shared.pool) < fuel
      → Closes fuel close_conn s i cs
  unfolding close
  close-Closes zero close_conn s i cs at enough = absurd (omega arith)
  close-Closes (suc fuel) close_conn s i cs at enough =
      elim (List-cases (qlaws.contents s.shared.pool)) [
        | inl empty ↦
            let ended = qlaws.pop_empty s.shared.pool empty in
            record {
              queue = s.shared.pool;
              results = rw (close, ended, empty) refl;
              none_left = empty;
              steps = rw (empty, append-nil cs) (later here (pick i at (drained ended)));
            }
        | inr (c, rest, held) ↦
            let (q, taken, fewer, same) = qlaws.pop_first c rest s.shared.pool held in
            let more =
              close-Closes fuel close_conn (popped_one s i cs c q) i (cs ++ c ∷ [])
                (get_elem?-set s.callers i (closing (cs ++ c ∷ [])) at)
                (omega (arith, ap length held, ap length fewer)) in
            record {
              queue = more.queue;
              results = rw (close, taken, more.results, held, fewer) refl;
              none_left = more.none_left;
              steps =
                  Reach-same_callers aq sm
                    (callers_after s i cs c q (qlaws.contents q)
                      ∙ ap (λ ds. set s.callers i (closed_with (cs ++ ds)))
                          (ap (◌∷◌ c) fewer ∙ sym held))
                    (Reach-append aq sm (later here (pick i at (drain taken))) more.steps);
            }
      ]

  -- `close` by an idle caller, with more fuel than there are connections in the queue, gives the
  -- result of closing each of them in order and leaves the queue empty and the semaphore closed; it
  -- is the steps of that caller.
  pub close_async-Reach :
      {R : Type 0} (fuel : ℕ) (close_conn : Connection → R) (s : System aq sm) (i : ℕ)
      → get_elem? s.callers i ≡ some idle
      → length (qlaws.contents s.shared.pool) < fuel
      → (p : Pool aq sm) × (close_async aq sm fuel close_conn s.shared
          ≡ some (map close_conn (qlaws.contents s.shared.pool), p))
        × (qlaws.contents p.pool ≡ [])
        × (p.semaphore ≡ sm.close_semaphore s.shared.semaphore)
        × Reach aq sm s (after aq sm s i p (closed_with (qlaws.contents s.shared.pool)))
  unfolding close_async
  close_async-Reach fuel close_conn s i at enough =
      let shut_down =
        after aq sm s i (record s.shared { semaphore = sm.close_semaphore s.shared.semaphore })
          (closing []) in
      let done =
        close-Closes fuel close_conn shut_down i [] (get_elem?-set s.callers i (closing []) at)
          enough in
      (
        record { pool = done.queue; semaphore = sm.close_semaphore s.shared.semaphore },
        rw (close_async, done.results) refl,
        done.none_left,
        refl,
        Reach-same_callers aq sm
            (set-set s.callers i (closing []) (closed_with (qlaws.contents s.shared.pool)))
            (Reach-append aq sm (later here (pick i at shut)) done.steps),
      )
