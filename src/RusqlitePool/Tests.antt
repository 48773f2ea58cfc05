-- ===== src/RusqlitePool/Tests.antt =====
-- Runs of a pool over a queue that is a list and a semaphore that is a counter.
use essential_node.RusqlitePool.{new, zero_capacity, no_connection}
use essential_node.RusqlitePool.Balance.{in_use}
use essential_node.RusqlitePool.Queue.{ArrayQueue, IsArrayQueue}
use essential_node.RusqlitePool.Instances.{list_queue, list_queue_laws, counter, counter_laws}
use essential_node.RusqlitePool.Tokio.{
  AsyncConnectionPool, new_async, try_acquire, close_async, drop_async,
}
use essential_node.RusqlitePool.Safety.{in_use-at_most, panicked_callers, close_race, start}
use essential_node.RusqlitePool.Close.{close_async-Reach}
use essential_node.RusqlitePool.Calls.{Performs, Drops, handle_of, calls-Performs}
use essential_node.RusqlitePool.Steps.{
  idle, permitted, holding, panicked, Pool, System, pick, Reach, here, later, get_permit, shut,
  drain, drained, no_conn, closed_with, after,
}
use essential_node.Prelude.{
  ℕ, ◌+◌, ◌≡◌, refl, Bool, true, false, some, [], ◌∷◌, Result, ok, err, ◌≤◌, arith, get_elem?,
  total,
}

-- connections that are numbers, which all open
abbrev connect : ℕ → Result Bool ℕ
connect i = ok (10 + i)

abbrev queue : ArrayQueue ℕ
queue = list_queue ℕ

abbrev pool_of_one : AsyncConnectionPool queue counter
pool_of_one = record {
  pool = record { items = 10 ∷ []; room = 1 };
  semaphore = record { left = 1; is_shut = false };
}

opens : new_async queue counter 1 connect ≡ ok (ok pool_of_one)
unfolding new_async new
opens = refl

no_connections : new_async queue counter 0 connect ≡ err zero_capacity
unfolding new_async new
no_connections = refl

abbrev queue_laws : IsArrayQueue queue
queue_laws = list_queue_laws ℕ

-- two callers, of which the first has the one permit
abbrev at_start : System queue counter
at_start = start queue queue_laws counter counter_laws 2 pool_of_one

abbrev no_permit_left : Pool queue counter
no_permit_left = record {
  pool = pool_of_one.pool;
  semaphore = record { left = 0; is_shut = false };
}

abbrev one_permitted : System queue counter
one_permitted = record { shared = no_permit_left; callers = permitted ∷ idle ∷ [] }

one_permitted-reached : Reach queue counter at_start one_permitted
one_permitted-reached = later here (pick 0 refl (get_permit refl))

in_use-at_most_example : total in_use one_permitted.callers ≤ 1
in_use-at_most_example =
    in_use-at_most queue queue_laws counter counter_laws 1 2 connect opens one_permitted-reached

close_race_example :
    (t : System queue counter) × Reach queue counter one_permitted t
    × (get_elem? t.callers 0 ≡ some (panicked no_connection))
close_race_example =
    close_race queue queue_laws counter counter_laws one_permitted 0 1 (λ e. absurd (omega arith))
      refl refl

-- the second caller shuts the pool, takes the connection and meets the end of the queue
abbrev all_taken : Pool queue counter
all_taken = record {
  pool = record { items = []; room = 1 };
  semaphore = record { left = 0; is_shut = true };
}

abbrev crashed : System queue counter
crashed = record {
  shared = record all_taken { semaphore = record { left = 1; is_shut = true } };
  callers = panicked no_connection ∷ closed_with (10 ∷ []) ∷ [];
}

crashed-reached : Reach queue counter at_start crashed
crashed-reached =
    later
      (later (later (later one_permitted-reached (pick 1 refl shut)) (pick 1 refl (drain refl)))
        (pick 1 refl (drained refl)))
      (pick 0 refl (no_conn refl))

panicked_callers_example :
    (no_connection ≡ no_connection) × (counter.semaphore_is_closed crashed.shared.semaphore ≡ true)
panicked_callers_example =
    panicked_callers queue queue_laws counter counter_laws 1 2 connect 0 opens crashed-reached refl

abbrev at_close : Pool queue counter
at_close = record {
  pool = record { items = []; room = 1 };
  semaphore = record { left = 1; is_shut = true };
}

close_async-Reach_example :
    (p : Pool queue counter) × (close_async queue counter 2 (λ c. c) pool_of_one
      ≡ some (10 ∷ [], p))
    × (p.pool.items ≡ [])
    × (p.semaphore ≡ at_close.semaphore)
    × Reach queue counter at_start (after queue counter at_start 1 p (closed_with (10 ∷ [])))
close_async-Reach_example =
    close_async-Reach queue queue_laws counter 2 (λ c. c) at_start 1 refl (omega arith)

-- a caller that is idle and one that holds the connection
abbrev in_hand : System queue counter
in_hand = record {
  shared = record all_taken { semaphore = record { left = 0; is_shut = false } };
  callers = idle ∷ holding 10 ∷ [];
}

calls-Performs_example :
    Performs queue counter in_hand 0 (try_acquire queue counter in_hand.shared)
    × Drops queue counter in_hand 1
        (drop_async queue counter (handle_of queue counter 10) in_hand.shared)
calls-Performs_example = calls-Performs queue counter in_hand 0 1 10 refl refl
