-- ===== src/RusqlitePool/Queue.antt =====
-- `crossbeam::queue::ArrayQueue`, a crate outside the repository: what the pool calls of it, and what
-- its documentation says of these calls.
use essential_node.Prelude.{
  ℕ, zero, suc, ◌≤◌, ◌<◌, ◌≡◌, Bool, Option, none, some, List, [], ◌∷◌, ◌++◌, ◌==◌, length, Result,
  ok, err,
}

pub record ArrayQueue (A : Type 0) : Type 1 where
  pub Queue : Type 0
  -- panics on a capacity of 0, and `none` says so
  pub new_queue : ℕ → Option Queue
  -- gives the element back where the queue is full
  pub push : A → Queue → Result A Queue
  pub pop_front : Queue → Option (A × Queue)
  pub queue_capacity : Queue → ℕ
  pub is_full : Queue → Bool

-- A queue holds its elements in order, the next one to pop first, up to its capacity.
pub record IsArrayQueue {A : Type 0} (aq : ArrayQueue A) : Type 0 where
  pub contents : aq.Queue → List A
  pub new_queue-zero : aq.new_queue zero ≡ none
  pub new_queue-suc :
      (n : ℕ)
      → (q : aq.Queue) × (aq.new_queue (suc n) ≡ some q)
        × (contents q ≡ [])
        × (aq.queue_capacity q ≡ suc n)
  pub push_room :
      (a : A) (q : aq.Queue)
      → length (contents q) < aq.queue_capacity q
      → (q' : aq.Queue) × (aq.push a q ≡ ok q')
        × (contents q' ≡ contents q ++ a ∷ [])
        × (aq.queue_capacity q' ≡ aq.queue_capacity q)
  pub push_full :
      (a : A) (q : aq.Queue) → aq.queue_capacity q ≤ length (contents q) → aq.push a q ≡ err a
  pub pop_empty : (q : aq.Queue) → contents q ≡ [] → aq.pop_front q ≡ none
  pub pop_first :
      (a : A) (rest : List A) (q : aq.Queue)
      → contents q ≡ a ∷ rest
      → (q' : aq.Queue) × (aq.pop_front q ≡ some (a, q'))
        × (contents q' ≡ rest)
        × (aq.queue_capacity q' ≡ aq.queue_capacity q)
  pub is_full-contents :
      (q : aq.Queue) → aq.is_full q ≡ (length (contents q) == aq.queue_capacity q)
