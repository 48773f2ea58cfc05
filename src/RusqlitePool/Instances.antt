-- ===== src/RusqlitePool/Instances.antt =====
-- A queue that is a list and a semaphore that is a counter: they have the documented behaviour.
use essential_node.RusqlitePool.Queue.{ArrayQueue, IsArrayQueue}
use essential_node.RusqlitePool.Permits.{
  Semaphore, IsSemaphore, TryAcquireError, closed, no_permits,
}
use essential_node.Prelude.{
  ℕ, zero, suc, refl, ap, Bool, true, false, none, some, List, [], ◌∷◌, ◌++◌, ltb, ◌==◌,
  if◌then◌else◌, lt→ltb, length, Result, ok, err, ltb-not_lt,
}

pub record ListQueue (A : Type 0) : Type 0 where
  pub items : List A
  pub room : ℕ

abbrev pub list_queue : (A : Type 0) → ArrayQueue A
list_queue A = record {
  Queue = ListQueue A;
  new_queue = λ n. elim n [ zero ↦ none | suc m ↦ some (record { items = []; room = suc m }) ];
  push = λ a q.
      if ltb (length q.items) q.room then ok (record q { items = q.items ++ a ∷ [] }) else err a;
  pop_front = λ q. elim q.items [ [] ↦ none | a ∷ rest ↦ some (a, record q { items = rest }) ];
  queue_capacity = λ q. q.room;
  is_full = λ q. length q.items == q.room;
}

abbrev pub list_queue_laws : (A : Type 0) → IsArrayQueue (list_queue A)
list_queue_laws A = record {
  contents = λ q. q.items;
  new_queue-zero = refl;
  new_queue-suc = λ n. (record { items = []; room = suc n }, refl, refl, refl);
  push_room = λ a q h. (
    record q { items = q.items ++ a ∷ [] },
    rw (lt→ltb (length q.items) q.room h) refl,
    refl,
    refl,
  );
  push_full = λ a q h. rw (ltb-not_lt (length q.items) q.room h) refl;
  pop_empty = λ q h. rw h refl;
  pop_first = λ a rest q h. (record q { items = rest }, rw h refl, refl, refl);
  is_full-contents = λ q. refl;
}

pub record Counter : Type 0 where
  pub left : ℕ
  pub is_shut : Bool

abbrev pub take_permit : Counter → Result TryAcquireError Counter
take_permit s =
    if s.is_shut
    then err closed
    else (elim s.left [ zero ↦ err no_permits | suc n ↦ ok (record s { left = n }) ])

abbrev pub counter : Semaphore
counter = record {
  Sem = Counter;
  new_semaphore = λ n. record { left = n; is_shut = false };
  try_acquire_owned = take_permit;
  add_permit = λ s. record s { left = suc s.left };
  close_semaphore = λ s. record s { is_shut = true };
  semaphore_is_closed = λ s. s.is_shut;
}

abbrev pub counter_laws : IsSemaphore counter
counter_laws = record {
  permits = λ s. s.left;
  permits-new = λ n. refl;
  closed-new = λ n. refl;
  acquire_closed = λ s h. rw h refl;
  acquire_none = λ s h e. rw (h, e) refl;
  acquire_some = λ n s h e. (
    record s { left = n },
    rw (h, e) (ap (λ b. ok (record { left = n; is_shut = b })) h),
    refl,
    h,
  );
  permits-add = λ s. refl;
  closed-add = λ s. refl;
  permits-close = λ s. refl;
  closed-close = λ s. refl;
}
