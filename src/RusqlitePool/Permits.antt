-- ===== src/RusqlitePool/Permits.antt =====
-- `tokio::sync::Semaphore`, a crate outside the repository: what the pool calls of it, and what its
-- documentation says of these calls.
use essential_node.Prelude.{ℕ, zero, suc, ◌≡◌, Bool, true, false, Result, ok, err}

pub data TryAcquireError : Type 0 where
  closed no_permits : TryAcquireError

pub record Semaphore : Type 1 where
  pub Sem : Type 0
  pub new_semaphore : ℕ → Sem
  pub try_acquire_owned : Sem → Result TryAcquireError Sem
  -- the drop of a permit
  pub add_permit : Sem → Sem
  pub close_semaphore : Sem → Sem
  pub semaphore_is_closed : Sem → Bool

-- A permit is given where one is left and the semaphore is open, and comes back when it is dropped.
pub record IsSemaphore (sm : Semaphore) : Type 0 where
  pub permits : sm.Sem → ℕ
  pub permits-new : (n : ℕ) → permits (sm.new_semaphore n) ≡ n
  pub closed-new : (n : ℕ) → sm.semaphore_is_closed (sm.new_semaphore n) ≡ false
  pub acquire_closed :
      (s : sm.Sem) → sm.semaphore_is_closed s ≡ true → sm.try_acquire_owned s ≡ err closed
  pub acquire_none :
      (s : sm.Sem)
      → sm.semaphore_is_closed s ≡ false
      → permits s ≡ zero
      → sm.try_acquire_owned s ≡ err no_permits
  pub acquire_some :
      (n : ℕ) (s : sm.Sem)
      → sm.semaphore_is_closed s ≡ false
      → permits s ≡ suc n
      → (s' : sm.Sem) × (sm.try_acquire_owned s ≡ ok s')
        × (permits s' ≡ n)
        × (sm.semaphore_is_closed s' ≡ false)
  pub permits-add : (s : sm.Sem) → permits (sm.add_permit s) ≡ suc (permits s)
  pub closed-add :
      (s : sm.Sem) → sm.semaphore_is_closed (sm.add_permit s) ≡ sm.semaphore_is_closed s
  pub permits-close : (s : sm.Sem) → permits (sm.close_semaphore s) ≡ permits s
  pub closed-close : (s : sm.Sem) → sm.semaphore_is_closed (sm.close_semaphore s) ≡ true
