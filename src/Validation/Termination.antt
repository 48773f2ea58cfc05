-- ===== src/Validation/Termination.antt =====
-- How many rounds the loop of `validation_stream` takes.
mod Tests
use essential_node.Types.Addr.{from_block}
use essential_node.Types.{ContentAddress, Block}
use essential_node.Convert.{Convert}
use essential_node.Hashing.{Hashing, Predicates}
use essential_node.Db.{BlockRow, Database, Engine}
use essential_node.Db.Has.{Has, IsScan, Has-select, find-Has, find-of_Has, exists-Has, map-Has}
use essential_node.Db.Statements.{find_block}
use essential_node.Db.Query.{
  block_set_rows, fetch_sets, get_latest_finalized_block_address, get_block_header,
  get_validation_progress, get_next_block_addresses, get_block,
}
use essential_node.Db.Listing.{row_header}
use essential_node.Validation.Progress.{validate_next_block-valid, validate_next_block-invalid}
use essential_node.Validate.DryRun.{validate}
use essential_node.Db.Pool.{inner, with_database, ConnectionPool, acquire_then, acquire_pool}
use essential_node.Validate.Inner.{invalid, valid, Checker}
use essential_node.Validation.Errors.{
  InternalError, critical, of_validation_error, fork, get_next_block_failed,
}
use essential_node.Validation.Step.{
  Failing, validate_available, validate_next_block, latest_number, is_behind, block_to_validate,
  get_last_progress, get_next_block, next_of,
}
use essential_node.Validation.Next.{
  UniqueRows, ProgressAt, find_block-of_row, ProgressAt-address, next-number, next_block-some,
  get_block-number,
}
use essential_node.Validation.GoesOn.{
  GoesOn, Steady, latest_number-progress, validate_next_block-GoesOn,
}
use essential_node.Prelude.{
  ℕ, zero, suc, ◌+◌, ◌≤◌, ◌≡◌, refl, sym, subst, ◌∙◌, inl, inr, true, false, Option, none, some,
  arith, ℤ, pos_part, neg_part, ◌<ℤ◌, inc, Result, ok, err, Result-cases,
}

module _ (c : Convert) (h : Hashing) (e : Engine) (p : Predicates) (k : Checker p) (fails : Failing)
    (contract_registry program_registry : ContentAddress) where
  -- the distance from the number of the progress to that of the latest finalized block
  abbrev pub Within : ℕ → ℤ → Option ℤ → Type 0
  Within rounds n none = Unit {0}
  Within rounds n (some l) = pos_part l + neg_part n ≤ rounds + (pos_part n + neg_part l)

  Steady-next :
      (row next : BlockRow) (pool : ConnectionPool)
      → Steady c h e p k fails contract_registry program_registry row pool
      → Has next pool.database.block
      → Steady c h e p k fails contract_registry program_registry next
          (with_database pool (record pool.database { progress = some next.id }))
  Steady-next row next pool steady there = record {
    opened = steady.opened;
    at = record { there = there; progress = refl };
    unique = steady.unique;
    addressed = steady.addressed;
  }

  Within-next :
      (rounds : ℕ) (n m l : ℤ)
      → Within (suc rounds) n (some l)
      → m ≡ inc n
      → Within rounds m (some l)
  Within-next rounds n m l within next =
      subst (λ m. Within rounds m (some l)) (sym next) (ground arith)

  abbrev available : ℕ → ConnectionPool → Option (Result InternalError (Unit {0}) × ConnectionPool)
  available = validate_available c h e p k fails contract_registry program_registry

  abbrev Ends : ℕ → ConnectionPool → Type 0
  Ends rounds pool =
      (out : Result InternalError (Unit {0}) × ConnectionPool) × (available rounds pool ≡ some out)

  -- one round, where the loop ends with the rounds that are left
  available-step :
      (law : IsScan e) (rounds : ℕ) (row : BlockRow) (pool : ConnectionPool)
      → Steady c h e p k fails contract_registry program_registry row pool
      → Within (suc rounds) row.number (latest_number c h e pool.database)
      → ((next : BlockRow) (pool' : ConnectionPool) (l : ℤ)
          → Steady c h e p k fails contract_registry program_registry next pool'
          → latest_number c h e pool'.database ≡ some l
          → next.number <ℤ l
          → Within rounds next.number (some l)
          → Ends rounds pool')
      → Ends (suc rounds) pool
  unfolding validate_available
  available-step law rounds row pool steady within rest =
      let out = validate_next_block c h e p k fails contract_registry program_registry pool in
      elim (Result-cases out.0) [
        | inr (f, r) ↦ ((err f, out.1), rw (validate_available, r) refl)
        | inl (false, r) ↦ ((ok tt, out.1), rw (validate_available, r) refl)
        | inl (true, r) ↦
            let g =
              validate_next_block-GoesOn c h e p k fails contract_registry program_registry law row
                pool steady r in
            let (end, ends) =
              rest g.next (with_database pool (record pool.database { progress = some g.next.id }))
                g.latest (Steady-next row g.next pool steady g.there)
                (latest_number-progress c h e p k fails contract_registry program_registry
                    pool.database g.next.id
                  ∙ g.latest_found)
                g.behind
                (Within-next rounds row.number g.next.number g.latest
                  (subst (Within (suc rounds) row.number) g.latest_found within) g.follows) in
            (end, rw (validate_available, r) (rw g.moved ends))
      ]

  -- The loop over the available blocks ends: from a progress at number `n`, with the latest finalized
  -- block at number `l`, `l - n` rounds are enough, and one round where there is no such block or it
  -- does not lie ahead. The pool must be open, its progress a block that is there, each row one block,
  -- each block that is read stored at its own address, and a scan must yield just the rows there are.
  pub validate_available-Ends :
      (law : IsScan e) (rounds : ℕ) (row : BlockRow) (pool : ConnectionPool)
      → Steady c h e p k fails contract_registry program_registry row pool
      → Within (suc rounds) row.number (latest_number c h e pool.database)
      → (out : Result InternalError (Unit {0}) × ConnectionPool) × (validate_available c h e p k
            fails contract_registry program_registry
            (suc rounds)
            pool
          ≡ some out)
  unfolding validate_available
  validate_available-Ends law zero row pool steady within =
      available-step law zero row pool steady within
        (λ next pool' l st found behind left. absurd (omega arith))
  validate_available-Ends law (suc rounds) row pool steady within =
      available-step law (suc rounds) row pool steady within (λ next pool' l st found behind left.
        validate_available-Ends law rounds next pool' st
          (subst (Within (suc rounds) next.number) (sym found) left))
