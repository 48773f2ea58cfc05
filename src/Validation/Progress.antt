-- ===== src/Validation/Progress.antt =====
-- What one round of the validation stream changes.
use essential_node.Types.{SolutionSet, ContentAddress, Block}
use essential_node.Types.Addr.{from_block}
use essential_node.Convert.{Convert}
use essential_node.Hashing.{Hashing, Predicates}
use essential_node.Db.{BlockRow, Engine}
use essential_node.Db.Insert.{insert_failed_block}
use essential_node.Db.Pool.{
  acquire_then-open, ConnectionPool, acquire_pool, acquire_then, with_database,
}
use essential_node.Db.Statements.{find_block}
use essential_node.Db.Query.{get_validation_progress, get_next_block_addresses}
use essential_node.Validate.Inner.{valid, invalid, ValidateFailure, Checker}
use essential_node.Validate.DryRun.{validate}
use essential_node.Validation.Errors.{InternalError, critical, fork}
use essential_node.Db.Has.{IsScan}
use essential_node.Validation.Next.{UniqueRows}
use essential_node.Validation.Ahead.{IsAheadOf, is_behind-IsAheadOf}
use essential_node.Validation.Step.{
  Failing, mark_invalid, record_outcome, block_to_validate, validate_next_block, get_next_block,
  get_last_progress, next_of, is_behind, latest_number,
}
use essential_node.Prelude.{
  ◌≡◌, refl, inl, inr, Bool, Option, none, some, Result, err, Result-cases, ℕ, sym, ap, ◌∙◌, false,
  List, ◌∷◌, get_elem?, ok, subst, ◌↔◌, ◌⊎◌, true, set,
}
use essential_node.Validation.Recorded.{
  at_row, FailedAfter, mark_invalid-set, progress-insert_failed_block, invalid_set, recorded-err,
  recorded_invalid-err, recorded-valid, round-recorded,
}

module _ (c : Convert) (h : Hashing) (e : Engine) (p : Predicates) (k : Checker p) (fails : Failing)
    (contract_registry program_registry : ContentAddress) where
  abbrev round : ConnectionPool → Result InternalError Bool × ConnectionPool
  round = validate_next_block c h e p k fails contract_registry program_registry

  abbrev block_after : ConnectionPool → Result InternalError (Option Block)
  block_after = block_to_validate c h e p k fails contract_registry program_registry

  -- A round that ends in an error leaves the database as it was, but for one case: the block is valid
  -- and in the database, and once the progress is at it the transaction or a read in it fails. Then
  -- the progress stays at that block, nothing else is changed, and the error is that failure, as a
  -- recoverable one.
  pub validate_next_block-err :
      (pool : ConnectionPool) {f : InternalError}
      → (round pool).0 ≡ err f
      → ((round pool).1 ≡ pool)
        ⊎ ((block : Block) × (gas : ℕ) × (block_after pool ≡ ok (some block))
            × (validate c h e p k pool contract_registry program_registry block ≡ ok (valid gas))
            × FailedAfter c h e p k fails contract_registry program_registry block pool f
                (round pool).1)
  unfolding validate_next_block
  validate_next_block-err pool {f} r = elim (Result-cases (block_after pool)) [
    | inr (f, b) ↦ inl (rw (b, validate_next_block) refl)
    | inl (none, b) ↦ inl (rw (b, validate_next_block) refl)
    | inl (some block, b) ↦
        elim (Result-cases (validate c h e p k pool contract_registry program_registry block)) [
          | inr (f, v) ↦ inl (rw (b, validate_next_block) (rw v refl))
          | inl (valid gas, v) ↦
              let same =
                round-recorded c h e p k fails contract_registry program_registry pool block
                  (valid gas) b v in
              elim (recorded-err c h e p k fails contract_registry program_registry block pool gas
                (ap (λ x. x.0) (sym same) ∙ r)) [
                  | inl kept ↦ inl (ap (λ x. x.1) same ∙ kept)
                  | inr after ↦ inr (
                    block,
                    gas,
                    b,
                    v,
                    subst
                        (FailedAfter c h e p k fails contract_registry program_registry block pool
                          f)
                        (ap (λ x. x.1) (sym same)) after,
                  )
                ]
          | inl (invalid failure ix, v) ↦
              let same =
                round-recorded c h e p k fails contract_registry program_registry pool block
                  (invalid failure ix) b v in
              inl (
                ap (λ x. x.1) same
                ∙ recorded_invalid-err c h e p k fails contract_registry program_registry block pool
                    failure ix (ap (λ x. x.0) (sym same) ∙ r))
        ]
  ]

  -- With an open pool, a round whose next block is valid and is in the database moves the progress
  -- to the block and writes nothing else; it asks for another round exactly where a finalized block
  -- has a greater number. Rows must stand for one block each, a scan must yield just the rows that
  -- are there, and the reads after the move must not fail.
  pub validate_next_block-valid :
      (law : IsScan e) (pool : ConnectionPool) (block : Block) (row : BlockRow) (gas : ℕ)
      → pool.closed ≡ false
      → UniqueRows pool.database.block
      → block_after pool ≡ ok (some block)
      → validate c h e p k pool contract_registry program_registry block ≡ ok (valid gas)
      → find_block pool.database (from_block h block) ≡ some row
      → fails (at_row pool.database row) ≡ none
      → (more : Bool) × (round pool ≡ (ok more, with_database pool (at_row pool.database row)))
        × ((more ≡ true) ↔ IsAheadOf block.header.number pool.database)
  validate_next_block-valid law pool block row gas o unique b v found goes = (
    is_behind c h e block.header.number (latest_number c h e (at_row pool.database row)),
    round-recorded c h e p k fails contract_registry program_registry pool block (valid gas) b v
        ∙ recorded-valid c h e p k fails contract_registry program_registry block pool row gas o
            found
        ∙ rw goes refl,
    is_behind-IsAheadOf c h e law block.header.number (at_row pool.database row) unique,
  )

  pub validate_next_block-invalid :
      (pool : ConnectionPool) (block : Block) (failure : ValidateFailure k.CheckError) (ix : ℕ)
      → pool.closed ≡ false
      → block_after pool ≡ ok (some block)
      → validate c h e p k pool contract_registry program_registry block ≡ ok (invalid failure ix)
      → (set : SolutionSet) × (get_elem? block.solution_sets ix ≡ some set)
        × (round pool ≡ (
          ok false,
          with_database pool
              (insert_failed_block (from_block h block) (h.solution_set_addr set) pool.database),
        ))
        × ((round pool).1.database.progress ≡ pool.database.progress)
  unfolding validate_next_block record_outcome
  validate_next_block-invalid pool block failure ix o b v =
      let (set, at) = invalid_set c h e p k fails contract_registry program_registry pool block v in
      let written =
        insert_failed_block (from_block h block) (h.solution_set_addr set) pool.database in
      let same : round pool ≡ (ok false, with_database pool written) =
        rw (b, validate_next_block)
          (rw v (
            rw
              (acquire_then-open pool
                (mark_invalid c h e (from_block h block) (get_elem? block.solution_sets ix)) o)
              (rw at (
                rw (
                  mark_invalid-set c h e p k fails contract_registry program_registry
                    (from_block h block) set pool.database))))) in
      (
        set,
        at,
        same,
        ap (λ x. x.1.database.progress) same
            ∙ progress-insert_failed_block c h e p k fails contract_registry program_registry
                (from_block h block) (h.solution_set_addr set) pool.database,
      )

  block_after-fork :
      (pool : ConnectionPool) (progress a b : ContentAddress) {rest : List ContentAddress}
      → pool.closed ≡ false
      → get_validation_progress pool.database ≡ some progress
      → get_next_block_addresses e progress pool.database ≡ a ∷ b ∷ rest
      → block_after pool ≡ err (critical fork)
  unfolding block_to_validate get_last_progress get_next_block next_of acquire_then acquire_pool
  block_after-fork pool progress a b o g n = rw o (rw g (rw n))

  -- With an open pool and a progress, a round ends in the critical error of a fork, and changes
  -- nothing, where two or more blocks follow the progress.
  pub validate_next_block-fork :
      (pool : ConnectionPool) (progress a b : ContentAddress) {rest : List ContentAddress}
      → pool.closed ≡ false
      → get_validation_progress pool.database ≡ some progress
      → get_next_block_addresses e progress pool.database ≡ a ∷ b ∷ rest
      → round pool ≡ (err (critical fork), pool)
  unfolding validate_next_block
  validate_next_block-fork pool progress a b o g n =
      rw (block_after-fork pool progress a b o g n, validate_next_block)
