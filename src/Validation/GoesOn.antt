-- ===== src/Validation/GoesOn.antt =====
-- What a round of the validation stream that asks for another one has done.
use essential_node.Types.Addr.{from_block}
use essential_node.Types.{ContentAddress, Block}
use essential_node.Convert.{Convert}
use essential_node.Hashing.{Hashing, Predicates}
use essential_node.Db.{BlockRow, Database, Engine}
use essential_node.Db.Has.{Has, IsScan}
use essential_node.Db.Statements.{find_block}
use essential_node.Db.Query.{get_latest_finalized_block_address, get_block_header, get_block}
use essential_node.Validation.Recorded.{round-recorded, recorded-valid}
use essential_node.Validation.Progress.{validate_next_block-invalid}
use essential_node.Validate.DryRun.{validate}
use essential_node.Db.Pool.{inner, with_database, ConnectionPool}
use essential_node.Validate.Inner.{invalid, valid, Checker}
use essential_node.Validation.Errors.{InternalError, of_validation_error, of_acquire_then}
use essential_node.Errors.{RusqliteError}
use essential_node.Validation.Step.{
  unless_failed, Failing, validate_next_block, latest_number, is_behind, block_to_validate,
}
use essential_node.Validation.Next.{
  UniqueRows, ProgressAt, find_block-of_row, ProgressAt-address, next-number, next_block-some,
  get_block-number,
}
use essential_node.Prelude.{
  map_err, ℕ, ◌≡◌, refl, sym, ap, subst, ◌∙◌, inl, inr, Bool, true, false, Option, none, some,
  arith, set, ℤ, ◌<ℤ◌, inc, Result, ok, err, Result-cases, ok-eq-ok,
}

not_err :
    {A : Type 0} (out : Result InternalError Bool × A) {f : InternalError}
    → out.0 ≡ err f
    → out.0 ≡ ok true
    → ⊥
not_err out failed goes_on = absurd cc

not_false :
    {A : Type 0} (out : Result InternalError Bool × A) → out.0 ≡ ok false → out.0 ≡ ok true → ⊥
not_false out ends goes_on = let bad : false ≡ true = ok-eq-ok (sym ends ∙ goes_on) in absurd cc

module _ (c : Convert) (h : Hashing) (e : Engine) (p : Predicates) (k : Checker p) (fails : Failing)
    (contract_registry program_registry : ContentAddress) where
  abbrev next_block : ConnectionPool → Result InternalError (Option Block)
  next_block = block_to_validate c h e p k fails contract_registry program_registry

  pub latest_number-progress :
      (db : Database) (id : ℕ)
      → latest_number c h e (record db { progress = some id }) ≡ latest_number c h e db
  unfolding latest_number get_latest_finalized_block_address get_block_header find_block
  latest_number-progress db id = refl

  is_behind-true :
      (n : ℤ) (latest : Option ℤ)
      → is_behind c h e n latest ≡ true
      → (l : ℤ) × (latest ≡ some l) × (n <ℤ l)
  is_behind-true n none b = absurd cc
  is_behind-true n (some l) b = (l, refl, ground (arith, b))

  -- an answer is given only where the reads do not fail
  asked-true :
      (failed : Option RusqliteError) (more : Bool)
      → map_err of_acquire_then (map_err inner (unless_failed c h e failed more)) ≡ ok true
      → more ≡ true
  asked-true none more a = ok-eq-ok a
  asked-true (some f) more a = absurd cc

  -- what a round that asks for another one has done
  pub record GoesOn (row : BlockRow) (pool : ConnectionPool) : Type 0 where
    pub next : BlockRow
    pub there : Has next pool.database.block
    pub follows : next.number ≡ inc row.number
    pub latest : ℤ
    pub latest_found : latest_number c h e pool.database ≡ some latest
    pub behind : next.number <ℤ latest
    pub moved :
        (validate_next_block c h e p k fails contract_registry program_registry pool).1
        ≡ with_database pool (record pool.database { progress = some next.id })

  valid-GoesOn :
      (row : BlockRow) (pool : ConnectionPool) (block : Block) (next : BlockRow) (gas : ℕ)
      → pool.closed ≡ false
      → next_block pool ≡ ok (some block)
      → validate c h e p k pool contract_registry program_registry block ≡ ok (valid gas)
      → find_block pool.database (from_block h block) ≡ some next
      → Has next pool.database.block
      → next.number ≡ inc row.number
      → block.header.number ≡ next.number
      → (validate_next_block c h e p k fails contract_registry program_registry pool).0 ≡ ok true
      → GoesOn row pool
  valid-GoesOn row pool block next gas o b v found there follows same goes_on =
      let round =
        round-recorded c h e p k fails contract_registry program_registry pool block (valid gas) b v
        ∙ recorded-valid c h e p k fails contract_registry program_registry block pool next gas o
            found in
      let db' = record pool.database { progress = some next.id } in
      let (l, latest, less) =
        is_behind-true block.header.number (latest_number c h e db')
          (asked-true (fails db') _ (sym (ap (λ x. x.0) round) ∙ goes_on)) in
      record {
        next = next;
        there = there;
        follows = follows;
        latest = l;
        latest_found = sym (latest_number-progress pool.database next.id) ∙ latest;
        behind = subst (λ n. n <ℤ l) same less;
        moved = ap (λ x. x.1) round;
      }

  -- The pool is open, its progress is the block of the row, rows stand for one block each, and a block
  -- that is read by an address has that address.
  pub record Steady (row : BlockRow) (pool : ConnectionPool) : Type 0 where
    pub opened : pool.closed ≡ false
    pub at : ProgressAt row pool.database
    pub unique : UniqueRows pool.database.block
    pub addressed :
        (a : ContentAddress) (block : Block) (progress : Option ℕ)
        → get_block e c a (record pool.database { progress = progress }) ≡ ok (some block)
        → from_block h block ≡ a

  pub validate_next_block-GoesOn :
      (law : IsScan e) (row : BlockRow) (pool : ConnectionPool)
      → Steady row pool
      → (validate_next_block c h e p k fails contract_registry program_registry pool).0 ≡ ok true
      → GoesOn row pool
  unfolding validate_next_block
  validate_next_block-GoesOn law row pool steady goes_on = elim (Result-cases (next_block pool)) [
    | inr (f, b) ↦ absurd (
        not_err (validate_next_block c h e p k fails contract_registry program_registry pool)
          {f = f} (rw (b, validate_next_block) refl) goes_on)
    | inl (none, b) ↦ absurd (
        not_false (validate_next_block c h e p k fails contract_registry program_registry pool)
          (rw (b, validate_next_block) refl) goes_on)
    | inl (some block, b) ↦
        let progress = ProgressAt-address row pool.database steady.unique steady.at in
        let (a, only, read) =
          next_block-some c h e p k fails contract_registry program_registry pool row.block_address
            steady.opened progress b in
        let (r, there, same, follows) =
          next-number e law row pool.database a steady.unique steady.at.there
            (rw only (inl refl)) in
        let found = find_block-of_row pool.database r steady.unique there in
        elim (Result-cases (validate c h e p k pool contract_registry program_registry block)) [
          | inr (f, v) ↦
              let failed : (validate_next_block c h e p k fails contract_registry program_registry
                    pool).0
                  ≡ err (of_validation_error f) =
                rw (b, validate_next_block) (rw v refl) in
              absurd (
                not_err
                  (validate_next_block c h e p k fails contract_registry program_registry pool)
                  failed goes_on)
          | inl (invalid failure ix, v) ↦
              let (set, at, ends, kept) =
                validate_next_block-invalid c h e p k fails contract_registry program_registry pool
                  block failure ix steady.opened b v in
              absurd (
                not_false
                  (validate_next_block c h e p k fails contract_registry program_registry pool)
                  (ap (λ x. x.0) ends) goes_on)
          | inl (valid gas, v) ↦
              let own = steady.addressed a block pool.database.progress read in
              valid-GoesOn row pool block r gas steady.opened b v
                (ap (find_block pool.database) (own ∙ sym same) ∙ found) there follows
                (get_block-number c h e p k fails contract_registry program_registry pool.database a
                  (ap (find_block pool.database) (sym same) ∙ found) read)
                goes_on
        ]
  ]
