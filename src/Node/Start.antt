-- ===== src/Node/Start.antt =====
-- `ensure_big_bang_block` of crates/node/src/lib.rs at the first start of a node, and at the next
-- one.
use essential_node.Types.{Block, ContentAddress}
use essential_node.Errors.{QueryError}
use essential_node.Types.BigBang.{BigBang}
use essential_node.Types.BigBang
use essential_node.Types.Addr.{from_block}
use essential_node.Convert.{Convert, IsConvert}
use essential_node.Hashing.{Hashing}
use essential_node.Db.{Database, BlockRow, Engine, create_tables}
use essential_node.Db.Statements.{find_block, next_id, replace_progress}
use essential_node.Db.Insert
use essential_node.Db.Query.{get_block, get_latest_finalized_block_address}
use essential_node.Db.Query
use essential_node.Db.Listing
use essential_node.Db.Transaction.{with_tx, with_tx-of_ok}
use essential_node.Db.Pool.{ConnectionPool, acquire_then-open, with_database, inner}
use essential_node.Db.Pool.Methods.{
  list_blocks, get_validation_progress, update_validation_progress, in_tx, writing, reading,
}
use essential_node.Db.Distinct.{IsPermutation}
use essential_node.Db.Stored.Alike.{AlikeSets}
use essential_node.Db.Stored.Places.{AreBlockWords}
use essential_node.Node.{
  insert_block_failed, unexpected_block, insert_and_finalize, ensure_inserted, ensure_progress,
  ensure_big_bang_block,
}
use essential_node.Node.Entered.{
  bb_block, bb_ca, bb_row, finalized, started, found, insert_and_finalize-finalized,
  get_block-started, no_blocks, one_block, ReadBack, latest-started,
}
use essential_node.Prelude.{
  ◌≡◌, refl, ap, ◌∙◌, false, none, Option, Result, List, [], ◌∷◌, pos, ok, map_err, inl, inr, some,
  err, true, Bool-cases, ◌⊎◌, ◌≢◌, arith, bytes_eq, bytes_eq_iff,
}

abbrev pub pool_of : Database → ConnectionPool
pool_of db = record { database = db; closed = false }

progress_found :
    (address : ContentAddress) (db : Database) (b : BlockRow)
    → find_block db address ≡ some b
    → Insert.update_validation_progress address db ≡ ok (record db { progress = some b.id })
unfolding Insert.update_validation_progress replace_progress
progress_found address db b there = rw (replace_progress, there) refl

module _ (c : Convert) (laws : IsConvert c) (h : Hashing) (e : Engine) (law : IsPermutation e)
    (big : BigBang) where
  listed :
      (db : Database) {blocks : List Block}
      → Listing.list_blocks e c (pos 0) (pos 1) db ≡ ok blocks
      → list_blocks e c (pos 0) (pos 1) (pool_of db) ≡ (ok blocks, pool_of db)
  unfolding list_blocks
  listed db {blocks} there =
      let read = in_tx (Listing.list_blocks e c (pos 0) (pos 1)) in
      let ends : read db ≡ ok (blocks, db) = rw (there, in_tx) refl in
      acquire_then-open (pool_of db) (with_tx read) refl
      ∙ ap (λ o. (map_err inner o.0, with_database (pool_of db) o.1)) (with_tx-of_ok read db ends)

  entered :
      ensure_inserted c h e (bb_block c h big) (bb_ca c h big) [] (pool_of create_tables)
      ≡ (ok tt, pool_of (finalized c h big))
  unfolding ensure_inserted
  entered =
      let run = insert_and_finalize c h e (bb_block c h big) (bb_ca c h big) in
      ap (λ o. (map_err insert_block_failed o.0, o.1))
        (acquire_then-open (pool_of create_tables) (with_tx run) refl
          ∙ ap (λ o. (map_err inner o.0, with_database (pool_of create_tables) o.1))
              (with_tx-of_ok run create_tables (insert_and_finalize-finalized c h big laws e law)))

  moved :
      ensure_progress c h e (bb_ca c h big) none (pool_of (finalized c h big))
      ≡ (ok tt, pool_of (started c h big))
  unfolding ensure_progress update_validation_progress find_block
  moved =
      let db = finalized c h big in
      let write = Insert.update_validation_progress (bb_ca c h big) in
      let enters : write db ≡ ok (started c h big) =
        progress_found (bb_ca c h big) db (bb_row c h big) (found c h big) in
      let written : writing write db ≡ (ok tt, started c h big) = rw (enters, writing) refl in
      ap (λ o. (map_err insert_block_failed o.0, o.1))
        (acquire_then-open (pool_of db) (writing write) refl
          ∙ ap (λ o. (map_err inner o.0, with_database (pool_of db) o.1)) written)

  -- the progress before and after
  abbrev read_progress : Database → Result QueryError (Option ContentAddress) × Database
  read_progress = reading (λ db. ok (Query.get_validation_progress db))

  no_progress :
      get_validation_progress (pool_of (finalized c h big)) ≡ (ok none, pool_of (finalized c h big))
  unfolding get_validation_progress Query.get_validation_progress
  no_progress = acquire_then-open (pool_of (finalized c h big)) read_progress refl

  progress_at : Query.get_validation_progress (started c h big) ≡ some (bb_ca c h big)
  unfolding Query.get_validation_progress next_id
  progress_at = refl

  some_progress :
      get_validation_progress (pool_of (started c h big))
      ≡ (ok (some (bb_ca c h big)), pool_of (started c h big))
  unfolding get_validation_progress
  some_progress =
      acquire_then-open (pool_of (started c h big)) read_progress refl ∙ rw progress_at refl

  -- what the next start makes of the block that it reads
  abbrev pub NextStart : Block → Type 0
  NextStart back =
      let again = ensure_big_bang_block c h e big (pool_of (started c h big)) in
      (from_block h back ≡ bb_ca c h big)
        × (again ≡ (ok (bb_ca c h big), pool_of (started c h big)))
      ⊎ ((from_block h back ≢ bb_ca c h big)
          × (again ≡ (
            err (unexpected_block (bb_ca c h big) (from_block h back)),
            pool_of (started c h big),
          )))

  as_expected :
      (back : Block)
      → bytes_eq (from_block h back) (bb_ca c h big) ≡ true
      → ensure_inserted c h e
          (bb_block c h big)
          (bb_ca c h big)
          (back ∷ [])
          (pool_of (started c h big))
        ≡ (ok tt, pool_of (started c h big))
  unfolding ensure_inserted
  as_expected back same = rw same refl

  not_as_expected :
      (back : Block)
      → bytes_eq (from_block h back) (bb_ca c h big) ≡ false
      → ensure_inserted c h e
          (bb_block c h big)
          (bb_ca c h big)
          (back ∷ [])
          (pool_of (started c h big))
        ≡ (err (unexpected_block (bb_ca c h big) (from_block h back)), pool_of (started c h big))
  unfolding ensure_inserted
  not_as_expected back differs = rw differs refl

  first_start :
      ensure_big_bang_block c h e big (pool_of create_tables)
      ≡ (ok (bb_ca c h big), pool_of (started c h big))
  unfolding ensure_big_bang_block
  first_start =
      rw (listed create_tables (no_blocks c h big laws e law))
        (rw entered (rw no_progress (rw moved refl)))

  next_start : (back : Block) → ReadBack c h big laws e law back → NextStart back
  unfolding ensure_big_bang_block ensure_progress
  next_start back reads =
      let read = listed (started c h big) (one_block c h big laws e law back reads) in
      elim (Bool-cases (bytes_eq (from_block h back) (bb_ca c h big))) [
        | inl same ↦ inl (
          (bytes_eq_iff (from_block h back) (bb_ca c h big)).0 same,
          rw read (rw (as_expected back same) (rw some_progress refl)),
        )
        | inr differs ↦ inr (
          λ same. absurd (ground (arith, (bytes_eq_iff _ _).1 same, differs)),
          rw read (rw (not_as_expected back differs) refl),
        )
      ]

  -- The first start of a node on a new database, with a pool that is open, gives the address of the
  -- big bang block and leaves the block in the database. It is read back with its header and its
  -- solutions, but the mutations and the predicate data of a solution in an order that is left open.
  -- It is the latest finalized block, from which the relayer goes on, and the validation begins at
  -- it. The next start with the same configuration changes nothing: it gives the same address where
  -- the block that is read back has it, and is the error of an unexpected block where it has not.
  -- The words of the solution set must be those of an i64, and a scan must yield each row as often
  -- as it is there, in any order.
  pub ensure_big_bang_block-Twice :
      AreBlockWords (big.solution_set ∷ [])
      → let block = BigBang.block big in
        (db : Database) × (back : Block) × (ensure_big_bang_block c h e big (pool_of create_tables)
          ≡ (ok (from_block h block), pool_of db))
        × (get_block e c (from_block h block) db ≡ ok (some back))
        × (back.header ≡ block.header)
        × AlikeSets back.solution_sets block.solution_sets
        × (get_latest_finalized_block_address e db ≡ some (from_block h block))
        × (Query.get_validation_progress db ≡ some (from_block h block))
        × ((from_block h back ≡ from_block h block)
              × (ensure_big_bang_block c h e big (pool_of db)
                  ≡ (ok (from_block h block), pool_of db))
            ⊎ ((from_block h back ≢ from_block h block)
                × (ensure_big_bang_block c h e big (pool_of db) ≡ (
                  err (unexpected_block (from_block h block) (from_block h back)),
                  pool_of db,
                ))))
  ensure_big_bang_block-Twice words =
      let (back, reads) = get_block-started c h big laws e law words in
      (
        started c h big,
        back,
        first_start,
        reads.read,
        reads.same_header,
        reads.alike,
        latest-started c h big laws e law,
        progress_at,
        next_start back reads,
      )
