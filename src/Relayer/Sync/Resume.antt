-- ===== src/Relayer/Sync/Resume.antt =====
-- Where the next run of the block stream resumes: `get_block_progress` after `write_block`, of
-- crates/relayer/src/sync.rs.
use essential_node.Types.{ContentAddress, Block}
use essential_node.Types.Addr.{from_block}
use essential_node.Convert.{Convert}
use essential_node.Hashing.{Hashing}
use essential_node.Errors.{RusqliteError}
use essential_node.Db.{BlockRow, FinalizedRow, Database, Engine}
use essential_node.Db.Has.{Has, IsScan, Has-append_right}
use essential_node.Db.Listing.Range.{All, Has-All}
use essential_node.Db.Blocks.{finalized-insert_block}
use essential_node.Db.Select.{next_id-bound}
use essential_node.Db.Finality.{finalize_found, clash}
use essential_node.Db.LatestBlock.{is_finalized, latest-greatest}
use essential_node.Db.Statements.{find_block}
use essential_node.Db.Insert.{insert_block, finalize_block}
use essential_node.Db.Query.{get_latest_finalized_block_address, get_block_header}
use essential_node.Db.Stored.Blocks.{new_row, block-insert_block, find_block-with_row}
use essential_node.Db.Transaction.{with_tx, with_tx-of_ok, with_tx-of_err}
use essential_node.Db.Pool.{inner, ConnectionPool, acquire_then-open, with_database}
use essential_node.Relayer.Sync.{
  BlockProgress, progress_of, get_block_progress, write_block, write_block_tx,
}
use essential_node.Prelude.{
  ◌<◌, ◌≡◌, refl, subst, ◌⊎◌, inl, inr, Bool, true, false, ◌||◌, none, some, List, [], ◌∷◌, ◌++◌,
  arith, ◌==◌, exists, ◌<ℤ◌, ok, sym, ap, ◌∙◌, Option, Bool-cases, find, Result, Result-cases,
  >>=-eq-ok, bytes_eq, ok-eq-ok, ok-eq-ok, bytes_eq, map_err,
}

Has-append : {A : Type 0} (xs ys : List A) (x : A) → Has x (xs ++ ys) → Has x xs ⊎ Has x ys
Has-append [] ys x h = inr h
Has-append (z ∷ zs) ys x h = elim h [
  | inl same ↦ inl (inl same)
  | inr more ↦ elim (Has-append zs ys x more) [ inl left ↦ inl (inr left) | inr right ↦ inr right ]
]

exists-append :
    {A : Type 0} (p : A → Bool) (xs : List A) (y : A)
    → exists p (xs ++ y ∷ []) ≡ (exists p xs || p y)
exists-append p [] y = ground arith
exists-append p (x ∷ xs) y = ground (arith, exists-append p xs y)

module _ (c : Convert) (h : Hashing) (e : Engine) (law : IsScan e) where
  -- the block is new, and has a greater number than every finalized one
  pub record IsAhead (b : Block) (db : Database) : Type 0 where
    pub new_address : find_block db (from_block h b) ≡ none
    pub above :
        All (λ (r : BlockRow). is_finalized db r ≡ true → r.number <ℤ b.header.number) db.block

  -- a finalization that succeeds, of a block that is there
  finalize_block-added :
      (a : ContentAddress) (db : Database) (row : BlockRow) {db' : Database}
      → find_block db a ≡ some row
      → finalize_block a db ≡ ok db'
      → db' ≡ record db {
        finalized_block =
            db.finalized_block ++ record { block_number = row.number; block_id = row.id } ∷ [];
      }
  finalize_block-added a db row {db'} there final =
      let new : FinalizedRow = record { block_number = row.number; block_id = row.id } in
      let same = sym (finalize_found a db row there) ∙ final in
      elim (Bool-cases (exists (λ f. clash f new) db.finalized_block)) [
        | inl hit ↦ absurd (ground (arith, same, hit))
        | inr free ↦ ground (arith, same, free)
      ]

  progress_of-found :
      (db : Database) (a : ContentAddress) (row : BlockRow)
      → get_latest_finalized_block_address e db ≡ some a
      → find_block db a ≡ some row
      → progress_of e db ≡ some (record { last_block_number = row.number; last_block_address = a })
  unfolding get_block_header
  progress_of-found db a row latest there =
      rw (latest, progress_of) (rw (there, get_block_header) refl)

  progress-write_block_tx :
      (b : Block) (db : Database) {db' : Database}
      → IsAhead b db
      → write_block_tx c h b db ≡ ok (tt, db')
      → progress_of e db'
        ≡ some (record { last_block_number = b.header.number; last_block_address = from_block h b })
  unfolding write_block_tx find_block
  progress-write_block_tx b db {db'} ahead written =
      let a = from_block h b in
      let row = new_row c h b db in
      let ((a1, db1), inserted, e1) = >>=-eq-ok (insert_block c h b db) _ written in
      let (db2, final, e2) = >>=-eq-ok (finalize_block a db1) _ e1 in
      let blocks = block-insert_block c h b db inserted ahead.new_address in
      let finals = finalized-insert_block c h b db inserted in
      let there : find_block db1 a ≡ some row =
        ap (find (λ (r : BlockRow). bytes_eq r.block_address a)) blocks
        ∙ find_block-with_row c h b db ahead.new_address in
      let entry : FinalizedRow = record { block_number = row.number; block_id = row.id } in
      let db3 = record db1 { finalized_block = db1.finalized_block ++ entry ∷ [] } in
      let same : db3 ≡ db' =
        sym (finalize_block-added a db1 row there final) ∙ ap (λ p. p.1) (ok-eq-ok e2) in
      let splits = λ (r : BlockRow).
        exists-append (λ (f : FinalizedRow). f.block_id == r.id) db1.finalized_block entry in
      let latest =
        latest-greatest e law db3 row
          (subst (Has row) (sym blocks) (Has-append_right db.block (row ∷ []) row (inl refl)))
          (ground (arith, splits row))
          (λ r r_there r_final.
            elim (Has-append db.block (row ∷ []) r (subst (Has r) blocks r_there)) [
              | inl old ↦
                  let below =
                    Has-All (λ (q : BlockRow). q.id < row.id) db.block
                      (next_id-bound (λ (q : BlockRow). q.id) db.block row.id (omega arith)) r
                      old in
                  let before : is_finalized db1 r ≡ true =
                    ground (arith, splits r, r_final, below) in
                  inr (
                    Has-All _ db.block ahead.above r old (
                      ap (exists (λ (f : FinalizedRow). f.block_id == r.id)) (sym finals) ∙ before))
              | inr new ↦ elim new [ inl same_row ↦ inl same_row | inr no_more ↦ absurd no_more ]
            ]) in
      subst
        (λ d.
          progress_of e d
          ≡ some (record { last_block_number = b.header.number; last_block_address = a }))
        same (progress_of-found db3 a row latest there)

  -- The next run of the block stream resumes from the block that was written last: with an open
  -- pool, a block that is written, is new and has a greater number than every finalized block of
  -- the database is the progress that is read then. A scan must yield just the rows that are there.
  pub get_block_progress-write_block :
      (b : Block) (pool : ConnectionPool)
      → pool.closed ≡ false
      → IsAhead b pool.database
      → (write_block c h b pool).0 ≡ ok tt
      → get_block_progress e (write_block c h b pool).1 ≡ (
        ok (
            some (record {
              last_block_number = b.header.number;
              last_block_address = from_block h b;
            })),
        (write_block c h b pool).1,
      )
  unfolding write_block get_block_progress with_tx
  get_block_progress-write_block b pool open_pool ahead written =
      let f = write_block_tx c h b in
      let run = acquire_then-open pool (with_tx f) open_pool in
      elim (Result-cases (f pool.database)) [
        | inr (failure, failed) ↦
            let none_written =
              ap (λ out. map_err inner out.0) (with_tx-of_err f pool.database failed) in
            absurd (ground (arith, ap (λ out. out.0) run, none_written, written))
        | inl ((u, db'), done) ↦
            let after : write_block c h b pool ≡ (ok tt, with_database pool db') =
              run
              ∙ ap (λ out. (map_err inner out.0, with_database pool out.1))
                  (with_tx-of_ok f pool.database done) in
            let read : Database → Result RusqliteError (Option BlockProgress × Database) =
              λ db. ok (progress_of e db, db) in
            let next = acquire_then-open (with_database pool db') (with_tx read) open_pool in
            rw after (next ∙ rw (progress-write_block_tx b pool.database ahead done) refl)
      ]
