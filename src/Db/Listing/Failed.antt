-- ===== src/Db/Listing/Failed.antt =====
-- Failed blocks of crates/node-db/src/lib.rs, entered and listed.
use essential_node.Types.{ContentAddress}
use essential_node.Db.{BlockRow, SolutionSetRow, FailedRow, Database, Engine}
use essential_node.Db.Has.{
  Has, IsScan, Has-select, find-Has, exists-Has, Has-map, Has-append_right, Has-flat, Has-sort,
}
use essential_node.Db.Statements.{find_block, find_set, insert_failed}
use essential_node.Db.Insert.{insert_failed_block}
use essential_node.Db.Listing.{in_range, failed_pairs, failed_before, list_failed_blocks}
use essential_node.Prelude.{
  ◌≡◌, refl, inl, inr, Bool, true, ◌&&◌, some, List, [], ◌∷◌, ◌++◌, ◌==◌, ==_iff, Bool-cases,
  select, exists, ℤ, bytes_eq, &&-eq-true, sym, subst, bytes_eq_iff,
}

-- the database with these rows of failed blocks
abbrev with_failed : Database → List FailedRow → Database
with_failed db rows = record db { failed_block = rows }

-- what is entered: a row for the block and the set, in tables that are otherwise as before
entered :
    (address set_addr : ContentAddress) (db : Database) {b : BlockRow} {s : SolutionSetRow}
    → find_block db address ≡ some b
    → find_set db set_addr ≡ some s
    → (f : FailedRow) × (rows : List FailedRow) × (insert_failed_block address set_addr db
        ≡ with_failed db rows)
      × Has f rows
      × (f.block_id ≡ b.id)
      × (f.solution_set_id ≡ s.id)
unfolding insert_failed_block insert_failed
entered address set_addr db {b} {s} found_b found_s =
    let test : FailedRow → Bool = λ f. (f.block_id == b.id) && (f.solution_set_id == s.id) in
    elim (Bool-cases (exists test db.failed_block)) [
      | inl old ↦
          let (f, there, same) = exists-Has test db.failed_block old in
          let (one, two) = &&-eq-true (f.block_id == b.id) (f.solution_set_id == s.id) same in
          (
            f,
            db.failed_block,
            rw (found_b, insert_failed_block, insert_failed) (rw found_s (rw old refl)),
            there,
            (==_iff f.block_id b.id).0 one,
            (==_iff f.solution_set_id s.id).0 two,
          )
      | inr new ↦ (
        record { block_id = b.id; solution_set_id = s.id },
        db.failed_block ++ record { block_id = b.id; solution_set_id = s.id } ∷ [],
        rw (found_b, insert_failed_block, insert_failed) (rw found_s (rw new refl)),
        Has-append_right db.failed_block _ _ (inl refl),
        refl,
        refl,
      )
    ]

module _ (e : Engine) (law : IsScan e) where
  failed_pairs-Has :
      (db : Database) (f : FailedRow) (b : BlockRow) (s : SolutionSetRow)
      → Has f db.failed_block
      → Has b db.block
      → Has s db.solution_set
      → f.block_id ≡ b.id
      → f.solution_set_id ≡ s.id
      → Has (b, s) (failed_pairs e db)
  failed_pairs-Has db f b s hf hb hs one two =
      Has-flat _ (e.scan FailedRow db.failed_block) f (b, s) ((law.same_rows FailedRow _ f).1 hf)
        (Has-flat _ (select (λ (b : BlockRow). f.block_id == b.id) db.block) b (b, s)
          ((Has-select _ db.block b).1 (hb, (==_iff f.block_id b.id).1 one))
          (Has-map (λ (s : SolutionSetRow). (b, s)) _ s
            ((Has-select _ db.solution_set s).1 (hs, (==_iff f.solution_set_id s.id).1 two))))

  -- A block that is entered as failed, with one of its solution sets, is listed with the set's address
  -- among the failed blocks of each range that its number is in, provided that the block and the set
  -- are in the database and that a scan yields just the rows that are there.
  pub list_failed_blocks-insert_failed_block :
      (address set_addr : ContentAddress) (db : Database) (start end : ℤ) {b : BlockRow}
      {s : SolutionSetRow}
      → find_block db address ≡ some b
      → find_set db set_addr ≡ some s
      → in_range e start end b ≡ true
      → Has
          (b.number, set_addr)
          (list_failed_blocks e start end (insert_failed_block address set_addr db))
  unfolding list_failed_blocks find_block find_set
  list_failed_blocks-insert_failed_block address set_addr db start end {b} {s} found_b found_s
        inside =
      let (f, rows, same, there, one, two) = entered address set_addr db found_b found_s in
      let (there_b, at_b) =
        find-Has (λ (b : BlockRow). bytes_eq b.block_address address) db.block found_b in
      let (there_s, at_s) =
        find-Has (λ (s : SolutionSetRow). bytes_eq s.content_addr set_addr) db.solution_set
          found_s in
      let db' = with_failed db rows in
      let pair = failed_pairs-Has db' f b s there there_b there_s one two in
      let listed =
        Has-map (λ (p : BlockRow × SolutionSetRow). (p.0.number, p.1.content_addr)) _ (b, s)
          (Has-sort (failed_before e) _ (b, s)
            ((Has-select (λ (p : BlockRow × SolutionSetRow). in_range e start end p.0)
                (failed_pairs e db') (b, s)).1
              (pair, inside))) in
      subst (λ d. Has (b.number, set_addr) (list_failed_blocks e start end d)) (sym same)
        (subst (λ a. Has (b.number, a) (list_failed_blocks e start end db'))
          ((bytes_eq_iff s.content_addr set_addr).0 at_s) listed)
