-- ===== src/Db/Stored/Blocks.antt =====
-- The tables after `insert_block` (crates/node-db/src/lib.rs) of a block that is new.
use essential_node.Types.{ContentAddress, SolutionSet, Block}
use essential_node.Types.Addr.{from_block, from_header_and_solution_set_addrs}
use essential_node.Convert.{Convert}
use essential_node.Hashing.{Hashing}
use essential_node.Db.{BlockRow, BlockSetRow, Database}
use essential_node.Db.Blocks.{to_sql-eq-ok, insert_sets-SameChain}
use essential_node.Db.Select.{All-imp, find-new, next_id-snoc}
use essential_node.Db.Statements.{find_block, insert_block_row, find_set}
use essential_node.Db.Insert.{to_sql, insert_sets, insert_block, zero_address}
use essential_node.Db.Stored.{next_set}
use essential_node.Db.Stored.New.{Refers}
use essential_node.Db.Stored.Sets.{AreNew, Inserted, insert_sets-Inserted}
use essential_node.Db.Stored.Places.{next_block, RefersToBlocks, Inserted-RefersToBlocks}
use essential_node.Prelude.{
  suc, ◌<◌, ◌≡◌, refl, sym, ap, subst, ◌∙◌, false, ◌&&◌, none, some, List, [], ◌∷◌, ◌++◌, arith,
  leb, ◌==◌, find, ok, >>=-eq-ok, bytes_eq, bytes_eq_refl, ok-eq-ok, ok-eq-ok, bytes_eq,
}

module _ (c : Convert) (h : Hashing) where
  abbrev pub new_row : Block → Database → BlockRow
  new_row b db = record {
    id = next_block db;
    block_address = from_block h b;
    parent_block_id = elim (find_block db zero_address) [ none ↦ 0 | some p ↦ p.id ];
    number = b.header.number;
    timestamp_secs = b.header.timestamp.secs;
    timestamp_nanos = b.header.timestamp.nanos;
  }

  insert_block_row-new :
      (b : Block) (db : Database)
      → find_block db (from_block h b) ≡ none
      → insert_block_row
          (from_block h b)
          zero_address
          b.header.number
          b.header.timestamp.secs
          b.header.timestamp.nanos
          db
        ≡ record db { block = db.block ++ new_row b db ∷ [] }
  unfolding insert_block_row
  insert_block_row-new b db new = rw (new, insert_block_row) refl

  AreNew-block :
      (db : Database) (rows : List BlockRow) (sets : List SolutionSet)
      → AreNew c h db sets
      → AreNew c h (record db { block = rows }) sets
  unfolding find_set
  AreNew-block db rows [] new = tt
  AreNew-block db rows (s ∷ ss) new = (new.0, new.1, AreNew-block db rows ss new.2)

  -- the database with the row of the block
  abbrev pub with_row : Block → Database → Database
  with_row b db = record db { block = db.block ++ new_row b db ∷ [] }

  -- what is asked of a block and of the database that it is new to
  pub record IsNewBlock (b : Block) (db : Database) : Type 0 where
    pub new_address : find_block db (from_block h b) ≡ none
    pub new_sets : AreNew c h db b.solution_sets
    pub refers : Refers db
    pub refers_to_blocks : RefersToBlocks db

  -- what the insertion leaves
  pub record Entered (b : Block) (db : Database) (a : ContentAddress) (db' : Database)
      : Type 0 where
    pub address : a ≡ from_block h b
    pub there : find_block db' a ≡ some (new_row b db)
    pub sets : Inserted c h (new_row b db) 0 b.solution_sets (with_row b db) db'

  pub find_block-with_row :
      (b : Block) (db : Database)
      → find_block db (from_block h b) ≡ none
      → find_block (with_row b db) (from_block h b) ≡ some (new_row b db)
  unfolding find_block
  find_block-with_row b db new =
      find-new (λ (r : BlockRow). bytes_eq r.block_address (from_block h b)) db.block (new_row b db)
        new (bytes_eq_refl (from_block h b))

  -- the row of the block, and no other, is added to the table
  pub block-insert_block :
      (b : Block) (db : Database) {a : ContentAddress} {db' : Database}
      → insert_block c h b db ≡ ok (a, db')
      → find_block db (from_block h b) ≡ none
      → db'.block ≡ db.block ++ new_row b db ∷ []
  unfolding insert_block from_block from_header_and_solution_set_addrs
  block-insert_block b db inserted new =
      let (secs, bound, rest) = >>=-eq-ok (to_sql b.header.timestamp.secs) _ inserted in
      let address = from_block h b in
      ap (λ out. out.1.block) (sym (ok-eq-ok rest))
      ∙ (insert_sets-SameChain c h address 0 b.solution_sets _).same_block
      ∙ ap
          (λ n.
            (insert_block_row address zero_address b.header.number n b.header.timestamp.nanos
              db).block)
          (to_sql-eq-ok b.header.timestamp.secs bound)
      ∙ ap (λ d. d.block) (insert_block_row-new b db new)

  insert_sets-Entered :
      (b : Block) (db : Database)
      → IsNewBlock b db
      → Entered b db
          (from_block h b)
          (insert_sets c h (from_block h b) 0 b.solution_sets (with_row b db))
  unfolding find_block
  insert_sets-Entered b db new =
      let there = find_block-with_row b db new.new_address in
      let row = new_row b db in
      let refers : Refers (with_row b db) = record {
        of_solutions = new.refers.of_solutions;
        of_mutations = new.refers.of_mutations;
        of_data = new.refers.of_data;
      } in
      let free =
        All-imp _ _ db.block_solution_set
          (λ (r : BlockSetRow) (k : (r.block_id < row.id) × (r.solution_set_id < next_set db)).
            let t : ((r.block_id == row.id) && leb 0 r.solution_set_index) ≡ false =
              ground (arith, k) in
            t)
          new.refers_to_blocks in
      let made =
        insert_sets-Inserted c h (from_block h b) 0 b.solution_sets (with_row b db) there refers
          (AreNew-block db (db.block ++ row ∷ []) b.solution_sets new.new_sets) free in
      record {
        address = refl;
        there =
            ap (find (λ (r : BlockRow). bytes_eq r.block_address (from_block h b))) made.same_block
            ∙ there;
        sets = made;
      }

  pub insert_block-Entered :
      (b : Block) (db : Database) {a : ContentAddress} {db' : Database}
      → insert_block c h b db ≡ ok (a, db')
      → IsNewBlock b db
      → Entered b db a db'
  unfolding insert_block from_block from_header_and_solution_set_addrs
  insert_block-Entered b db inserted new =
      let (secs, bound, rest) = >>=-eq-ok (to_sql b.header.timestamp.secs) _ inserted in
      let same : secs ≡ b.header.timestamp.secs = to_sql-eq-ok b.header.timestamp.secs bound in
      let address = from_block h b in
      let row =
        ap
          (λ n. insert_block_row address zero_address b.header.number n b.header.timestamp.nanos db)
          same
        ∙ insert_block_row-new b db new.new_address in
      subst (λ out. Entered b db out.0 out.1) (ok-eq-ok rest)
        (subst (λ d. Entered b db address (insert_sets c h address 0 b.solution_sets d)) (sym row)
          (insert_sets-Entered b db new))

  -- an insertion of a new block keeps every row naming solutions, sets and blocks that are there.
  pub insert_block-Refers :
      (b : Block) (db : Database) {a : ContentAddress} {db' : Database}
      → insert_block c h b db ≡ ok (a, db')
      → IsNewBlock b db
      → Refers db' × RefersToBlocks db'
  insert_block-Refers b db {db' = db'} inserted new =
      let entered = insert_block-Entered b db inserted new in
      let row = new_row b db in
      let more : next_block (with_row b db) ≡ suc row.id =
        next_id-snoc (λ (r : BlockRow). r.id) db.block row (omega arith) in
      let places =
        All-imp _ _ db.block_solution_set
          (λ (r : BlockSetRow)
              (k : (r.block_id < next_block db) × (r.solution_set_id < next_set db)).
            let t : (r.block_id < next_block (with_row b db)) × (r.solution_set_id < next_set db) =
              (omega (arith, k.0, more), k.1) in
            t)
          new.refers_to_blocks in
      (
        entered.sets.refers,
        Inserted-RefersToBlocks c h row b.solution_sets (with_row b db) db' (omega (arith, more))
            places entered.sets,
      )
