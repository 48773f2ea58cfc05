-- ===== src/Db/Stored/RoundTrip.antt =====
-- `get_block` after `insert_block` (crates/node-db/src/lib.rs).
use essential_node.Types.{ContentAddress, SolutionSet, Block}
use essential_node.Convert.{Convert, IsConvert}
use essential_node.Hashing.{Hashing}
use essential_node.Db.{BlockRow, BlockSetRow, Database, Engine}
use essential_node.Db.Select.{All-imp}
use essential_node.Db.Distinct.{IsPermutation}
use essential_node.Db.Stored.Alike.{AlikeSets}
use essential_node.Types.Addr.{from_block}
use essential_node.Db.Statements.{find_block}
use essential_node.Db.Insert.{insert_block}
use essential_node.Db.Query.{get_block, fetch_sets, block_set_rows}
use essential_node.Db.Stored.{next_set}
use essential_node.Db.GetBlock.{get_block-at}
use essential_node.Db.Stored.Places.{RefersToBlocks, AreBlockWords, fetch_sets-Inserted}
use essential_node.Db.Stored.Blocks.{
  new_row, with_row, IsNewBlock, insert_block-Entered, insert_block-Refers,
}
use essential_node.Db.Stored.New.{Refers}
use essential_node.Prelude.{◌<◌, ◌≡◌, refl, ◌≢◌, some, List, [], ok, ◌∙◌}

module _ (c : Convert) (laws : IsConvert c) (h : Hashing) (e : Engine) (law : IsPermutation e) where
  get_block-found :
      (address : ContentAddress) (db : Database) {row : BlockRow} {sets : List SolutionSet}
      → find_block db address ≡ some row
      → fetch_sets e c db (block_set_rows e db row) ≡ ok sets
      → get_block e c address db
        ≡ ok (
            some (record {
              header = record {
                number = row.number;
                timestamp = record { secs = row.timestamp_secs; nanos = row.timestamp_nanos };
              };
              solution_sets = sets;
            }))
  get_block-found address db there sets = get_block-at e c address db there ∙ rw sets refl

  -- A block that is new to the database, inserted, is read back under its address: its header, and
  -- its solution sets and their solutions in their order. The mutations and the predicate data of a
  -- solution are all read back, but in an order that is left open, as their statements have none. The
  -- block must have a solution set, its sets must be new too and have different addresses, its words
  -- must be those of an i64, the rows of the database must name sets, solutions and blocks that are
  -- there, which they do after the insertion too, and a scan must yield each row as often as it is
  -- there, in any order.
  pub get_block-insert_block :
      (b : Block) (db : Database) {a : ContentAddress} {db' : Database}
      → insert_block c h b db ≡ ok (a, db')
      → IsNewBlock c h b db
      → b.solution_sets ≢ []
      → AreBlockWords b.solution_sets
      → (a ≡ from_block h b)
        × ((sets : List SolutionSet) × (get_block e c a db'
              ≡ ok (some (record b { solution_sets = sets })))
            × AlikeSets sets b.solution_sets)
        × Refers db'
        × RefersToBlocks db'
  get_block-insert_block b db {a} {db'} inserted new some_sets words =
      let entered = insert_block-Entered c h b db inserted new in
      let kept = insert_block-Refers c h b db inserted new in
      let old =
        All-imp _ _ db.block_solution_set
          (λ (r : BlockSetRow)
              (k : (r.block_id < (new_row c h b db).id) × (r.solution_set_id < next_set db)).
            k.0)
          new.refers_to_blocks in
      let (back, read, alike) =
        fetch_sets-Inserted c laws h e law (new_row c h b db) b.solution_sets (with_row c h b db)
          db' some_sets words old entered.sets in
      (entered.address, (back, get_block-found a db' entered.there read, alike), kept.0, kept.1)
