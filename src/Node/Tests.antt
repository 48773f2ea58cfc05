-- ===== src/Node/Tests.antt =====
-- The first start of a node, and the next one.
use essential_node.Types.{Block}
use essential_node.Types.BigBang.{BigBang}
use essential_node.Types.BigBang
use essential_node.Types.Addr.{from_block}
use essential_node.Convert.BigEndian.{big_endian, big_endian-IsConvert}
use essential_node.Db.{Database, create_tables}
use essential_node.Db.Query.{get_block, get_latest_finalized_block_address}
use essential_node.Db.Query
use essential_node.Db.Stored.Alike.{AlikeSets}
use essential_node.Db.Stored.Places.{AreBlockWords}
use essential_node.Node.{unexpected_block, ensure_big_bang_block}
use essential_node.Node.Start.{pool_of, ensure_big_bang_block-Twice}
use essential_node.Samples.{turned_engine, turned_engine-IsPermutation, hashing, one_set}
use essential_node.Prelude.{err, ◌⊎◌, ◌≢◌, ◌≡◌, some, [], ◌∷◌, arith, ok}

abbrev big_bang : BigBang
big_bang = record {
  block_state = record { contract = 1 ∷ []; predicate = 2 ∷ [] };
  contract_registry = record { contract = 3 ∷ []; predicate = 4 ∷ [] };
  program_registry = record { contract = 5 ∷ []; predicate = 6 ∷ [] };
  solution_set = one_set;
}

abbrev bb_block : Block
bb_block = BigBang.block big_bang

big_bang_words : AreBlockWords (one_set ∷ [])
big_bang_words = omega arith

ensure_big_bang_block-Twice_example :
    (db : Database) × (back : Block) × (ensure_big_bang_block big_endian hashing turned_engine
        big_bang
        (pool_of create_tables)
      ≡ (ok (from_block hashing bb_block), pool_of db))
    × (get_block turned_engine big_endian (from_block hashing bb_block) db ≡ ok (some back))
    × (back.header ≡ bb_block.header)
    × AlikeSets back.solution_sets bb_block.solution_sets
    × (get_latest_finalized_block_address turned_engine db ≡ some (from_block hashing bb_block))
    × (Query.get_validation_progress db ≡ some (from_block hashing bb_block))
    × ((from_block hashing back ≡ from_block hashing bb_block)
          × (ensure_big_bang_block big_endian hashing turned_engine big_bang (pool_of db)
              ≡ (ok (from_block hashing bb_block), pool_of db))
        ⊎ ((from_block hashing back ≢ from_block hashing bb_block)
            × (ensure_big_bang_block big_endian hashing turned_engine big_bang (pool_of db) ≡ (
              err (unexpected_block (from_block hashing bb_block) (from_block hashing back)),
              pool_of db,
            ))))
ensure_big_bang_block-Twice_example =
    ensure_big_bang_block-Twice big_endian big_endian-IsConvert hashing turned_engine
      turned_engine-IsPermutation big_bang big_bang_words
