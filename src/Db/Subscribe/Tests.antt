-- ===== src/Db/Subscribe/Tests.antt =====
-- A subscription to a database to which a second block comes.
use essential_node.Types.{SolutionSet, Block}
use essential_node.Convert.BigEndian.{big_endian}
use essential_node.Db.{BlockRow, Database, create_tables, row_engine}
use essential_node.Db.Listing.{list_blocks}
use essential_node.Db.Listing.Range.{All, list_blocks-in_range}
use essential_node.Db.Subscribe.{subscribe_blocks, next_ix}
use essential_node.Db.Query.{block_set_rows, get_hash, get_solution_set}
use essential_node.Db.Subscribe.Order.{InOrder, subscribe_blocks-InOrder}
use essential_node.Samples.{block_at, row_engine-IsScan}
use essential_node.Prelude.{
  ◌≡◌, refl, true, Option, some, List, [], ◌∷◌, arith, pos, ◌≤ℤ◌, ◌<ℤ◌, ok, ℕ, ℤ, bytes_eq,
}

abbrev empty_set : SolutionSet
empty_set = record { solutions = [] }

abbrev row_at : ℕ → ℤ → BlockRow
row_at id n = record {
  id = id;
  block_address = id ∷ [];
  parent_block_id = 0;
  number = n;
  timestamp_secs = 10;
  timestamp_nanos = 500;
}

abbrev one_block_db : Database
one_block_db = record create_tables {
  block = row_at 1 (pos 0) ∷ [];
  solution_set = record { id = 1; content_addr = 4 ∷ [] } ∷ [];
  block_solution_set = record { block_id = 1; solution_set_id = 1; solution_set_index = 0 } ∷ [];
}

abbrev two_blocks_db : Database
two_blocks_db = record one_block_db {
  block = row_at 1 (pos 0) ∷ row_at 2 (pos 1) ∷ [];
  block_solution_set =
      record { block_id = 1; solution_set_id = 1; solution_set_index = 0 }
      ∷ record { block_id = 2; solution_set_id = 1; solution_set_index = 0 }
      ∷ [];
}

abbrev first_block : Block
first_block = block_at (pos 0) (empty_set ∷ [])

abbrev second_block : Block
second_block = block_at (pos 1) (empty_set ∷ [])

-- the second connection comes too early, the third after a notification
abbrev connections : List (Option Database)
connections = some one_block_db ∷ some one_block_db ∷ some two_blocks_db ∷ []

yields :
    subscribe_blocks row_engine big_endian (pos 0) connections (true ∷ [])
    ≡ ok first_block ∷ ok second_block ∷ []
unfolding subscribe_blocks next_ix block_set_rows get_hash get_solution_set bytes_eq
yields = refl

subscribe_blocks-InOrder_example :
    InOrder (pos 0) (subscribe_blocks row_engine big_endian (pos 0) connections (true ∷ []))
subscribe_blocks-InOrder_example =
    subscribe_blocks-InOrder row_engine row_engine-IsScan big_endian (pos 0) connections (true ∷ [])
      (omega arith, omega arith)

lists : list_blocks row_engine big_endian (pos 0) (pos 1) two_blocks_db ≡ ok (first_block ∷ [])
unfolding list_blocks block_set_rows get_hash get_solution_set bytes_eq
lists = refl

list_blocks-in_range_example :
    All (λ b. (pos 0 ≤ℤ b.header.number) × (b.header.number <ℤ pos 1)) (first_block ∷ [])
list_blocks-in_range_example =
    list_blocks-in_range row_engine row_engine-IsScan big_endian (pos 0) (pos 1) two_blocks_db lists
