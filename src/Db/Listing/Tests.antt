-- ===== src/Db/Listing/Tests.antt =====
-- A failed block, entered and listed, and two blocks listed.
use essential_node.Db.{BlockRow, SolutionSetRow, Database, create_tables, row_engine}
use essential_node.Db.Has.{Has}
use essential_node.Db.Statements.{find_block, find_set}
use essential_node.Db.Insert.{insert_failed_block}
use essential_node.Db.Listing.{
  in_range, is_unchecked, list_failed_blocks, list_blocks, list_unchecked_blocks,
}
use essential_node.Db.Listing.Failed.{list_failed_blocks-insert_failed_block}
use mathlib.Core.List.{Nodup-nil, Nodup-cons, mem-cons, not-mem-nil}
use mathlib.Core.Logic.Or
use essential_node.Convert.BigEndian.{big_endian}
use essential_node.Db.Distinct.{Distinct}
use essential_node.Db.Listing.OneByOne.{read_each, listed_rows, list_blocks-OneByOne}
use essential_node.Samples.{row_engine-IsScan, row_engine-IsPermutation}
use essential_node.Prelude.{◌≡◌, refl, true, some, [], ◌∷◌, pos, bytes_eq, ◌&&◌}

abbrev block_row : BlockRow
block_row = record {
  id = 1;
  block_address = 4 ∷ [];
  parent_block_id = 0;
  number = pos 3;
  timestamp_secs = 10;
  timestamp_nanos = 0;
}

abbrev set_row : SolutionSetRow
set_row = record { id = 1; content_addr = 8 ∷ [] }

abbrev one_block : Database
one_block = record create_tables { block = block_row ∷ []; solution_set = set_row ∷ [] }

block_found : find_block one_block (4 ∷ []) ≡ some block_row
unfolding find_block bytes_eq
block_found = refl

set_found : find_set one_block (8 ∷ []) ≡ some set_row
unfolding find_set bytes_eq
set_found = refl

inside : in_range row_engine (pos 0) (pos 9) block_row ≡ true
unfolding in_range
inside = refl

list_failed_blocks-insert_failed_block_example :
    Has
      (pos 3, 8 ∷ [])
      (list_failed_blocks row_engine
        (pos 0)
        (pos 9)
        (insert_failed_block (4 ∷ []) (8 ∷ []) one_block))
list_failed_blocks-insert_failed_block_example =
    list_failed_blocks-insert_failed_block row_engine row_engine-IsScan (4 ∷ []) (8 ∷ []) one_block
      (pos 0) (pos 9) block_found set_found inside

abbrev two_blocks : Database
two_blocks = record one_block {
  block = block_row ∷ record block_row { id = 2; block_address = 5 ∷ []; number = pos 4 } ∷ [];
  block_solution_set =
      record { block_id = 1; solution_set_id = 1; solution_set_index = 0 }
      ∷ record { block_id = 2; solution_set_id = 1; solution_set_index = 0 }
      ∷ [];
}

two_blocks-Distinct : Distinct two_blocks.block
two_blocks-Distinct = Nodup-cons.1 (
  λ there. Or.elim (λ x y. absurd x) (mem-cons.0 there) (λ same. cc) (λ more. not-mem-nil more),
  Nodup-cons.1 (λ there. not-mem-nil there, Nodup-nil),
)

list_blocks-OneByOne_example :
    (list_blocks row_engine big_endian (pos 3) (pos 5) two_blocks
      ≡ read_each row_engine big_endian two_blocks
          (listed_rows row_engine (in_range row_engine (pos 3) (pos 5)) two_blocks))
    × (list_unchecked_blocks row_engine big_endian (pos 3) (pos 5) two_blocks
        ≡ read_each row_engine big_endian two_blocks (
            listed_rows row_engine
              (λ b. in_range row_engine (pos 3) (pos 5) b && is_unchecked row_engine two_blocks b)
              two_blocks))
list_blocks-OneByOne_example =
    list_blocks-OneByOne row_engine big_endian two_blocks row_engine-IsPermutation
      two_blocks-Distinct (pos 3) (pos 5)
