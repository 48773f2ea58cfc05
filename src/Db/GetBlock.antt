-- ===== src/Db/GetBlock.antt =====
-- `get_block` of crates/node-db/src/lib.rs by the row of the block.
use essential_node.Types.{ContentAddress}
use essential_node.Convert.{Convert}
use essential_node.Db.{BlockRow, Database, Engine}
use essential_node.Db.Listing.{row_header}
use essential_node.Db.Statements.{find_block}
use essential_node.Db.Query.{get_block, get_block_header, fetch_sets, block_set_rows}
use essential_node.Prelude.{◌≡◌, refl, none, some, ok, ◌>>=◌}

module _ (e : Engine) (c : Convert) (x : ContentAddress) (db : Database) where
  pub get_block-at :
      {row : BlockRow}
      → find_block db x ≡ some row
      → get_block e c x db ≡ (
          fetch_sets e c db (block_set_rows e db row) >>= λ sets.
          ok (some (record { header = row_header row; solution_sets = sets })))
  unfolding get_block get_block_header
  get_block-at there = rw (there, get_block, get_block_header) (rw there refl)

  pub get_block-nowhere : find_block db x ≡ none → get_block e c x db ≡ ok none
  unfolding get_block get_block_header
  get_block-nowhere gone = rw (gone, get_block, get_block_header) refl
