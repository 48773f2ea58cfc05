-- ===== src/Db/Subscribe.antt =====
-- `subscribe_blocks` of crates/node-db/src/lib.rs. A connection shows the database of its time, so
-- what the successive calls of `acquire_connection` give is a list of databases, and what those of
-- `await_new_block` give is a list of `Some` (true) and `None` (false). The stream is the list of its
-- items up to where it ends or waits for a call that these lists do not hold.
pub mod Order
mod Tests
use essential_node.Types.{Block}
use essential_node.Convert.{Convert}
use essential_node.Errors.{QueryError}
use essential_node.Db.{Database, Engine}
use essential_node.Db.Listing.{list_blocks}
use essential_node.Prelude.{
  Bool, true, false, Option, none, some, List, [], ◌∷◌, if◌then◌else◌, ℤ, eq_ℤ, word_max, word_min,
  inc, Result, ok, err,
}

-- `block_ix + 1` as a release build computes it; a debug build panics where it wraps
unfoldable pub next_ix : ℤ → ℤ
next_ix block_ix = if eq_ℤ block_ix word_max then word_min else inc block_ix

-- `vec.pop()`
abbrev pub pop_block : List Block → Option Block
pop_block [] = none
pop_block (b ∷ []) = some b
pop_block (b ∷ b' ∷ bs) = pop_block (b' ∷ bs)

module _ (e : Engine) (c : Convert) where
  -- `list_blocks_by_conn`: the transaction is dropped
  unfoldable pub list_blocks_by_conn : ℤ → ℤ → Database → Result QueryError (List Block)
  unfolding list_blocks
  list_blocks_by_conn start end db = list_blocks e c start end db

  unfoldable pub subscribe_blocks :
      ℤ → List (Option Database) → List Bool → List (Result QueryError Block)
  unfolding list_blocks_by_conn
  subscribe_blocks block_ix [] news = []
  subscribe_blocks block_ix (none ∷ conns) news = []
  subscribe_blocks block_ix (some db ∷ conns) news =
      elim (list_blocks_by_conn block_ix (next_ix block_ix) db) [
        | err failure ↦ err failure ∷ subscribe_blocks block_ix conns news
        | ok blocks ↦ elim (pop_block blocks) [
          | some block ↦ ok block ∷ subscribe_blocks (next_ix block_ix) conns news
          | none ↦ elim news [
            | [] ↦ []
            | false ∷ more ↦ []
            | true ∷ more ↦ subscribe_blocks block_ix conns more
          ]
        ]
      ]
