-- ===== src/Db/Listing.antt =====
-- The functions of crates/node-db/src/lib.rs that list blocks. `list_blocks`, `list_blocks_by_time`
-- and `list_unchecked_blocks` differ in the statement and share the loop over its rows.
pub mod Range
pub mod Failed
pub mod OneByOne
mod Tests
use essential_node.Types.{ContentAddress, Duration, Header, SolutionSet, Block}
use essential_node.Convert.{Convert}
use essential_node.Errors.{QueryError}
use essential_node.Db.{BlockRow, FailedRow, SolutionSetRow, Database, Engine}
use essential_node.Db.Sort.{sort}
use essential_node.Db.Query.{block_set_rows, get_hash, get_solution_set}
use essential_node.Prelude.{
  suc, ◌*◌, Bool, true, false, not, ◌&&◌, ◌||◌, Option, none, some, List, [], ◌∷◌, ◌++◌, map, ltb,
  leb, ◌==◌, if◌then◌else◌, take, drop, select, exists, flat, ℤ, pos, negsuc, ltb_ℤ, eq_ℤ, Result,
  ok, ◌>>=◌, bytes_eq, bytes_lt, set, ◌>>◌,
}

-- what the closure reads from a row; the address of the solution set is null where a block has none
pub record ListRow : Type 0 where
  pub block_address : ContentAddress
  pub header : Header
  pub content_addr : Option ContentAddress

abbrev pub row_header : BlockRow → Header
row_header b = record {
  number = b.number;
  timestamp = record { secs = b.timestamp_secs; nanos = b.timestamp_nanos };
}

-- `ORDER BY block.number ASC, block.block_address ASC`
abbrev pub block_before : BlockRow → BlockRow → Bool
block_before a b =
    if ltb_ℤ a.number b.number
    then true
    else eq_ℤ a.number b.number && bytes_lt a.block_address b.block_address

-- `blocks.last_mut()` and `solution_sets.push`
abbrev pub push_to_last : SolutionSet → List Block → List Block
push_to_last set [] = []
push_to_last set (b ∷ []) = record b { solution_sets = b.solution_sets ++ set ∷ [] } ∷ []
push_to_last set (b ∷ b' ∷ bs) = b ∷ push_to_last set (b' ∷ bs)

abbrev pub is_last : Option ContentAddress → ContentAddress → Bool
is_last none address = false
is_last (some last) address = bytes_eq last address

-- `blocks.push` of a block with no solution sets, where the row is not of the last block
abbrev pub open_block : Bool → Header → List Block → List Block
open_block true header blocks = blocks
open_block false header blocks = blocks ++ record { header = header; solution_sets = [] } ∷ []

module _ (e : Engine) where
  -- the rows of the blocks that pass a test, in the order of the statement
  unfoldable pub rows_where : (BlockRow → Bool) → Database → List ListRow
  rows_where test db =
      flat
        (λ (b : BlockRow).
          map
            (λ (ca : Option ContentAddress). record {
              block_address = b.block_address;
              header = row_header b;
              content_addr = ca;
            })
            (block_set_rows e db b))
        (sort block_before (e.scan BlockRow (select test db.block)))

  unfoldable pub in_range : ℤ → ℤ → BlockRow → Bool
  in_range start end b = not (ltb_ℤ b.number start) && ltb_ℤ b.number end

  -- the condition of list_blocks_by_time.sql
  unfoldable pub in_time_range : Duration → Duration → BlockRow → Bool
  in_time_range start end b =
      (leb start.secs b.timestamp_secs
        || ((b.timestamp_secs == start.secs) && leb start.nanos b.timestamp_nanos))
      && (ltb b.timestamp_secs end.secs
          || ((b.timestamp_secs == end.secs) && ltb b.timestamp_nanos end.nanos))

  unfoldable pub is_unchecked : Database → BlockRow → Bool
  is_unchecked db b = not (exists (λ f. f.block_id == b.id) db.failed_block)

  -- `LIMIT :page_size OFFSET :page_number * :page_size`, which counts rows; a negative limit is none,
  -- and a negative offset is zero
  unfoldable pub page : ℤ → ℤ → List ListRow → List ListRow
  page (pos size) (pos number) rows = take size (drop (number * size) rows)
  page (pos size) (negsuc number) rows = take size rows
  page (negsuc size) (pos number) rows = rows
  page (negsuc size) (negsuc number) rows = drop (suc number * suc size) rows

  -- list_failed_blocks.sql: the join of `failed_block` with `block` and `solution_set`
  abbrev pub failed_pairs : Database → List (BlockRow × SolutionSetRow)
  failed_pairs db =
      flat
        (λ (f : FailedRow).
          flat
            (λ (b : BlockRow).
              map (λ (s : SolutionSetRow). (b, s))
                (select (λ s. f.solution_set_id == s.id) db.solution_set))
            (select (λ b. f.block_id == b.id) db.block))
        (e.scan FailedRow db.failed_block)

  -- its `ORDER BY`
  abbrev pub failed_before : BlockRow × SolutionSetRow → BlockRow × SolutionSetRow → Bool
  failed_before (b, s) (b', s') =
      block_before b b'
      || (eq_ℤ b.number b'.number
          && (bytes_eq b.block_address b'.block_address && bytes_lt s.content_addr s'.content_addr))

  unfoldable pub list_failed_blocks : ℤ → ℤ → Database → List (ℤ × ContentAddress)
  unfolding in_range
  list_failed_blocks start end db =
      map (λ (p : BlockRow × SolutionSetRow). (p.0.number, p.1.content_addr))
        (sort failed_before
          (select (λ (p : BlockRow × SolutionSetRow). in_range start end p.0) (failed_pairs db)))

  module _ (c : Convert) where
    -- the loop over the rows, with `blocks` and `last_block_address`
    unfoldable pub collect_blocks :
        Database
        → List ListRow
        → List Block
        → Option ContentAddress
        → Result QueryError (List Block)
    collect_blocks db [] blocks last = ok blocks
    collect_blocks db (r ∷ rs) blocks last = do
      ca ← get_hash r.content_addr
      let opened = open_block (is_last last r.block_address) r.header blocks
      collect_blocks db rs (push_to_last (get_solution_set e c ca db) opened) (some r.block_address)

    unfoldable pub list_blocks : ℤ → ℤ → Database → Result QueryError (List Block)
    unfolding collect_blocks rows_where in_range
    list_blocks start end db = collect_blocks db (rows_where (in_range start end) db) [] none

    unfoldable pub list_blocks_by_time :
        Duration → Duration → ℤ → ℤ → Database → Result QueryError (List Block)
    unfolding collect_blocks rows_where in_time_range page
    list_blocks_by_time start end page_size page_number db =
        collect_blocks db (page page_size page_number (rows_where (in_time_range start end) db)) []
          none

    unfoldable pub list_unchecked_blocks : ℤ → ℤ → Database → Result QueryError (List Block)
    unfolding collect_blocks rows_where in_range is_unchecked
    list_unchecked_blocks start end db =
        collect_blocks db (rows_where (λ b. in_range start end b && is_unchecked db b) db) [] none
