-- ===== src/Relayer/Sync.antt =====
-- crates/relayer/src/sync.rs. The database, the number of notifications sent, and the items that the
-- stream yields are explicit.
pub mod Sequence
pub mod Finality
pub mod Subscribed
pub mod Resume
pub mod Tests
use essential_node.Types.{ContentAddress, Header, Block}
use essential_node.Types.Addr.{from_block}
use essential_node.Convert.{Convert}
use essential_node.Hashing.{Hashing}
use essential_node.Errors.{RusqliteError}
use essential_node.Db.{Database, Engine}
use essential_node.Db.Insert.{insert_block, finalize_block}
use essential_node.Db.Query.{get_latest_finalized_block_address, get_block_header}
use essential_node.Db.Transaction.{with_tx}
use essential_node.Db.Pool.{ConnectionPool, AcquireThenError, acquire_then}
use essential_node.Relayer.Errors.{
  InternalError, critical, recoverable, CriticalError, data_sync_failed, db_pool_rusqlite, Fork,
  non_sequential_block,
}
use essential_node.Prelude.{
  ℕ, suc, Option, none, some, List, [], ◌∷◌, if◌then◌else◌, ℤ, pos, eq_ℤ, saturating_inc, Result,
  ok, err, ◌>>=◌, ◌>>◌, map_err, bytes_eq,
}

pub record BlockProgress : Type 0 where
  pub last_block_number : ℤ
  pub last_block_address : ContentAddress

-- the database behind its pool, and how often `notify` was called
pub record Local : Type 0 where
  pub pool : ConnectionPool
  pub notified : ℕ

-- a stream as the list of its items
abbrev pub Stream : Type 0
Stream = List (Result InternalError Block)

module _ (e : Engine) where
  abbrev pub progress_of : Database → Option BlockProgress
  progress_of db = elim (get_latest_finalized_block_address e db) [
    | none ↦ none
    | some address ↦ elim (get_block_header address db) [
      | none ↦ none
      | some header ↦
          some (record { last_block_number = header.number; last_block_address = address })
    ]
  ]

  unfoldable pub get_block_progress :
      ConnectionPool
      → Result (AcquireThenError RusqliteError) (Option BlockProgress) × ConnectionPool
  unfolding acquire_then with_tx
  get_block_progress pool = acquire_then pool (with_tx (λ db. ok (progress_of db, db)))

module _ (c : Convert) (h : Hashing) where
  -- the transaction of `write_block`
  unfoldable pub write_block_tx : Block → Database → Result RusqliteError (Unit {0} × Database)
  write_block_tx block db = do
    let block_address = from_block h block
    (address, db') ← insert_block c h block db
    db'' ← finalize_block block_address db'
    ok (tt, db'')

  unfoldable pub write_block :
      Block → ConnectionPool → Result (AcquireThenError RusqliteError) (Unit {0}) × ConnectionPool
  unfolding acquire_then with_tx write_block_tx
  write_block block pool = acquire_then pool (with_tx (write_block_tx block))

  unfoldable pub check_block_fork : Option Block → BlockProgress → Result CriticalError (Unit {0})
  check_block_fork none progress = err (
      data_sync_failed (record {
        block_number = progress.last_block_number;
        progress_address = progress.last_block_address;
        block_address = none;
      }))
  check_block_fork (some block) progress =
      if bytes_eq (from_block h block) progress.last_block_address
      then ok tt
      else err (
          data_sync_failed (record {
            block_number = progress.last_block_number;
            progress_address = progress.last_block_address;
            block_address = some (from_block h block);
          }))

  -- what one block of `try_for_each` does, at the expected number. The future that reports an error
  -- has captured `block_number` after its increment.
  unfoldable pub sync_block : ℤ → Block → Local → Result InternalError (Unit {0}) × Local
  sync_block block_number block l =
      if eq_ℤ block.header.number block_number
      then (let out = write_block block l.pool in
          elim out.0 [
            | err f ↦ (err (critical (db_pool_rusqlite f)), record l { pool = out.1 })
            | ok u ↦ (ok tt, record { pool = out.1; notified = suc l.notified })
          ])
      else (
        err (
            recoverable
              (non_sequential_block (saturating_inc block.header.number) block.header.number)),
        l,
      )

  -- `try_for_each`
  unfoldable pub sync_loop : ℤ → Stream → Local → Result InternalError (Unit {0}) × Local
  sync_loop block_number [] l = (ok tt, l)
  sync_loop block_number (err f ∷ items) l = (err f, l)
  sync_loop block_number (ok block ∷ items) l =
      let (result, l') = sync_block block_number block l in
      elim result [
        | err f ↦ (err f, l')
        | ok u ↦ sync_loop (saturating_inc block.header.number) items l'
      ]

  -- `try_next`
  abbrev pub try_next : Stream → Result InternalError (Option Block × Stream)
  try_next [] = ok (none, [])
  try_next (err f ∷ items) = err f
  try_next (ok block ∷ items) = ok (some block, items)

  -- the check of the first block, which is skipped
  unfoldable pub skip_last : BlockProgress → Stream → Result InternalError Stream
  unfolding check_block_fork
  skip_last progress items = do
    (last, rest) ← try_next items
    map_err critical (check_block_fork last progress)
    ok rest

  unfoldable pub sync_blocks :
      Option BlockProgress → Stream → Local → Result InternalError (Unit {0}) × Local
  sync_blocks none items l = sync_loop (pos 0) items l
  sync_blocks (some progress) items l = elim (skip_last progress items) [
    | err f ↦ (err f, l)
    | ok rest ↦ sync_loop (saturating_inc progress.last_block_number) rest l
  ]

-- the block number that `stream_blocks` of sync/streams.rs asks the other node to start from
unfoldable pub start_block : Option BlockProgress → ℤ
start_block none = pos 0
start_block (some progress) = progress.last_block_number

-- `Relayer::run_blocks` of lib.rs. `stream_blocks` takes the start and gives the blocks that arrive up
-- to the shutdown signal.
unfoldable pub run_blocks :
    Convert
    → Hashing
    → Engine
    → (ℤ → Result InternalError Stream)
    → Local
    → Result InternalError (Unit {0}) × Local
unfolding get_block_progress start_block sync_blocks
run_blocks c h e stream_blocks l =
    let (found, pool) = get_block_progress e l.pool in
    elim found [
      | err f ↦ (err (critical (db_pool_rusqlite f)), record l { pool = pool })
      | ok progress ↦ elim (stream_blocks (start_block progress)) [
        | err f ↦ (err f, record l { pool = pool })
        | ok items ↦ sync_blocks c h progress items (record l { pool = pool })
      ]
    ]
