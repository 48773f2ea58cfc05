-- ===== src/Node.antt =====
-- crates/node/src/lib.rs: `ensure_big_bang_block`, and `run`, which starts the streams.
pub mod Entered
pub mod Start
mod Tests
use essential_node.Types.{ContentAddress, Block}
use essential_node.Types.BigBang.{BigBang}
use essential_node.Types.BigBang
use essential_node.Types.Addr.{from_block}
use essential_node.Convert.{Convert}
use essential_node.Hashing.{Hashing}
use essential_node.Errors.{RusqliteError, QueryError}
use essential_node.Db.{Database, Engine}
use essential_node.Db.Insert
use essential_node.Db.Transaction.{with_tx}
use essential_node.Db.Pool.{ConnectionPool, AcquireThenError, acquire_then}
use essential_node.Db.Pool.Methods.{
  list_blocks, get_validation_progress, update_validation_progress,
}
use essential_node.Prelude.{
  Option, none, some, List, [], ◌∷◌, if◌then◌else◌, pos, Result, ok, err, ◌>>=◌, map_err, bytes_eq,
  Bool, true, false, Bytes,
}

-- `BigBangError` of crates/node/src/error.rs
pub data BigBangError : Type 0 where
  list_blocks_failed : AcquireThenError QueryError → BigBangError
  insert_block_failed : AcquireThenError RusqliteError → BigBangError
  unexpected_block : ContentAddress → ContentAddress → BigBangError

-- a step of the function: a result, and the pool after it
abbrev pub Step : Type 0 → Type 0
Step A = ConnectionPool → Result BigBangError A × ConnectionPool

abbrev pub then_step :
    {A B : Type 0}
    → Result BigBangError A × ConnectionPool
    → (A → Step B)
    → Result BigBangError B × ConnectionPool
then_step (ok a, pool) f = f a pool
then_step (err e, pool) f = (err e, pool)

module _ (c : Convert) (h : Hashing) (e : Engine) where
  -- the transaction that inserts the block and finalizes it
  unfoldable pub insert_and_finalize :
      Block → ContentAddress → Database → Result RusqliteError (Unit {0} × Database)
  insert_and_finalize block address db = do
    (inserted, db') ← Insert.insert_block c h block db
    db'' ← Insert.finalize_block address db'
    ok (tt, db'')

  -- by the first block that is listed at number 0
  unfoldable pub ensure_inserted : Block → ContentAddress → List Block → Step (Unit {0})
  ensure_inserted bb_block bb_ca [] pool =
      let out = acquire_then pool (with_tx (insert_and_finalize bb_block bb_ca)) in
      (map_err insert_block_failed out.0, out.1)
  ensure_inserted bb_block bb_ca (block ∷ blocks) pool =
      if bytes_eq (from_block h block) bb_ca
      then (ok tt, pool)
      else (err (unexpected_block bb_ca (from_block h block)), pool)

  unfoldable pub ensure_progress : ContentAddress → Option ContentAddress → Step (Unit {0})
  ensure_progress bb_ca none pool =
      let out = update_validation_progress bb_ca pool in (map_err insert_block_failed out.0, out.1)
  ensure_progress bb_ca (some progress) pool = (ok tt, pool)

  unfoldable pub ensure_big_bang_block : BigBang → Step ContentAddress
  ensure_big_bang_block big_bang pool =
      let bb_block = BigBang.block big_bang in
      let bb_ca = from_block h bb_block in
      let listed = list_blocks e c (pos 0) (pos 1) pool in
      then_step (map_err list_blocks_failed listed.0, listed.1)
        (λ blocks pool1. then_step (ensure_inserted bb_block bb_ca blocks pool1) (λ _ pool2.
          let progress = get_validation_progress pool2 in
          then_step (map_err list_blocks_failed progress.0, progress.1)
            (λ found pool3.
              then_step (ensure_progress bb_ca found pool3) (λ _ pool4. (ok bb_ca, pool4)))))

pub record RunConfig : Type 0 where
  pub relayer_source_endpoint : Option Bytes
  pub run_validation : Bool

-- The handle that `run` gives: that of each stream it starts. What starts a stream is a parameter; a
-- relayer that was started is dropped, and so shut down, where the validation does not start.
abbrev pub start_relayer :
    {E Relayer RelayerHandle : Type 0}
    → (Bytes → Result E Relayer)
    → (Relayer → Result E RelayerHandle)
    → Option Bytes
    → Result E (Option RelayerHandle)
start_relayer new_relayer run_relayer none = ok none
start_relayer new_relayer run_relayer (some endpoint) = do
  relayer ← new_relayer endpoint
  handle ← run_relayer relayer
  ok (some handle)

abbrev pub start_validation :
    {E ValidationHandle : Type 0}
    → (ContentAddress → ContentAddress → Result E ValidationHandle)
    → ContentAddress
    → ContentAddress
    → Bool
    → Result E (Option ValidationHandle)
start_validation validation_stream contract_registry program_registry false = ok none
start_validation validation_stream contract_registry program_registry true = do
  handle ← validation_stream contract_registry program_registry
  ok (some handle)

unfoldable pub run :
    {E Relayer RelayerHandle ValidationHandle : Type 0}
    → (Bytes → Result E Relayer)
    → (Relayer → Result E RelayerHandle)
    → (ContentAddress → ContentAddress → Result E ValidationHandle)
    → RunConfig
    → ContentAddress
    → ContentAddress
    → Result E (Option RelayerHandle × Option ValidationHandle)
run new_relayer run_relayer validation_stream conf contract_registry program_registry = do
  relayer ← start_relayer new_relayer run_relayer conf.relayer_source_endpoint
  validation ←
      start_validation validation_stream contract_registry program_registry conf.run_validation
  ok (relayer, validation)
