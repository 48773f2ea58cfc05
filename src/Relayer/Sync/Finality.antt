-- ===== src/Relayer/Sync/Finality.antt =====
-- The finalized blocks through a run of the block stream.
use essential_node.Types.{Block}
use essential_node.Convert.{Convert}
use essential_node.Hashing.{Hashing}
use essential_node.Db.{Database}
use essential_node.Db.Insert.{insert_block, finalize_block}
use essential_node.Db.Blocks.{finalized-insert_block}
use essential_node.Db.Finality.{OnePerNumber, finalize_block-OnePerNumber}
use essential_node.Db.Transaction.{with_tx}
use essential_node.Db.Pool.{ConnectionPool, acquire_then-keeps}
use essential_node.Relayer.Errors.{InternalError}
use essential_node.Relayer.Sync.{
  BlockProgress, Local, Stream, write_block, write_block_tx, sync_blocks, from_block,
}
use essential_node.Relayer.Sync.Sequence.{Written, SyncsFrom, sync_blocks-SyncsFrom}
use essential_node.Prelude.{
  ◌≡◌, sym, ap, subst, inl, inr, Option, none, some, List, [], ◌∷◌, Result, ok, Result-cases,
  >>=-eq-ok, ok-eq-ok,
}

module _ (c : Convert) (h : Hashing) where
  abbrev pub Sound : ConnectionPool → Type 0
  Sound pool = OnePerNumber pool.database.finalized_block

  write_block_tx-OnePerNumber :
      (b : Block) (db : Database) {db' : Database}
      → OnePerNumber db.finalized_block
      → write_block_tx c h b db ≡ ok (tt, db')
      → OnePerNumber db'.finalized_block
  unfolding write_block_tx
  write_block_tx-OnePerNumber b db one e =
      let ((a, db1), inserted, e1) = >>=-eq-ok (insert_block c h b db) _ e in
      let (db2, final, e2) = >>=-eq-ok (finalize_block (from_block h b) db1) _ e1 in
      let here =
        finalize_block-OnePerNumber (from_block h b) db1
          (subst OnePerNumber (sym (finalized-insert_block c h b db inserted)) one) final in
      subst (λ d. OnePerNumber d.finalized_block) (ap (λ p. p.1) (ok-eq-ok e2)) here.0

  with_tx-OnePerNumber :
      (b : Block) (db : Database)
      → OnePerNumber db.finalized_block
      → OnePerNumber (with_tx (write_block_tx c h b) db).1.finalized_block
  unfolding with_tx
  with_tx-OnePerNumber b db one = elim (Result-cases (write_block_tx c h b db)) [
    | inl ((u, db'), e) ↦ rw (e, with_tx) (write_block_tx-OnePerNumber b db one e)
    | inr (f, e) ↦ rw (e, with_tx) one
  ]

  write_block-Sound :
      (b : Block) (pool : ConnectionPool) → Sound pool → Sound (write_block c h b pool).1
  unfolding write_block
  write_block-Sound b pool one =
      acquire_then-keeps (λ db. OnePerNumber db.finalized_block) pool
        (with_tx (write_block_tx c h b)) one (with_tx-OnePerNumber b)

  Written-Sound :
      (blocks : List Block) (pool pool' : ConnectionPool)
      → Sound pool
      → Written c h pool blocks pool'
      → Sound pool'
  Written-Sound [] pool pool' one same = subst Sound (sym same) one
  Written-Sound (b ∷ bs) pool pool' one (w, rest) =
      Written-Sound bs (write_block c h b pool).1 pool' (write_block-Sound b pool one) rest

  -- Where the database has one finalized block for each number and one number for each block, it has
  -- so after every run of the block stream, however the run ends.
  pub sync_blocks-Sound :
      (progress : Option BlockProgress) (items : Stream) (l : Local)
      → Sound l.pool
      → Sound (sync_blocks c h progress items l).1.pool
  sync_blocks-Sound progress items l one =
      from_run progress (sync_blocks c h progress items l)
        (sync_blocks-SyncsFrom c h progress items l)
    where
      from_run :
          (p : Option BlockProgress) (out : Result InternalError (Unit {0}) × Local)
          → SyncsFrom c h p items l out
          → Sound out.1.pool
      from_run none out (blocks, rest, split, seq, written, notes, done) =
          Written-Sound blocks l.pool out.1.pool one written
      from_run (some p) out (inl (not_resumed, f, same)) =
          subst (λ o. Sound o.1.pool) (sym same) one
      from_run (some p) out (inr (first, rest, shape, same, synced)) =
          let (blocks, rest', split, seq, written, notes, done) = synced in
          Written-Sound blocks l.pool out.1.pool one written
