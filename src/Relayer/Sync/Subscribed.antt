-- ===== src/Relayer/Sync/Subscribed.antt =====
-- The relayer of one node on the subscription to another node: crates/relayer/src/sync.rs over
-- `subscribe_blocks` of crates/node-db/src/lib.rs.
use essential_node.Types.{Block}
use essential_node.Types.Addr.{from_block}
use essential_node.Convert.{Convert}
use essential_node.Hashing.{Hashing}
use essential_node.Errors.{QueryError}
use essential_node.Db.{Database, Engine}
use essential_node.Db.Has.{IsScan}
use essential_node.Db.Subscribe.{subscribe_blocks}
use essential_node.Db.Subscribe.Order.{
  InOrder, no_items, an_error, a_block, subscribe_blocks-InOrder,
}
use essential_node.Relayer.Errors.{db_pool_rusqlite, InternalError, CriticalError, critical}
use essential_node.Relayer.Sync.{
  write_block, BlockProgress, Stream, Local, start_block, skip_last, check_block_fork, sync_block,
  sync_loop, sync_blocks,
}
use essential_node.Prelude.{
  ◌≡◌, refl, ◌⊎◌, inl, List, [], ◌∷◌, ℤ, Result, ok, err, subst, inr, Bool, Option, none, some,
  arith, pos, ◌<ℤ◌, eq_ℤ_iff, word_max, IsWord, inc, saturating_inc, Result-cases, Bool-cases,
  bytes_eq,
}

-- What the relayer decodes of a subscription, where an error of it arrives as `seen` tells.
abbrev pub received : (QueryError → InternalError) → List (Result QueryError Block) → Stream
received seen [] = []
received seen (err failure ∷ items) = err (seen failure) ∷ received seen items
received seen (ok block ∷ items) = ok block ∷ received seen items

-- a run of the relayer that met no block out of order
abbrev pub NoGap : (QueryError → InternalError) → Result InternalError (Unit {0}) → Type 0
NoGap seen (ok u) = Unit {0}
NoGap seen (err f) =
    ((failure : QueryError) × (f ≡ seen failure)) ⊎ ((x : CriticalError) × (f ≡ critical x))

saturating_inc-below : (n m : ℤ) → m ≡ n → n <ℤ word_max → saturating_inc m ≡ inc n
unfolding saturating_inc
saturating_inc-below n m same below = ground arith

module _ (c : Convert) (h : Hashing) (seen : QueryError → InternalError) where
  sync_block-NoGap :
      (n : ℤ) (b : Block) (l : Local) → b.header.number ≡ n → NoGap seen (sync_block c h n b l).0
  unfolding sync_block
  sync_block-NoGap n b l same =
      let here = (eq_ℤ_iff b.header.number n).1 same in
      elim (Result-cases (write_block c h b l.pool).0) [
        | inl (u, w) ↦ rw (sync_block, here, w) tt
        | inr (f, w) ↦ rw (sync_block, here, w) (inr (db_pool_rusqlite f, refl))
      ]

  sync_loop-NoGap :
      (n : ℤ) (items : List (Result QueryError Block)) (l : Local)
      → InOrder n items
      → NoGap seen (sync_loop c h n (received seen items) l).0
  unfolding sync_loop
  sync_loop-NoGap n [] l no_items = tt
  sync_loop-NoGap n (err failure ∷ items) l (an_error order) = inl (failure, refl)
  sync_loop-NoGap n (ok b ∷ items) l (a_block same below order) =
      let next : saturating_inc b.header.number ≡ inc n =
        saturating_inc-below n b.header.number same below in
      elim (Result-cases (sync_block c h n b l).0) [
        | inr (f, e) ↦ rw (sync_loop, e) (subst (NoGap seen) e (sync_block-NoGap n b l same))
        | inl (u, e) ↦
            rw (sync_loop, e, next) (sync_loop-NoGap (inc n) items (sync_block c h n b l).1 order)
      ]

  resumed_loop :
      (p : BlockProgress) (items : List (Result QueryError Block)) (l : Local)
      → InOrder p.last_block_number items
      → NoGap seen (sync_blocks c h (some p) (received seen items) l).0
  unfolding sync_blocks skip_last
  resumed_loop p [] l no_items = inr (_, refl)
  resumed_loop p (err failure ∷ items) l (an_error order) = inl (failure, refl)
  resumed_loop p (ok b ∷ items) l (a_block same below order) =
      let next = saturating_inc-below p.last_block_number p.last_block_number refl below in
      elim (Bool-cases (bytes_eq (from_block h b) p.last_block_address)) [
        | inl hit ↦
            rw (sync_blocks, skip_last, check_block_fork, hit, next)
              (sync_loop-NoGap (inc p.last_block_number) items l order)
        | inr miss ↦ rw (sync_blocks, skip_last, check_block_fork, miss) (inr (_, refl))
      ]

  -- A relayer that asks another node for the blocks from its progress on, or from block 0, never meets
  -- a block out of order: its run over what arrives ends well, or in an error that arrived, or in a
  -- critical error. This holds whatever the other node's databases show, the times at which it is
  -- notified, and the errors in between, provided that the number of the progress is an i64.
  pub sync_blocks-NoGap :
      (other : Engine) (law : IsScan other) (other_c : Convert) (conns : List (Option Database))
      (news : List Bool) (progress : Option BlockProgress) (l : Local)
      → IsWord (start_block progress)
      → NoGap seen
          (sync_blocks c h progress
            (received seen (subscribe_blocks other other_c (start_block progress) conns news))
            l).0
  unfolding sync_blocks start_block
  sync_blocks-NoGap other law other_c conns news none l word =
      sync_loop-NoGap (pos 0) _ l
        (subscribe_blocks-InOrder other law other_c (pos 0) conns news word)
  sync_blocks-NoGap other law other_c conns news (some p) l word =
      resumed_loop p _ l
        (subscribe_blocks-InOrder other law other_c p.last_block_number conns news word)
