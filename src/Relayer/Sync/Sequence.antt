-- ===== src/Relayer/Sync/Sequence.antt =====
-- What a run of the block stream leaves behind.
use essential_node.Types.{Block}
use essential_node.Convert.{Convert}
use essential_node.Hashing.{Hashing}
use essential_node.Db.Transaction.{with_tx, with_tx-err}
use essential_node.Db.Pool.{acquire_then-err, ConnectionPool, AcquireThenError}
use essential_node.Errors.{RusqliteError}
use essential_node.Relayer.Errors.{
  db_pool_rusqlite, critical, non_sequential_block, recoverable, InternalError,
}
use essential_node.Relayer.Sync.{
  check_block_fork, from_block, skip_last, BlockProgress, sync_blocks, Stream, Local, write_block,
  write_block_tx, sync_block, sync_loop,
}
use essential_node.Prelude.{
  ◌+◌, ◌≡◌, refl, List, [], ◌∷◌, ◌++◌, map, arith, length, ℤ, saturating_inc, Result, ok, err, suc,
  sym, ap, subst, ◌⊎◌, inl, inr, Bool-cases, eq_ℤ, eq_ℤ_iff, Result-cases, Option, none, some, pos,
  bytes_eq_iff,
}

-- blocks whose numbers go up by one from the given number
abbrev pub Consecutive : ℤ → List Block → Type 0
Consecutive n [] = Unit {0}
Consecutive n (b ∷ bs) = (b.header.number ≡ n) × Consecutive (saturating_inc b.header.number) bs

module _ (c : Convert) (h : Hashing) where
  -- each block in its turn is written, and the last pool is the one left
  abbrev pub Written : ConnectionPool → List Block → ConnectionPool → Type 0
  Written pool [] pool' = pool' ≡ pool
  Written pool (b ∷ bs) pool' =
      ((write_block c h b pool).0 ≡ ok tt) × Written (write_block c h b pool).1 bs pool'

  -- the blocks at the front of the stream that were written, and a notification for each
  abbrev pub Synced : ℤ → Stream → Local → Result InternalError (Unit {0}) × Local → Type 0
  Synced n items l (result, l') =
      (blocks : List Block) × (rest : Stream) × (items ≡ map ok blocks ++ rest)
      × Consecutive n blocks
      × Written l.pool blocks l'.pool
      × (l'.notified ≡ l.notified + length blocks)
      × (result ≡ ok tt → rest ≡ [])

  -- a write that fails leaves the pool as it was
  write_block-err :
      (b : Block) (pool : ConnectionPool) {f : AcquireThenError RusqliteError}
      → (write_block c h b pool).0 ≡ err f
      → (write_block c h b pool).1 ≡ pool
  unfolding write_block
  write_block-err b pool e =
      acquire_then-err pool (with_tx (write_block_tx c h b))
        (λ db f. with_tx-err (write_block_tx c h b) db) e

  sync_block-cases :
      (n : ℤ) (b : Block) (l : Local)
      → ((b.header.number ≡ n)
          × ((write_block c h b l.pool).0 ≡ ok tt)
          × (sync_block c h n b l
              ≡ (ok tt, record { pool = (write_block c h b l.pool).1; notified = suc l.notified })))
        ⊎ ((f : InternalError) × (sync_block c h n b l ≡ (err f, l)))
  unfolding sync_block
  sync_block-cases n b l = elim (Bool-cases (eq_ℤ b.header.number n)) [
    | inr other ↦ inr (
      recoverable (non_sequential_block (saturating_inc b.header.number) b.header.number),
      rw other,
    )
    | inl same ↦ elim (Result-cases (write_block c h b l.pool).0) [
      | inl (u, w) ↦ inl ((eq_ℤ_iff _ _).0 same, w, rw (same, w))
      | inr (f, w) ↦
          inr (critical (db_pool_rusqlite f), rw (same, w) (rw (write_block-err b l.pool w)))
    ]
  ]

  sync_loop-Synced :
      (n : ℤ) (items : Stream) (l : Local) → Synced n items l (sync_loop c h n items l)
  unfolding sync_loop
  sync_loop-Synced n [] l = ([], [], refl, tt, refl, omega arith, λ _. refl)
  sync_loop-Synced n (err f ∷ items) l = ([], err f ∷ items, refl, tt, refl, omega arith, λ e. cc)
  sync_loop-Synced n (ok b ∷ items) l = elim (sync_block-cases n b l) [
    | inr (f, e) ↦
        subst (Synced n (ok b ∷ items) l) (sym (stops f e))
          ([], ok b ∷ items, refl, tt, refl, omega arith, λ o. cc)
    | inl (same, w, e) ↦
        let (blocks, rest, split, seq, written, notes, done) =
          sync_loop-Synced (saturating_inc b.header.number) items
            (record { pool = (write_block c h b l.pool).1; notified = suc l.notified }) in
        subst (Synced n (ok b ∷ items) l) (sym (goes_on e)) (
          b ∷ blocks,
          rest,
          ap (◌∷◌ (ok b)) split,
          (same, seq),
          (w, written),
          omega (arith, notes),
          done,
        )
  ]
    where
      stops :
          (f : InternalError)
          → sync_block c h n b l ≡ (err f, l)
          → sync_loop c h n (ok b ∷ items) l ≡ (err f, l)
      stops f e = rw (e, sync_loop) (rw e)

      goes_on :
          {l' : Local}
          → sync_block c h n b l ≡ (ok tt, l')
          → sync_loop c h n (ok b ∷ items) l
            ≡ sync_loop c h (saturating_inc b.header.number) items l'
      goes_on e = rw (e, sync_loop) (rw e)

  -- the first item of the stream is the block of the progress
  abbrev pub Resumes : BlockProgress → Stream → Type 0
  Resumes p items =
      (first : Block) × (rest : Stream) × (items ≡ ok first ∷ rest)
      × (from_block h first ≡ p.last_block_address)

  abbrev pub SyncsFrom :
      Option BlockProgress → Stream → Local → Result InternalError (Unit {0}) × Local → Type 0
  SyncsFrom none items l out = Synced (pos 0) items l out
  SyncsFrom (some p) items l out =
      ((¬ Resumes p items) × (f : InternalError) × (out ≡ (err f, l)))
      ⊎ ((first : Block) × (rest : Stream) × (items ≡ ok first ∷ rest)
          × (from_block h first ≡ p.last_block_address)
          × Synced (saturating_inc p.last_block_number) rest l out)

  resumed :
      (p : BlockProgress) (items : Stream) (l : Local) {f : InternalError}
      → skip_last c h p items ≡ err f
      → ¬ Resumes p items
  unfolding skip_last check_block_fork
  resumed p items l {f} e (first, rest, shape, same) =
      let e' = subst (λ s. skip_last c h p s ≡ err f) shape e in
      ground (arith, e', bytes_eq_iff (from_block h first) p.last_block_address)

  skip_last-ok :
      (p : BlockProgress) (items : Stream) {rest : Stream}
      → skip_last c h p items ≡ ok rest
      → (first : Block) × (items ≡ ok first ∷ rest) × (from_block h first ≡ p.last_block_address)
  unfolding skip_last check_block_fork
  skip_last-ok p [] e = cc
  skip_last-ok p (err f ∷ items) e = cc
  skip_last-ok p (ok first ∷ items) e = (
    first,
    ground (arith, bytes_eq_iff (from_block h first) p.last_block_address),
    ground (arith, bytes_eq_iff (from_block h first) p.last_block_address),
  )

  -- A run with no progress takes the stream from block 0 on, and a run with progress one that begins
  -- with the block of the progress, which it skips; with any other stream it ends in an error and
  -- nothing is written. Of the blocks taken those at the front of the stream are written, one after
  -- the other, with numbers that go up by one, and each is notified; a run that ends well has written
  -- all of them.
  pub sync_blocks-SyncsFrom :
      (progress : Option BlockProgress) (items : Stream) (l : Local)
      → SyncsFrom progress items l (sync_blocks c h progress items l)
  unfolding sync_blocks
  sync_blocks-SyncsFrom none items l = sync_loop-Synced (pos 0) items l
  sync_blocks-SyncsFrom (some p) items l = elim (Result-cases (skip_last c h p items)) [
    | inr (f, e) ↦ inl (resumed p items l e, f, rw (e, sync_blocks))
    | inl (rest, e) ↦
        let (first, shape, same) = skip_last-ok p items e in
        inr (
          first,
          rest,
          shape,
          same,
          subst (Synced (saturating_inc p.last_block_number) rest l) (sym (rw (e, sync_blocks)))
              (sync_loop-Synced (saturating_inc p.last_block_number) rest l),
        )
  ]
