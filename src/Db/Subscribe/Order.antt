-- ===== src/Db/Subscribe/Order.antt =====
-- In which order `subscribe_blocks` yields blocks.
use essential_node.Types.{Block}
use essential_node.Convert.{Convert}
use essential_node.Errors.{QueryError}
use essential_node.Db.{Database, Engine}
use essential_node.Db.Has.{IsScan}
use essential_node.Db.Listing.{list_blocks}
use essential_node.Db.Listing.Range.{All, list_blocks-in_range}
use essential_node.Db.Subscribe.{next_ix, pop_block, list_blocks_by_conn, subscribe_blocks}
use essential_node.Prelude.{
  ◌≡◌, subst, inl, inr, Bool, Option, none, some, List, [], ◌∷◌, Option-cases, ℤ, ◌≤ℤ◌, ◌<ℤ◌,
  IsWord, inc, Result, ok, err, Result-cases, some-eq-some, true, false, arith, Bool-cases, eq_ℤ,
  word_max,
}

-- the blocks among the items have consecutive numbers, from the given one on
pub data InOrder : ℤ → List (Result QueryError Block) → Type 0 where
  no_items : {n : ℤ} → InOrder n []
  an_error :
      {n : ℤ} {failure : QueryError} {items : List (Result QueryError Block)}
      → InOrder n items
      → InOrder n (err failure ∷ items)
  a_block :
      {n : ℤ} {block : Block} {items : List (Result QueryError Block)}
      → block.header.number ≡ n
      → n <ℤ word_max
      → InOrder (inc n) items
      → InOrder n (ok block ∷ items)

pop_block-All :
    (P : Block → Type 0) (blocks : List Block) {block : Block}
    → All P blocks
    → pop_block blocks ≡ some block
    → P block
pop_block-All P [] h e = absurd cc
pop_block-All P (b ∷ []) h e = subst P (some-eq-some e) h.0
pop_block-All P (b ∷ b' ∷ bs) h e = pop_block-All P (b' ∷ bs) h.1 e

-- the range of one number holds that number only, and none of them where the next one wraps
next_ix-in_range :
    (n m : ℤ) → IsWord n → n ≤ℤ m → m <ℤ next_ix n → (m ≡ n) × (next_ix n ≡ inc n) × (n <ℤ word_max)
unfolding next_ix
next_ix-in_range n m word low high = elim (Bool-cases (eq_ℤ n word_max)) [
  | inl last ↦ absurd (ground (arith, last))
  | inr more ↦ (ground (arith, more), ground (arith, more), ground (arith, more))
]

inc-IsWord : (n : ℤ) → IsWord n → n <ℤ word_max → IsWord (inc n)
inc-IsWord n word below = (ground arith, ground arith)

module _ (e : Engine) (law : IsScan e) (c : Convert) where
  -- From a start that is an i64, the blocks that a subscription yields have consecutive numbers, and
  -- the first of them has the start's, whatever the databases its connections show, the times at which
  -- it is notified, and the errors in between.
  pub subscribe_blocks-InOrder :
      (n : ℤ) (conns : List (Option Database)) (news : List Bool)
      → IsWord n
      → InOrder n (subscribe_blocks e c n conns news)
  unfolding subscribe_blocks list_blocks_by_conn
  subscribe_blocks-InOrder n [] news word = no_items
  subscribe_blocks-InOrder n (none ∷ conns) news word = no_items
  subscribe_blocks-InOrder n (some db ∷ conns) news word =
      elim (Result-cases (list_blocks e c n (next_ix n) db)) [
        | inr (failure, failed) ↦
            rw (subscribe_blocks, list_blocks_by_conn, failed)
              (an_error (subscribe_blocks-InOrder n conns news word))
        | inl (blocks, listed) ↦ elim (Option-cases (pop_block blocks)) [
          | inr (block, popped) ↦
              let (low, high) =
                pop_block-All _ blocks (list_blocks-in_range e law c n (next_ix n) db listed)
                  popped in
              let (same, next, below) = next_ix-in_range n block.header.number word low high in
              rw (subscribe_blocks, list_blocks_by_conn, listed, popped, next)
                (a_block same below
                  (subscribe_blocks-InOrder (inc n) conns news (inc-IsWord n word below)))
          | inl empty ↦ elim news as (λ k. InOrder n (subscribe_blocks e c n (some db ∷ conns) k)) [
            | [] ↦ rw (subscribe_blocks, list_blocks_by_conn, listed, empty) no_items
            | false ∷ more ↦ rw (subscribe_blocks, list_blocks_by_conn, listed, empty) no_items
            | true ∷ more ↦
                rw (subscribe_blocks, list_blocks_by_conn, listed, empty)
                  (subscribe_blocks-InOrder n conns more word)
          ]
        ]
      ]
