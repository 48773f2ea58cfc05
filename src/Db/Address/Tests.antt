-- ===== src/Db/Address/Tests.antt =====
-- The queries at a block address, at a block whose parent is finalized.
use essential_node.Types.{ContentAddress, Key, Value}
use essential_node.Convert.BigEndian.{big_endian}
use essential_node.Db.{
  BlockRow, BlockSetRow, SolutionRow, MutationRow, Database, create_tables, row_engine,
}
use essential_node.Db.Has.{Has}
use essential_node.Db.Address.{
  chain_value, chain, chain_base, chain_next, query_state_inclusive_block,
  query_state_exclusive_block, query_state_inclusive_solution_set,
  query_state_exclusive_solution_set,
}
use essential_node.Db.Address.Ancestors.{ParentsFirst, Ended, address_queries-Ended}
use essential_node.Db.Address.Rows.{Writes, Alone}
use essential_node.Db.Address.Nothing.{NoWrites, address_queries-nothing}
use essential_node.Db.Address.Own.{AnswersWrite, NoneInReach, address_queries-Own}
use essential_node.Db.Finalized
use essential_node.Blob.{blob_from_words, words_from_blob}
use essential_node.Samples.{row_engine-IsScan}
use essential_node.Prelude.{
  ap, bytes_eq, ℕ, ◌<◌, inl, inr, none, some, ok, refl, ◌≡◌, ◌⊎◌, [], ◌∷◌, arith, ℤ, pos,
}

abbrev row_of : ℕ → ℕ → ℤ → ContentAddress → BlockRow
row_of id parent n address = record {
  id = id;
  block_address = address;
  parent_block_id = parent;
  number = n;
  timestamp_secs = 10;
  timestamp_nanos = 0;
}

abbrev two_blocks : Database
two_blocks = record create_tables {
  block = row_of 1 0 (pos 0) (7 ∷ []) ∷ row_of 2 1 (pos 1) (8 ∷ []) ∷ [];
  finalized_block = record { block_number = pos 0; block_id = 1 } ∷ [];
}

two_blocks-ParentsFirst : ParentsFirst two_blocks
two_blocks-ParentsFirst = record { parent_smaller = smaller }
  where
    smaller : (b : BlockRow) → Has b two_blocks.block → b.parent_block_id < b.id
    smaller b (inl e) = rw e (omega arith)
    smaller b (inr (inl e)) = rw e (omega arith)
    smaller b (inr (inr h)) = absurd h

abbrev some_key : Key
some_key = pos 3 ∷ []

address_queries-Ended_example :
    Ended
      (query_state_inclusive_block row_engine big_endian (5 ∷ []) some_key 2 (8 ∷ []) two_blocks)
    × Ended
        (query_state_exclusive_block row_engine big_endian (5 ∷ []) some_key 2 (8 ∷ []) two_blocks)
    × Ended (
        query_state_inclusive_solution_set row_engine big_endian
          (5 ∷ [])
          some_key
          2
          (8 ∷ [])
          1
          two_blocks)
    × Ended (
        query_state_exclusive_solution_set row_engine big_endian
          (5 ∷ [])
          some_key
          2
          (8 ∷ [])
          1
          two_blocks)
address_queries-Ended_example =
    address_queries-Ended row_engine row_engine-IsScan big_endian (5 ∷ []) some_key two_blocks 2
      (8 ∷ []) 1 two_blocks-ParentsFirst (omega arith, (omega arith, tt))

-- a finalized block whose second solution set writes the key
abbrev some_value : Value
some_value = pos 9 ∷ []

abbrev own_row : BlockRow
own_row = row_of 1 0 (pos 0) (8 ∷ [])

abbrev own_set : BlockSetRow
own_set = record { block_id = 1; solution_set_id = 1; solution_set_index = 1 }

abbrev own_solution : SolutionRow
own_solution = record {
  id = 1;
  solution_set_id = 1;
  solution_index = 0;
  contract_addr = 5 ∷ [];
  predicate_addr = 6 ∷ [];
}

abbrev own_mutation : MutationRow
own_mutation = record {
  solution_id = 1;
  mutation_index = 0;
  key = blob_from_words big_endian some_key;
  value = blob_from_words big_endian some_value;
}

abbrev own_block : Database
own_block = record create_tables {
  block = own_row ∷ [];
  block_solution_set = own_set ∷ [];
  solution = own_solution ∷ [];
  mutation = own_mutation ∷ [];
  finalized_block = record { block_number = pos 0; block_id = 1 } ∷ [];
}

own_block-Writes :
    Writes own_block (5 ∷ []) (blob_from_words big_endian some_key) own_row own_set own_mutation
own_block-Writes = (own_solution, inl refl, refl, inl refl, refl, refl, inl refl, refl, refl)

own_row-Alone : Alone own_block (8 ∷ []) own_row
own_row-Alone other h same = elim h [ inl here ↦ here | inr no_more ↦ absurd no_more ]

own_block-ParentsFirst : ParentsFirst own_block
own_block-ParentsFirst = record {
  parent_smaller = λ b h. elim h [ inl e ↦ rw e (omega arith) | inr no_more ↦ absurd no_more ];
}

-- the answer up to the first set is the write of the second one
later_write :
    query_state_inclusive_solution_set row_engine big_endian
      (5 ∷ [])
      some_key
      1
      (8 ∷ [])
      0
      own_block
    ≡ some (ok (some some_value))
unfolding query_state_inclusive_solution_set chain_value chain chain_base bytes_eq blob_from_words
    chain_next Finalized.query_state_inclusive_block Finalized.latest Finalized.writes
    words_from_blob
later_write = refl

address_queries-Own_example :
    AnswersWrite row_engine big_endian own_block
      (5 ∷ [])
      (blob_from_words big_endian some_key)
      none
      own_row
      (query_state_inclusive_block row_engine big_endian (5 ∷ []) some_key 1 (8 ∷ []) own_block)
    × (AnswersWrite row_engine big_endian own_block
          (5 ∷ [])
          (blob_from_words big_endian some_key)
          (some 0)
          own_row
          (query_state_inclusive_solution_set row_engine big_endian
            (5 ∷ [])
            some_key
            1
            (8 ∷ [])
            0
            own_block)
        ⊎ (NoneInReach row_engine
              (5 ∷ [])
              (blob_from_words big_endian some_key)
              own_block
              (some 0)
              own_row
            × (query_state_inclusive_solution_set row_engine big_endian
                  (5 ∷ [])
                  some_key
                  1
                  (8 ∷ [])
                  0
                  own_block
                ≡ some (
                    Finalized.query_state_inclusive_block row_engine big_endian
                      (5 ∷ [])
                      some_key
                      (pos 0)
                      own_block))))
address_queries-Own_example =
    address_queries-Own row_engine row_engine-IsScan big_endian (5 ∷ []) some_key own_block 1
      own_row own_set own_mutation 0 (omega arith) own_block-ParentsFirst (omega arith, tt)
      (inl refl) own_row-Alone own_block-Writes

-- a block that does not write the key, after one that does
abbrev silent_row : BlockRow
silent_row = row_of 2 1 (pos 1) (9 ∷ [])

abbrev silent_block : Database
silent_block = record own_block {
  block = own_row ∷ silent_row ∷ [];
  finalized_block =
      record { block_number = pos 0; block_id = 1 }
      ∷ record { block_number = pos 1; block_id = 2 }
      ∷ [];
}

silent_row-Alone : Alone silent_block (9 ∷ []) silent_row
silent_row-Alone other h same = elim h [
  | inl here ↦ absurd (ground (arith, same, ap (λ (b : BlockRow). b.block_address) here))
  | inr more ↦ elim more [ inl here ↦ here | inr no_more ↦ absurd no_more ]
]

silent_row-NoWrites :
    NoWrites silent_block (5 ∷ []) (blob_from_words big_endian some_key) silent_row
silent_row-NoWrites r m writes = elim writes.1 [
  | inl here ↦ omega (arith, writes.2, ap (λ (r : BlockSetRow). r.block_id) here)
  | inr no_more ↦ no_more
]

address_queries-nothing_example :
    (query_state_inclusive_block row_engine big_endian (5 ∷ []) some_key 1 (9 ∷ []) silent_block
      ≡ some (ok none))
    × (query_state_inclusive_solution_set row_engine big_endian
          (5 ∷ [])
          some_key
          1
          (9 ∷ [])
          0
          silent_block
        ≡ some (ok none))
address_queries-nothing_example =
    address_queries-nothing row_engine row_engine-IsScan big_endian (5 ∷ []) some_key silent_block 0
      silent_row (record { block_number = pos 1; block_id = 2 }) 0 (omega arith) silent_row-Alone
      (inr (inl refl)) refl silent_row-NoWrites
