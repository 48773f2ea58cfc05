-- ===== src/Db/Address/Own.antt =====
-- What a query at a block address returns where the block itself sets the key.
use mathlib.Core.Option
use essential_node.Types.{ContentAddress, Key, Value}
use essential_node.Errors.{QueryError}
use essential_node.Convert.{Convert}
use essential_node.Blob.{blob_from_words, words_from_blob}
use essential_node.Db.{◌≡◌, ℕ, Bytes, BlockRow, BlockSetRow, MutationRow, Database, Engine}
use essential_node.Db.Has.{Has, IsScan, Has-select, Has-flat, Has-map, map-Has, flat-Has}
use essential_node.Db.Listing.Range.{All}
use essential_node.Db.Finalized.Latest.{IsOrder, sort-First}
use essential_node.Db.Address.Ancestors.{ParentsFirst}
use essential_node.Db.Address.{
  in_reach, set_values, block_values, greater_index, query_state_inclusive_solution_set,
  value_or_finalized, true, some, value_in_block, chain_value, query_state_inclusive_block,
}
use essential_node.Prelude.{
  ℕ, ◌≤◌, ◌<◌, ◌≡◌, refl, sym, ap, subst, ◌∙◌, ◌⊎◌, inl, inr, true, Option, none, some, arith,
  Result, ok, Bytes, ◌≢◌, lt→ltb,
}
use essential_node.Db.Insert.{to_sql, sql_integer_limit}
use essential_node.Db.Finalized
use essential_node.Db.Address.Rows.{
  Writes, Alone, block_sets-Has, set_solutions-Has, key_mutations-Has, chain_value-own,
}
use essential_node.Prelude.{◌≢◌, lt→ltb}

module _ (e : Engine) (ca : ContentAddress) (key : Bytes) (db : Database) where
  -- no write in reach has a greater index than this one
  abbrev pub Greatest : Option ℕ → BlockRow → BlockSetRow → Type 0
  Greatest reach b r =
      (r' : BlockSetRow) (m' : MutationRow)
      → Writes db ca key b r' m'
      → in_reach e ca key db reach r' ≡ true
      → r'.solution_set_index ≤ r.solution_set_index

  -- no write of the block is in reach
  abbrev pub NoneInReach : Option ℕ → BlockRow → Type 0
  NoneInReach reach b =
      (r : BlockSetRow) (m : MutationRow)
      → Writes db ca key b r m
      → in_reach e ca key db reach r ≢ true

module _ (e : Engine) (law : IsScan e) (ca : ContentAddress) (key : Bytes) (db : Database) where
  -- the values of the block are those of the writes in reach
  block_values-Has :
      (reach : Option ℕ) (b : BlockRow) (p : BlockSetRow × Bytes)
      → Has p (block_values e ca key db reach b.id)
      → (m : MutationRow) × Writes db ca key b p.0 m
        × (in_reach e ca key db reach p.0 ≡ true)
        × (p.1 ≡ m.value)
  block_values-Has reach b p h =
      let (r, at, in_set) = flat-Has (set_values e ca key db) _ p h in
      let (in_sets, passes) = (Has-select (in_reach e ca key db reach) _ r).0 at in
      let (in_block, of_block) = (block_sets-Has e law ca key db b.id r).0 in_sets in
      let (s, in_solutions, in_solution) = flat-Has _ _ p in_set in
      let (solves, of_set, at_contract) =
        (set_solutions-Has e law ca key db r.solution_set_id s).0 in_solutions in
      let (m, in_mutations, same) = map-Has (λ (m : MutationRow). (r, m.value)) _ p in_solution in
      let (mutates, by, keyed) = (key_mutations-Has e law ca key db s m).0 in_mutations in
      let at_r : p.0 ≡ r = ap (λ p. p.0) same in
      let writes : Writes db ca key b r m =
        (s, in_block, of_block, solves, of_set, at_contract, mutates, by, keyed) in
      (m, subst (λ r. Writes db ca key b r m) (sym at_r) writes, rw at_r passes, ap (λ p. p.1) same)

  Has-block_values :
      (reach : Option ℕ) (b : BlockRow) (r : BlockSetRow) (m : MutationRow)
      → Writes db ca key b r m
      → in_reach e ca key db reach r ≡ true
      → Has (r, m.value) (block_values e ca key db reach b.id)
  Has-block_values reach b r m (s, in_block, of_block, solves, in_set, at, mutates, by, keyed)
        passes =
      Has-flat (set_values e ca key db) _ r _
        ((Has-select (in_reach e ca key db reach) _ r).1
          ((block_sets-Has e law ca key db b.id r).1 (in_block, of_block), passes))
        (Has-flat _ _ s _
          ((set_solutions-Has e law ca key db r.solution_set_id s).1 (solves, in_set, at))
          (Has-map (λ (m : MutationRow). (r, m.value)) _ m
            ((key_mutations-Has e law ca key db s m).1 (mutates, by, keyed))))

  greater_index-IsOrder : IsOrder (greater_index e ca key db)
  greater_index-IsOrder = record {
    irreflexive = λ x. ground arith;
    asymmetric = λ x y h. ground arith;
    tied = λ x y z h k. ground arith;
  }

  value_in_block-Cases :
      (reach : Option ℕ) (b : BlockRow)
      → ((r : BlockSetRow) × (m : MutationRow) × Writes db ca key b r m
          × (in_reach e ca key db reach r ≡ true)
          × Greatest e ca key db reach b r
          × (value_in_block e ca key db reach b.id ≡ some m.value))
        ⊎ (NoneInReach e ca key db reach b × (value_in_block e ca key db reach b.id ≡ none))
  unfolding value_in_block
  value_in_block-Cases reach b =
      elim (sort-First (greater_index e ca key db) greater_index-IsOrder
        (block_values e ca key db reach b.id)) [
          | inl (sorted, empty) ↦ inr (
            λ r m writes passes.
                subst (Has (r, m.value)) empty (Has-block_values reach b r m writes passes),
            rw sorted refl,
          )
          | inr (p, rest, sorted, (here, before)) ↦
              let (m, writes, passes, same) = block_values-Has reach b p here in
              inl (
                p.0,
                m,
                writes,
                passes,
                λ r' m' writes' passes'.
                    let late =
                      before (r', m'.value) (Has-block_values reach b r' m' writes' passes') in
                    ground (arith, late),
                rw sorted (ap some same),
              )
        ]

-- the answer is the value of the write in reach whose set has the greatest index
abbrev pub AnswersWrite :
    Engine
    → Convert
    → Database
    → ContentAddress
    → Bytes
    → Option ℕ
    → BlockRow
    → Option (Result QueryError (Option Value))
    → Type 0
AnswersWrite e c db ca key reach b answer =
    (r : BlockSetRow) × (m : MutationRow) × Writes db ca key b r m
    × (in_reach e ca key db reach r ≡ true)
    × Greatest e ca key db reach b r
    × (answer ≡ some (ok (some (words_from_blob c m.value))))

-- Where a block itself writes the key at the contract, the query at its address, inclusive of the
-- block, returns the value of that write of the block whose solution set has the greatest index. The
-- query up to a solution set returns the value of such a write among those up to the set's index;
-- where all writes of the block come after that set, it returns what the query of the finalized
-- state finds up to and including the number of the block, and asks no ancestor of the block. The
-- address must be that of one block only, the parent of a block must have a smaller id than the
-- block, a scan must yield just the rows that are there, the index must be below 2^63, and the fuel
-- must be at least the greatest id of a block.
pub address_queries-Own :
    (e : Engine) (law : IsScan e) (c : Convert) (ca : ContentAddress) (key : Key) (db : Database)
    (fuel : ℕ) (b : BlockRow) (r : BlockSetRow) (m : MutationRow) (ix : ℕ)
    → ix < sql_integer_limit
    → ParentsFirst db
    → All (λ (b : BlockRow). b.id ≤ fuel) db.block
    → Has b db.block
    → Alone db b.block_address b
    → Writes db ca (blob_from_words c key) b r m
    → let blob = blob_from_words c key in
      let up_to_set = query_state_inclusive_solution_set e c ca key fuel b.block_address ix db in
      AnswersWrite e c db ca blob none b
        (query_state_inclusive_block e c ca key fuel b.block_address db)
      × (AnswersWrite e c db ca blob (some ix) b up_to_set
          ⊎ (NoneInReach e ca blob db (some ix) b
              × (up_to_set ≡ some (Finalized.query_state_inclusive_block e c ca key b.number db))))
unfolding query_state_inclusive_block query_state_inclusive_solution_set to_sql value_or_finalized
address_queries-Own e law c ca key db fuel b r m ix small first enough there alone writes =
    let blob = blob_from_words c key in
    let row : (reach : Option ℕ) (v : Option Bytes)
        → value_in_block e ca blob db reach b.id ≡ v
        → chain_value e ca blob db fuel reach b.block_address ≡ some (some (v, b.number)) =
      λ reach v value.
        chain_value-own e law ca blob db fuel reach b.block_address b r m first enough there refl
          alone writes
        ∙ ap (λ v. some (some (v, b.number))) value in
    let answer = Option.map (λ row. value_or_finalized e c ca key row db) in
    (
      elim (value_in_block-Cases e law ca blob db none b) [
        | inl (r', m', writes', passes, greatest, value) ↦
            (r', m', writes', passes, greatest, ap answer (row none _ value))
        | inr (none_there, value) ↦ absurd (none_there r m writes refl)
      ],
      elim (value_in_block-Cases e law ca blob db (some ix) b) [
        | inl (r', m', writes', passes, greatest, value) ↦ inl (
          r',
          m',
          writes',
          passes,
          greatest,
          rw (query_state_inclusive_solution_set, lt→ltb ix sql_integer_limit small)
              (ap answer (row (some ix) _ value)),
        )
        | inr (none_there, value) ↦ inr (
          none_there,
          rw (query_state_inclusive_solution_set, lt→ltb ix sql_integer_limit small)
              (ap answer (row (some ix) _ value)),
        )
      ],
    )
