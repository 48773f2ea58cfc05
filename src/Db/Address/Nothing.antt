-- ===== src/Db/Address/Nothing.antt =====
-- What a query at the address of a finalized block returns where that block does not set the key.
use mathlib.Core.Option
use essential_node.Types.{ContentAddress, Key}
use essential_node.Convert.{Convert}
use essential_node.Blob.{blob_from_words}
use essential_node.Db.Insert.{to_sql, sql_integer_limit}
use essential_node.Db.{
  FinalizedRow, BlockRow, BlockSetRow, SolutionRow, MutationRow, Database, Engine,
}
use essential_node.Db.Has.{exists-of_Has, Has, IsScan, map-Has, flat-Has}
use essential_node.Db.Address.{
  goes_on, is_none, value_or_finalized, first_found, ChainRow, query_state_inclusive_solution_set,
  chain_base, chain_next, query_state_inclusive_block, chain, chain_value, block_sets,
  set_solutions, key_mutations, left_join, left_set_values, left_mutations, chain_row,
}
use essential_node.Db.Address.Rows.{
  scan_select, chain_base-block, Alone, Writes, block_sets-Has, set_solutions-Has,
  key_mutations-Has,
}
use essential_node.Prelude.{
  ◌≡◌, refl, sym, ap, subst, inl, inr, Bool, true, false, Option, none, some, List, [], ◌∷◌, select,
  exists, Bytes, some-eq-some, ℕ, suc, ◌<◌, ◌∙◌, not, append-nil, arith, ◌==◌, lt→ltb, ==_iff, flat,
  ok, bytes_eq, bytes_eq_iff, set,
}

-- the block does not write the key at the contract
abbrev pub NoWrites : Database → ContentAddress → Bytes → BlockRow → Type 0
NoWrites db ca key b = (r : BlockSetRow) (m : MutationRow) → ¬ Writes db ca key b r m

left_join-Has : {A : Type 0} (xs : List A) (x : A) → Has (some x) (left_join xs) → Has x xs
left_join-Has [] x h = elim h [ inl e ↦ absurd cc | inr no_more ↦ no_more ]
left_join-Has (y ∷ ys) x h =
    let (z, there, same) = map-Has some (y ∷ ys) (some x) h in
    subst (λ z. Has z (y ∷ ys)) (sym (some-eq-some same)) there

select-none :
    {A : Type 0} (p : A → Bool) (xs : List A)
    → ((x : A) → Has x xs → p x ≡ false)
    → select p xs ≡ []
select-none p [] h = refl
select-none p (x ∷ xs) h = rw (h x (inl refl)) (select-none p xs (λ y there. h y (inr there)))

module _ (e : Engine) (law : IsScan e) (ca : ContentAddress) (key : Bytes) (db : Database) where
  left_mutations-Has :
      (s : SolutionRow) (value : Bytes)
      → Has (some value) (left_mutations e ca key db (some s))
      → (m : MutationRow) × Has m db.mutation × (m.solution_id ≡ s.id) × (m.key ≡ key)
  left_mutations-Has s value h =
      let (found, there, same) = map-Has (Option.map (λ (m : MutationRow). m.value)) _ _ h in
      of_found found there same
    where
      of_found :
          (found : Option MutationRow)
          → Has found (left_join (key_mutations e ca key db s))
          → some value ≡ Option.map (λ (m : MutationRow). m.value) found
          → (m : MutationRow) × Has m db.mutation × (m.solution_id ≡ s.id) × (m.key ≡ key)
      of_found none there same = absurd cc
      of_found (some m) there same =
          let (mutates, by, keyed) =
            (key_mutations-Has e law ca key db s m).0 (left_join-Has _ m there) in
          (m, mutates, by, keyed)

  -- a value in the base case is that of a write
  left_set_values-Writes :
      (b : BlockRow) (set : Option BlockSetRow) (value : Bytes)
      → Has set (left_join (block_sets e ca key db b.id))
      → Has (some value) (left_set_values e ca key db set)
      → (r : BlockSetRow) × (m : MutationRow) × Writes db ca key b r m
  left_set_values-Writes b none value there h = elim h [
    | inl e ↦ absurd cc
    | inr no_more ↦ absurd no_more
  ]
  left_set_values-Writes b (some r) value there h =
      let (solution, in_set, within) = flat-Has (left_mutations e ca key db) _ (some value) h in
      of_solution solution in_set within
    where
      of_solution :
          (solution : Option SolutionRow)
          → Has solution (left_join (set_solutions e ca key db r.solution_set_id))
          → Has (some value) (left_mutations e ca key db solution)
          → (r : BlockSetRow) × (m : MutationRow) × Writes db ca key b r m
      of_solution none in_set h = elim h [ inl e ↦ absurd cc | inr no_more ↦ absurd no_more ]
      of_solution (some s) in_set h =
          let (m, mutates, by, keyed) = left_mutations-Has s value h in
          let (in_block, of_block) =
            (block_sets-Has e law ca key db b.id r).0 (left_join-Has _ r there) in
          let (solves, of_set, at) =
            (set_solutions-Has e law ca key db r.solution_set_id s).0 (left_join-Has _ s in_set) in
          (r, m, (s, in_block, of_block, solves, of_set, at, mutates, by, keyed))

  -- the rows of the base case have no value
  chain_base-empty :
      (b : BlockRow) (row : ChainRow)
      → Alone db b.block_address b
      → NoWrites db ca key b
      → Has row (chain_base e ca key db b.block_address)
      → not (is_none row.found_value) ≡ false
  unfolding chain_base
  chain_base-empty b row alone silent h =
      let (other, at, in_map) = flat-Has _ _ row h in
      let (there, passes) =
        (scan_select e law ca key db (λ o. bytes_eq o.block_address b.block_address) db.block
            other).0
          at in
      let same : other ≡ b =
        alone other there ((bytes_eq_iff other.block_address b.block_address).0 passes) in
      let (v, within, of_row) = map-Has (chain_row e ca key db other) _ row in_map in
      let (set, in_sets, of_set) = flat-Has (left_set_values e ca key db) _ v within in
      rw of_row (
        no_value v set (subst (λ b. Has set (left_join (block_sets e ca key db b.id))) same in_sets)
          of_set)
    where
      no_value :
          (v : Option Bytes) (in_block : Option BlockSetRow)
          → Has in_block (left_join (block_sets e ca key db b.id))
          → Has v (left_set_values e ca key db in_block)
          → not (is_none v) ≡ false
      no_value none set in_sets of_set = refl
      no_value (some value) set in_sets of_set =
          let (r, m, writes) = left_set_values-Writes b set value in_sets of_set in
          absurd (silent r m writes)

  -- the recursion ends at a finalized block
  chain_next-finalized :
      (b : BlockRow) (f : FinalizedRow)
      → Alone db b.block_address b
      → Has f db.finalized_block
      → f.block_id ≡ b.id
      → chain_next e ca key db (chain_base e ca key db b.block_address) ≡ []
  unfolding chain_next
  chain_next-finalized b f alone final same =
      let stops : (row : ChainRow)
          → Has row (chain_base e ca key db b.block_address)
          → goes_on e ca key db row ≡ false =
        λ row there.
          let (v, of_block) = chain_base-block e law ca key db b.block_address b row alone there in
          let ended : exists (λ (f : FinalizedRow). f.block_id == row.block_id) db.finalized_block
              ≡ true =
            exists-of_Has _ db.finalized_block f final (
              (==_iff f.block_id row.block_id).1
                (same ∙ sym (ap (λ (r : ChainRow). r.block_id) of_block))) in
          rw ended (ground arith) in
      ap (flat _) (select-none (goes_on e ca key db) _ stops)

  chain-one :
      (fuel : ℕ) (rows : List ChainRow)
      → chain_next e ca key db rows ≡ []
      → (levels : List (List ChainRow)) × (chain e ca key db (suc fuel) rows ≡ some levels)
        × (flat (λ rs. rs) levels ≡ rows)
  unfolding chain
  chain-one fuel [] last = ([], refl, refl)
  chain-one fuel (r ∷ rows) last = (((r ∷ rows) ∷ []), rw last refl, append-nil (r ∷ rows))

  chain_value-nothing :
      (fuel : ℕ) (reach : Option ℕ) (b : BlockRow) (f : FinalizedRow)
      → Alone db b.block_address b
      → Has f db.finalized_block
      → f.block_id ≡ b.id
      → NoWrites db ca key b
      → chain_value e ca key db (suc fuel) reach b.block_address ≡ some none
  unfolding chain_value first_found
  chain_value-nothing fuel reach b f alone final same silent =
      let base = chain_base e ca key db b.block_address in
      let (levels, ends, only) = chain-one fuel base (chain_next-finalized b f alone final same) in
      let empty =
        select-none (λ (r : ChainRow). not (is_none r.found_value)) base
          (λ row there. chain_base-empty b row alone silent there) in
      rw ends (rw only (rw empty refl))

-- At the address of a finalized block that does not write the key itself, the queries inclusive of
-- the block and of a solution set of it return nothing, whatever the blocks before it write. The
-- address must be that of no other block, a scan must yield just the rows that are there, and the
-- index must be below 2^63; one step of fuel is enough.
pub address_queries-nothing :
    (e : Engine) (law : IsScan e) (c : Convert) (ca : ContentAddress) (key : Key) (db : Database)
    (fuel : ℕ) (b : BlockRow) (f : FinalizedRow) (ix : ℕ)
    → ix < sql_integer_limit
    → Alone db b.block_address b
    → Has f db.finalized_block
    → f.block_id ≡ b.id
    → NoWrites db ca (blob_from_words c key) b
    → (query_state_inclusive_block e c ca key (suc fuel) b.block_address db ≡ some (ok none))
      × (query_state_inclusive_solution_set e c ca key (suc fuel) b.block_address ix db
          ≡ some (ok none))
unfolding query_state_inclusive_block query_state_inclusive_solution_set to_sql value_or_finalized
address_queries-nothing e law c ca key db fuel b f ix small alone final same silent =
    let row : (reach : Option ℕ)
        → chain_value e ca (blob_from_words c key) db (suc fuel) reach b.block_address ≡ some none =
      λ reach.
        chain_value-nothing e law ca (blob_from_words c key) db fuel reach b f alone final same
          silent in
    let answer = Option.map (λ row. value_or_finalized e c ca key row db) in
    (
      ap answer (row none),
      rw (query_state_inclusive_solution_set, lt→ltb ix sql_integer_limit small)
          (ap answer (row (some ix))),
    )
