-- ===== src/Db/Address/Rows.antt =====
-- The rows that a query at a block address reads of the block itself.
use mathlib.Core.Option
use essential_node.Types.{ContentAddress}
use essential_node.Db.{
  ◌≡◌, ℕ, Bytes, List, BlockRow, BlockSetRow, SolutionRow, MutationRow, Database, Engine,
}
use essential_node.Db.Has.{
  Has, IsScan, Has-select, Has-flat, Has-map, map-Has, flat-Has, head-select,
}
use essential_node.Db.Listing.Range.{All}
use essential_node.Db.Address.Ancestors.{ParentsFirst, chain-some, chain_base-Below}
use essential_node.Db.Address.{
  bytes_eq, true, ◌∷◌, flat, select, some, Bool, ChainRow, left_join, is_none, chain_row,
  block_sets, set_solutions, key_mutations, left_set_values, left_mutations, chain_base, chain_next,
  chain, first_found, value_in_block, chain_value,
}
use essential_node.Prelude.{
  ℕ, zero, suc, ◌≤◌, ◌≡◌, refl, sym, ap, ◌∙◌, ◌↔◌, inl, inr, Bool, true, not, ◌&&◌, Option, some,
  List, [], ◌∷◌, ◌++◌, ◌==◌, ==_iff, &&-eq-true, Option-cases, select, flat, Bytes, bytes_eq,
  bytes_eq_iff, some-eq-some,
}

-- a mutation of the key that a solution set of the block makes at the contract
abbrev pub Writes :
    Database → ContentAddress → Bytes → BlockRow → BlockSetRow → MutationRow → Type 0
Writes db ca key b r m =
    (s : SolutionRow) × Has r db.block_solution_set
    × (r.block_id ≡ b.id)
    × Has s db.solution
    × (s.solution_set_id ≡ r.solution_set_id)
    × (s.contract_addr ≡ ca)
    × Has m db.mutation
    × (m.solution_id ≡ s.id)
    × (m.key ≡ key)

-- no other block has the address
abbrev pub Alone : Database → ContentAddress → BlockRow → Type 0
Alone db a b = (other : BlockRow) → Has other db.block → other.block_address ≡ a → other ≡ b

Has-left_join : {A : Type 0} (xs : List A) (x : A) → Has x xs → Has (some x) (left_join xs)
Has-left_join [] x h = absurd h
Has-left_join (y ∷ ys) x h = Has-map some (y ∷ ys) x h

module _ (e : Engine) (law : IsScan e) (ca : ContentAddress) (key : Bytes) (db : Database) where
  pub scan_select :
      {A : Type 0} (p : A → Bool) (xs : List A) (x : A)
      → Has x (e.scan A (select p xs)) ↔ (Has x xs × (p x ≡ true))
  scan_select {A} p xs x =
      let (there, back) = law.same_rows A (select p xs) x in
      let (splits, joins) = Has-select p xs x in (λ h. splits (there h), λ h. back (joins h))

  -- the rows that the query reads are those of the writes
  pub block_sets-Has :
      (id : ℕ) (r : BlockSetRow)
      → Has r (block_sets e ca key db id) ↔ (Has r db.block_solution_set × (r.block_id ≡ id))
  block_sets-Has id r =
      let (reads, there) = scan_select (λ r. r.block_id == id) db.block_solution_set r in
      (
        λ h. let (at, passes) = reads h in (at, (==_iff r.block_id id).0 passes),
        λ h. there (h.0, (==_iff r.block_id id).1 h.1),
      )

  pub set_solutions-Has :
      (id : ℕ) (s : SolutionRow)
      → Has s (set_solutions e ca key db id)
        ↔ (Has s db.solution × (s.solution_set_id ≡ id) × (s.contract_addr ≡ ca))
  set_solutions-Has id s =
      let (reads, there) =
        scan_select (λ s. (s.solution_set_id == id) && bytes_eq s.contract_addr ca) db.solution s in
      (
        λ h.
            let (at, passes) = reads h in
            let (same, equal) = &&-eq-true _ _ passes in
            (at, (==_iff s.solution_set_id id).0 same, (bytes_eq_iff s.contract_addr ca).0 equal),
        λ h. there (
          h.0,
          rw ((==_iff s.solution_set_id id).1 h.1, (bytes_eq_iff s.contract_addr ca).1 h.2) refl,
        ),
      )

  pub key_mutations-Has :
      (s : SolutionRow) (m : MutationRow)
      → Has m (key_mutations e ca key db s)
        ↔ (Has m db.mutation × (m.solution_id ≡ s.id) × (m.key ≡ key))
  key_mutations-Has s m =
      let (reads, there) =
        scan_select (λ m. (m.solution_id == s.id) && bytes_eq m.key key) db.mutation m in
      (
        λ h.
            let (at, passes) = reads h in
            let (same, equal) = &&-eq-true _ _ passes in
            (at, (==_iff m.solution_id s.id).0 same, (bytes_eq_iff m.key key).0 equal),
        λ h.
            there
              (h.0, rw ((==_iff m.solution_id s.id).1 h.1, (bytes_eq_iff m.key key).1 h.2) refl),
      )

  -- a row of the base case for each write
  chain_base-Has :
      (a : ContentAddress) (b : BlockRow) (r : BlockSetRow) (m : MutationRow)
      → Has b db.block
      → b.block_address ≡ a
      → Writes db ca key b r m
      → Has (chain_row e ca key db b (some m.value)) (chain_base e ca key db a)
  unfolding chain_base
  chain_base-Has a b r m there same
        (s, in_block, of_block, solves, in_set, at, mutates, by, keyed) =
      let found_set = Has-left_join _ r ((block_sets-Has b.id r).1 (in_block, of_block)) in
      let found_solution =
        Has-left_join _ s ((set_solutions-Has r.solution_set_id s).1 (solves, in_set, at)) in
      let found_mutation = Has-left_join _ m ((key_mutations-Has s m).1 (mutates, by, keyed)) in
      let in_solution =
        Has-map (Option.map (λ (m : MutationRow). m.value)) _ (some m) found_mutation in
      let value = Has-flat (left_set_values e ca key db) _ (some r) (some m.value) found_set (
        Has-flat (left_mutations e ca key db) _ (some s) (some m.value) found_solution
          in_solution) in
      Has-flat _ _ b _
        ((scan_select (λ b. bytes_eq b.block_address a) db.block b).1
          (there, (bytes_eq_iff b.block_address a).1 same))
        (Has-map (chain_row e ca key db b) _ (some m.value) value)

  -- every row of the base case is the block's
  pub chain_base-block :
      (a : ContentAddress) (b : BlockRow) (row : ChainRow)
      → Alone db a b
      → Has row (chain_base e ca key db a)
      → (v : Option Bytes) × (row ≡ chain_row e ca key db b v)
  unfolding chain_base
  chain_base-block a b row alone h =
      let (other, at, in_map) = flat-Has _ _ row h in
      let (there, passes) = (scan_select (λ b. bytes_eq b.block_address a) db.block other).0 at in
      let (v, within, same) = map-Has (chain_row e ca key db other) _ row in_map in
      (
        v,
        same
            ∙ ap (λ b. chain_row e ca key db b v)
                (alone other there ((bytes_eq_iff other.block_address a).0 passes)),
      )

  -- the rows of the base case come first
  chain-starts :
      (fuel : ℕ) (rows : List ChainRow) {levels : List (List ChainRow)}
      → chain e ca key db fuel rows ≡ some levels
      → (deeper : List ChainRow) × (flat (λ rs. rs) levels ≡ rows ++ deeper)
  unfolding chain
  chain-starts fuel [] {levels} h = (flat (λ rs. rs) levels, refl)
  chain-starts zero (r ∷ rows) h = absurd cc
  chain-starts (suc fuel) (r ∷ rows) h =
      elim (Option-cases (chain e ca key db fuel (chain_next e ca key db (r ∷ rows)))) [
        | inl ended ↦ absurd (let h' = rw ended at h in cc)
        | inr (deeper, more) ↦
            (flat (λ rs. rs) deeper, ap (flat (λ rs. rs)) (some-eq-some (sym (rw more at h))))
      ]

  -- the row of the query is the block's, where it writes the key
  pub chain_value-own :
      (fuel : ℕ) (reach : Option ℕ) (a : ContentAddress) (b : BlockRow) (r : BlockSetRow)
      (m : MutationRow)
      → ParentsFirst db
      → All (λ (b : BlockRow). b.id ≤ fuel) db.block
      → Has b db.block
      → b.block_address ≡ a
      → Alone db a b
      → Writes db ca key b r m
      → chain_value e ca key db fuel reach a
        ≡ some (some (value_in_block e ca key db reach b.id, b.number))
  unfolding chain_value first_found
  chain_value-own fuel reach a b r m first enough there same alone writes =
      let base = chain_base e ca key db a in
      let (levels, ends) =
        chain-some e law ca key db first fuel base
          (chain_base-Below e law ca key db first fuel a enough) in
      let (deeper, starts) = chain-starts fuel base ends in
      let (row, found, of_base) =
        head-select (λ (r : ChainRow). not (is_none r.found_value)) base deeper _
          (chain_base-Has a b r m there same writes) refl in
      let (v, of_block) = chain_base-block a b row alone of_base in
      rw ends (rw starts (rw found (rw of_block refl)))
