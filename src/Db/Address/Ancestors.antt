-- ===== src/Db/Address/Ancestors.antt =====
-- The recursive query of crates/node-db/src/query_range/address.rs ends.
use mathlib.Core.Option
use essential_node.Types.{ContentAddress, Key, Value}
use essential_node.Convert.{Convert}
use essential_node.Blob.{blob_from_words}
use essential_node.Errors.{QueryError, rusqlite}
use essential_node.Db.{BlockRow, Database, Engine}
use essential_node.Db.Has.{Has, IsScan, Has-select}
use essential_node.Db.Listing.Range.{All, Has-All, All-of_Has, All-flat}
use essential_node.Db.Query.{get_parent_block_address}
use essential_node.Db.Insert.{to_sql}
use essential_node.Db.Address.{
  ChainRow, chain_row, goes_on, parent_rows, left_values, chain_base, chain_next, chain,
  chain_value, value_or_finalized, query_state_inclusive_block, query_state_exclusive_block,
  query_state_inclusive_solution_set, query_state_exclusive_solution_set,
}
use essential_node.Prelude.{
  ℕ, zero, suc, ◌≤◌, ◌<◌, ◌≡◌, refl, ap, inl, inr, Bool, Option, none, some, List, [], ◌∷◌, map,
  arith, ◌==◌, ==_iff, Bool-cases, Option-cases, select, ℤ, Result, ok, err, Result-cases, Bytes,
  bytes_eq,
}

-- A parent is inserted before its children, so it has a smaller id; 0 is no id.
pub record ParentsFirst (db : Database) : Type 0 where
  pub parent_smaller : (b : BlockRow) → Has b db.block → b.parent_block_id < b.id

All-map :
    {A B : Type 0} (P : B → Type 0) (f : A → B) (xs : List A)
    → ((x : A) → P (f x))
    → All P (map f xs)
All-map P f [] h = tt
All-map P f (x ∷ xs) h = (h x, All-map P f xs h)

All-select :
    {A : Type 0} (P : A → Type 0) (test : A → Bool) (xs : List A)
    → All P xs
    → All P (select test xs)
All-select P test [] h = tt
All-select P test (x ∷ xs) h = elim (Bool-cases (test x)) [
  | inl hit ↦ rw hit (h.0, All-select P test xs h.1)
  | inr miss ↦ rw miss (All-select P test xs h.1)
]

module _ (e : Engine) (law : IsScan e) (contract_ca : ContentAddress) (key : Bytes) (db : Database)
    (first : ParentsFirst db) where
  -- the parents of the rows have ids below the bound
  abbrev pub Below : ℕ → List ChainRow → Type 0
  Below bound rows = All (λ (r : ChainRow). r.parent_block_id < bound) rows

  parent_rows-Below :
      (fuel : ℕ) (r : ChainRow)
      → r.parent_block_id < suc fuel
      → Below fuel (parent_rows e contract_ca key db r)
  parent_rows-Below fuel r below =
      All-flat (λ (b : BlockRow). b.parent_block_id < fuel)
        (λ (r : ChainRow). r.parent_block_id < fuel) _
        (e.scan BlockRow (select (λ b. b.id == r.parent_block_id) db.block))
        (λ b h.
          All-map (λ (r : ChainRow). r.parent_block_id < fuel) (chain_row e contract_ca key db b)
            (left_values e contract_ca key db b.id) (λ v. h))
        (All-of_Has (λ (b : BlockRow). b.parent_block_id < fuel) _
          (λ b h.
            let (there, same) = (Has-select _ db.block b).0 ((law.same_rows BlockRow _ b).0 h) in
            omega (arith, first.parent_smaller b there, (==_iff b.id r.parent_block_id).0 same)))

  chain_next-Below :
      (fuel : ℕ) (rows : List ChainRow)
      → Below (suc fuel) rows
      → Below fuel (chain_next e contract_ca key db rows)
  unfolding chain_next
  chain_next-Below fuel rows below =
      All-flat (λ (r : ChainRow). r.parent_block_id < suc fuel)
        (λ (r : ChainRow). r.parent_block_id < fuel) _ (select (goes_on e contract_ca key db) rows)
        (λ r h. parent_rows-Below fuel r h)
        (All-select (λ (r : ChainRow). r.parent_block_id < suc fuel) (goes_on e contract_ca key db)
          rows below)

  pub chain-some :
      (fuel : ℕ) (rows : List ChainRow)
      → Below fuel rows
      → (levels : List (List ChainRow)) × (chain e contract_ca key db fuel rows ≡ some levels)
  unfolding chain
  chain-some zero [] below = ([], refl)
  chain-some (suc fuel) [] below = ([], refl)
  chain-some zero (r ∷ rows) below = absurd (omega (arith, below.0))
  chain-some (suc fuel) (r ∷ rows) below =
      let (levels, ends) = chain-some fuel _ (chain_next-Below fuel (r ∷ rows) below) in
      ((r ∷ rows) ∷ levels, rw ends refl)

  pub chain_base-Below :
      (fuel : ℕ) (a : ContentAddress)
      → All (λ (b : BlockRow). b.id ≤ fuel) db.block
      → Below fuel (chain_base e contract_ca key db a)
  unfolding chain_base
  chain_base-Below fuel a enough =
      All-flat (λ (b : BlockRow). b.parent_block_id < fuel)
        (λ (r : ChainRow). r.parent_block_id < fuel) _
        (e.scan BlockRow (select (λ b. bytes_eq b.block_address a) db.block))
        (λ b h.
          All-map (λ (r : ChainRow). r.parent_block_id < fuel) (chain_row e contract_ca key db b) _
            (λ v. h))
        (All-of_Has (λ (b : BlockRow). b.parent_block_id < fuel) _
          (λ b h.
            let (there, same) = (Has-select _ db.block b).0 ((law.same_rows BlockRow _ b).0 h) in
            omega (arith, first.parent_smaller b there, Has-All _ db.block enough b there)))

  pub chain_value-some :
      (fuel : ℕ) (ix : Option ℕ) (a : ContentAddress)
      → All (λ (b : BlockRow). b.id ≤ fuel) db.block
      → (v : Option (Option Bytes × ℤ)) × (chain_value e contract_ca key db fuel ix a ≡ some v)
  unfolding chain_value
  chain_value-some fuel ix a enough =
      let (levels, ends) =
        chain-some fuel (chain_base e contract_ca key db a) (chain_base-Below fuel a enough) in
      (_, ap (Option.map _) ends)

-- a query ended with a result
abbrev pub Ended : Option (Result QueryError (Option Value)) → Type 0
Ended answer = (r : Result QueryError (Option Value)) × (answer ≡ some r)

module _ (e : Engine) (law : IsScan e) (c : Convert) (contract_ca : ContentAddress) (key : Key)
    (db : Database) (first : ParentsFirst db) (fuel : ℕ)
    (enough : All (λ (b : BlockRow). b.id ≤ fuel) db.block) where
  inclusive_block-Ended :
      (a : ContentAddress) → Ended (query_state_inclusive_block e c contract_ca key fuel a db)
  unfolding query_state_inclusive_block
  inclusive_block-Ended a =
      let (v, found) =
        chain_value-some e law contract_ca (blob_from_words c key) db first fuel none a enough in
      (_, ap (Option.map _) found)

  exclusive_block-Ended :
      (a : ContentAddress) → Ended (query_state_exclusive_block e c contract_ca key fuel a db)
  unfolding query_state_exclusive_block
  exclusive_block-Ended a = elim (Option-cases (get_parent_block_address a db)) [
    | inl none_found ↦ (ok none, rw (query_state_exclusive_block, none_found) refl)
    | inr (parent, found) ↦
        let (r, ends) = inclusive_block-Ended parent in
        (r, rw (query_state_exclusive_block, found) ends)
  ]

  inclusive_solution_set-Ended :
      (a : ContentAddress) (ix : ℕ)
      → Ended (query_state_inclusive_solution_set e c contract_ca key fuel a ix db)
  unfolding query_state_inclusive_solution_set
  inclusive_solution_set-Ended a ix = elim (Result-cases (to_sql ix)) [
    | inr (f, failed) ↦ (err (rusqlite f), rw (query_state_inclusive_solution_set, failed) refl)
    | inl (i, fits) ↦
        let (v, found) =
          chain_value-some e law contract_ca (blob_from_words c key) db first fuel (some i) a
            enough in
        (
          value_or_finalized e c contract_ca key v db,
          rw (query_state_inclusive_solution_set, fits) (ap (Option.map _) found),
        )
  ]

  exclusive_solution_set-Ended :
      (a : ContentAddress) (ix : ℕ)
      → Ended (query_state_exclusive_solution_set e c contract_ca key fuel a ix db)
  unfolding query_state_exclusive_solution_set
  exclusive_solution_set-Ended a zero = exclusive_block-Ended a
  exclusive_solution_set-Ended a (suc ix) = inclusive_solution_set-Ended a ix

-- With as much fuel as the greatest id of a block, each of the four queries at a block address ends
-- with a result, provided that the parent of a block has a smaller id than the block and that a scan
-- yields just the rows that are there.
pub address_queries-Ended :
    (e : Engine) (law : IsScan e) (c : Convert) (contract_ca : ContentAddress) (key : Key)
    (db : Database) (fuel : ℕ) (a : ContentAddress) (ix : ℕ)
    → ParentsFirst db
    → All (λ (b : BlockRow). b.id ≤ fuel) db.block
    → Ended (query_state_inclusive_block e c contract_ca key fuel a db)
      × Ended (query_state_exclusive_block e c contract_ca key fuel a db)
      × Ended (query_state_inclusive_solution_set e c contract_ca key fuel a ix db)
      × Ended (query_state_exclusive_solution_set e c contract_ca key fuel a ix db)
address_queries-Ended e law c contract_ca key db fuel a ix first enough = (
  inclusive_block-Ended e law c contract_ca key db first fuel enough a,
  exclusive_block-Ended e law c contract_ca key db first fuel enough a,
  inclusive_solution_set-Ended e law c contract_ca key db first fuel enough a ix,
  exclusive_solution_set-Ended e law c contract_ca key db first fuel enough a ix,
)
