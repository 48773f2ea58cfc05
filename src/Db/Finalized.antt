-- ===== src/Db/Finalized.antt =====
-- crates/node-db/src/query_range/finalized.rs: the state of a key as the finalized blocks leave it,
-- up to a block or up to a solution set of a block.
pub mod Latest
use essential_node.Types.{ContentAddress, Key, Value}
use essential_node.Convert.{Convert}
use essential_node.Blob.{blob_from_words, words_from_blob}
use essential_node.Errors.{QueryError, rusqlite}
use essential_node.Db.{FinalizedRow, BlockSetRow, SolutionRow, MutationRow, Database, Engine}
use essential_node.Db.Sort.{sort}
use essential_node.Db.Insert.{to_sql}
use essential_node.Prelude.{
  ℕ, zero, suc, Bool, true, not, ◌&&◌, Option, none, some, List, map, ltb, leb, ◌==◌, if◌then◌else◌,
  head, select, flat, ℤ, ltb_ℤ, eq_ℤ, checked_dec, Result, ok, ◌>>=◌, map_err, Bytes, bytes_eq,
}

-- a row of the join: where a value was set, and the value
pub record Write : Type 0 where
  pub block_number : ℤ
  pub solution_set_index : ℕ
  pub value : Bytes

-- the join of `mutation`, `solution`, `block_solution_set` and `finalized_block` at a contract and key
unfoldable pub writes : ContentAddress → Bytes → Database → List Write
writes contract_ca key db =
    flat
      (λ (m : MutationRow).
        flat
          (λ (s : SolutionRow).
            flat
              (λ (r : BlockSetRow).
                map
                  (λ (f : FinalizedRow). record {
                    block_number = f.block_number;
                    solution_set_index = r.solution_set_index;
                    value = m.value;
                  })
                  (select (λ f. f.block_id == r.block_id) db.finalized_block))
              (select (λ r. r.solution_set_id == s.solution_set_id) db.block_solution_set))
          (select (λ s. (s.id == m.solution_id) && bytes_eq s.contract_addr contract_ca)
            db.solution))
      (select (λ m. bytes_eq m.key key) db.mutation)

-- `(number, index) <= (block_number, solution_set_index)` on row values
abbrev pub at_or_before : ℤ → ℕ → Write → Bool
at_or_before number ix w =
    if ltb_ℤ w.block_number number
    then true
    else eq_ℤ w.block_number number && leb w.solution_set_index ix

-- `ORDER BY block_number DESC, solution_set_index DESC`
abbrev pub later : Write → Write → Bool
later v w =
    if ltb_ℤ w.block_number v.block_number
    then true
    else eq_ℤ w.block_number v.block_number && ltb w.solution_set_index v.solution_set_index

abbrev pub value_words : Convert → Option Write → Option Value
value_words c none = none
value_words c (some w) = some (words_from_blob c w.value)

module _ (e : Engine) where
  -- the latest write that passes the test
  unfoldable pub latest : (Write → Bool) → List Write → Option Write
  latest test ws = head (sort later (e.scan Write (select test ws)))

  module _ (c : Convert) (contract_ca : ContentAddress) (key : Key) where
    unfoldable pub query_state_inclusive_block : ℤ → Database → Result QueryError (Option Value)
    query_state_inclusive_block block_number db = ok (
        value_words c (
          latest (λ w. not (ltb_ℤ block_number w.block_number))
            (writes contract_ca (blob_from_words c key) db)))

    unfoldable pub query_state_exclusive_block : ℤ → Database → Result QueryError (Option Value)
    unfolding query_state_inclusive_block
    query_state_exclusive_block block_number db = elim (checked_dec block_number) [
      | some n ↦ query_state_inclusive_block n db
      | none ↦ ok none
    ]

    unfoldable pub query_state_inclusive_solution_set :
        ℤ → ℕ → Database → Result QueryError (Option Value)
    query_state_inclusive_solution_set block_number ix db = do
      i ← map_err rusqlite (to_sql ix)
      ok (
          value_words c
            (latest (at_or_before block_number i) (writes contract_ca (blob_from_words c key) db)))

    -- `solution_set_index.checked_sub(1)`
    unfoldable pub query_state_exclusive_solution_set :
        ℤ → ℕ → Database → Result QueryError (Option Value)
    unfolding query_state_exclusive_block query_state_inclusive_solution_set
    query_state_exclusive_solution_set block_number zero db =
        query_state_exclusive_block block_number db
    query_state_exclusive_solution_set block_number (suc ix) db =
        query_state_inclusive_solution_set block_number ix db
