-- ===== src/Types/BigBang.antt =====
-- `BigBang` of crates/node-types/src/lib.rs, and the solution that sets the block state.
use essential_node.Types.{PredicateAddress, Mutation, Solution, SolutionSet, Block}
use essential_node.Prelude.{List, [], ◌∷◌, ℤ, pos}

pub record BigBang : Type 0 where
  pub block_state : PredicateAddress
  pub contract_registry : PredicateAddress
  pub program_registry : PredicateAddress
  pub solution_set : SolutionSet

-- `BigBang::block`
unfoldable pub block : BigBang → Block
block b = record {
  header = record { number = pos 0; timestamp = record { secs = 0; nanos = 0 } };
  solution_sets = b.solution_set ∷ [];
}

unfoldable pub block_state_mutations : ℤ → ℤ → List Mutation
block_state_mutations block_number block_timestamp_secs =
    record { key = pos 0 ∷ []; value = block_number ∷ [] }
    ∷ record { key = pos 1 ∷ []; value = block_timestamp_secs ∷ [] }
    ∷ []

unfoldable pub block_state_solution : PredicateAddress → ℤ → ℤ → Solution
unfolding block_state_mutations
block_state_solution block_state block_number block_timestamp_secs = record {
  predicate_to_solve = block_state;
  predicate_data = [];
  state_mutations = block_state_mutations block_number block_timestamp_secs;
}
