-- ===== src/Types/Registry.antt =====
-- The keys of the contract registry and of the program registry: the modules `contract_registry`
-- and `program_registry` of crates/node-types/src/lib.rs.
mod Tests
pub mod Keys
use essential_node.Types.{ContentAddress, PredicateAddress, Key}
use essential_node.Convert.{Convert}
use essential_node.Blob.{padded_words_from_bytes}
use essential_node.Prelude.{[], ◌∷◌, ◌++◌, ℤ, pos}

abbrev pub contracts_prefix : ℤ
contracts_prefix = pos 0

abbrev pub predicates_prefix : ℤ
predicates_prefix = pos 1

abbrev pub programs_prefix : ℤ
programs_prefix = pos 0

module _ (c : Convert) where
  -- `[0, <contract-ca>, 0]`
  unfoldable pub contract_salt_key : ContentAddress → Key
  contract_salt_key contract_ca =
      contracts_prefix ∷ (padded_words_from_bytes c contract_ca ++ pos 0 ∷ [])

  -- `[0, <contract-ca>, <predicate-ca>]`
  unfoldable pub contract_predicate_key : PredicateAddress → Key
  contract_predicate_key a =
      contracts_prefix
      ∷ (padded_words_from_bytes c a.contract ++ padded_words_from_bytes c a.predicate)

  -- `[1, <predicate-ca>]`
  unfoldable pub predicate_key : ContentAddress → Key
  predicate_key pred_ca = predicates_prefix ∷ padded_words_from_bytes c pred_ca

  -- `[0, <program-ca>]`
  unfoldable pub program_key : ContentAddress → Key
  program_key prog_ca = programs_prefix ∷ padded_words_from_bytes c prog_ca
