-- ===== src/Types/Register.antt =====
-- The solutions that register contracts and programs: `register_contract_mutations`,
-- `register_program_mutations` and their solutions in crates/node-types/src/lib.rs. A length is
-- that of a `Vec`, which fits a `Word`, so that `Word::try_from` does not fail.
use essential_node.Types.{ContentAddress, PredicateAddress, Mutation, Solution}
use essential_node.Types.Registry.{
  contract_salt_key, contract_predicate_key, predicate_key, program_key,
}
use essential_node.Convert.{Convert}
use essential_node.Blob.{padded_words_from_bytes}
use essential_node.Hashing.{Predicates}
use essential_node.Prelude.{Option, none, some, List, [], ◌∷◌, ◌++◌, length, ℤ, pos, Bytes}

-- the length in bytes, and the bytes as padded words
unfoldable pub length_prefixed : Convert → Bytes → List ℤ
length_prefixed c bytes = pos (length bytes) ∷ padded_words_from_bytes c bytes

abbrev pub append_some {ℓ} : {A : Type ℓ} → List A → Option (List A) → Option (List A)
append_some xs none = none
append_some xs (some ys) = some (xs ++ ys)

module _ (c : Convert) (p : Predicates) where
  open p use {Predicate, encode, predicate_addr, program_addr, contract_addr}

  -- what one predicate of the contract adds, or `none` where it does not encode
  unfoldable pub predicate_mutations : ContentAddress → Predicate → Option (List Mutation)
  unfolding length_prefixed
  predicate_mutations contract_ca pred = elim (encode pred) [
    | none ↦ none
    | some pred_bytes ↦ some (
        record {
          key =
              contract_predicate_key c
                (record { contract = contract_ca; predicate = predicate_addr pred });
          value = pos 1 ∷ [];
        }
        ∷ record {
          key = predicate_key c (predicate_addr pred);
          value = length_prefixed c pred_bytes;
        }
        ∷ [])
  ]

  -- the loop over the contract's predicates
  unfoldable pub predicates_mutations : ContentAddress → List Predicate → Option (List Mutation)
  predicates_mutations contract_ca [] = some []
  predicates_mutations contract_ca (pred ∷ preds) = elim (predicate_mutations contract_ca pred) [
    | none ↦ none
    | some muts ↦ append_some muts (predicates_mutations contract_ca preds)
  ]

  unfoldable pub register_contract_mutations : List Predicate → Bytes → Option (List Mutation)
  unfolding predicates_mutations predicate_mutations
  register_contract_mutations preds salt =
      let contract_ca = contract_addr preds salt in
      append_some
        (record { key = contract_salt_key c contract_ca; value = c.word_4_from_u8_32 salt } ∷ [])
        (predicates_mutations contract_ca preds)

  unfoldable pub register_contract_solution :
      PredicateAddress → List Predicate → Bytes → Option Solution
  unfolding register_contract_mutations
  register_contract_solution registry preds salt = elim (register_contract_mutations preds salt) [
    | none ↦ none
    | some muts ↦
        some (record { predicate_to_solve = registry; predicate_data = []; state_mutations = muts })
  ]

  unfoldable pub register_program_mutations : Bytes → List Mutation
  unfolding length_prefixed
  register_program_mutations program =
      record { key = program_key c (program_addr program); value = length_prefixed c program } ∷ []

  unfoldable pub register_program_solution : PredicateAddress → Bytes → Solution
  unfolding register_program_mutations
  register_program_solution registry program = record {
    predicate_to_solve = registry;
    predicate_data = [];
    state_mutations = register_program_mutations program;
  }
