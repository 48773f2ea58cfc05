-- ===== src/Validate/Registry/Tests.antt =====
-- The theorems about registrations, at a state that holds what was registered.
use essential_node.Types.Registry.{
  program_key, contract_predicate_key, contract_salt_key, predicate_key,
}
use essential_node.Types.{Key, Value, Mutation}
use essential_node.Types.Register.{register_contract_mutations, register_program_mutations}
use essential_node.Convert.{IsBytes}
use essential_node.Convert.BigEndian.{big_endian, big_endian-IsConvert}
use essential_node.Blob.{blob_from_words, padded_words_from_bytes}
use essential_node.Errors.{QueryError}
use essential_node.Validate.Registry.{query_program, query_predicate}
use essential_node.Validate.Registry.RoundTrip.{
  Applied, query_program-register, query_predicate-register,
}
use essential_node.Samples.{predicates}
use essential_node.Prelude.{
  ◌≡◌, refl, sym, subst, Option, none, some, List, [], ◌∷◌, arith, if◌then◌else◌, replicate, Result,
  ok, Bytes, bytes_eq, some-eq-some,
}

abbrev program : Bytes
program = 1 ∷ 2 ∷ 3 ∷ []

abbrev unwrap : Option (List Mutation) → List Mutation
unwrap none = []
unwrap (some ms) = ms

abbrev salt : Bytes
salt = replicate 32 4

-- a state that holds the mutations, by the bytes of their keys
abbrev state_of : List Mutation → Key → Result QueryError (Option Value)
state_of [] key = ok none
state_of (m ∷ ms) key =
    if bytes_eq (blob_from_words big_endian m.key) (blob_from_words big_endian key)
    then ok (some m.value)
    else state_of ms key

program-IsBytes : IsBytes program
program-IsBytes = ground arith

program-Applied :
    Applied
      (state_of (register_program_mutations big_endian predicates program))
      (register_program_mutations big_endian predicates program)
unfolding register_program_mutations bytes_eq blob_from_words program_key padded_words_from_bytes
program-Applied = (refl, tt)

query_program-register_example :
    query_program big_endian
      (state_of (register_program_mutations big_endian predicates program))
      program
    ≡ ok (some program)
query_program-register_example =
    query_program-register big_endian big_endian-IsConvert predicates
      (state_of (register_program_mutations big_endian predicates program)) program program-IsBytes
      program-Applied

abbrev contract_mutations : List Mutation
contract_mutations = unwrap (register_contract_mutations big_endian predicates (program ∷ []) salt)

contract_registers :
    register_contract_mutations big_endian predicates (program ∷ []) salt ≡ some contract_mutations
unfolding register_contract_mutations
contract_registers = refl

contract_Applied : Applied (state_of contract_mutations) contract_mutations
unfolding register_contract_mutations bytes_eq blob_from_words contract_salt_key
    padded_words_from_bytes contract_predicate_key predicate_key
contract_Applied = (refl, (refl, (refl, tt)))

query_predicate-register_example :
    query_predicate big_endian predicates
      (state_of contract_mutations)
      (record { contract = salt; predicate = program })
    ≡ ok (some program)
query_predicate-register_example =
    query_predicate-register big_endian big_endian-IsConvert predicates
      (state_of contract_mutations) (program ∷ []) salt 0 contract_registers contract_Applied refl
      (λ bytes e. (subst IsBytes (some-eq-some e) program-IsBytes, sym e))
