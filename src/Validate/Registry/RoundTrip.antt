-- ===== src/Validate/Registry/RoundTrip.antt =====
-- What a registration writes is what a validation reads: `register_program_mutations` and
-- `register_contract_mutations` of crates/node-types/src/lib.rs against `query_program` and
-- `query_predicate` of crates/node/src/validate.rs.
use essential_node.Types.{ContentAddress, Key, Value, Mutation}
use essential_node.Types.Registry.{contract_salt_key, contract_predicate_key, predicate_key}
use essential_node.Types.Register.{
  length_prefixed, append_some, predicate_mutations, predicates_mutations,
  register_contract_mutations, register_program_mutations,
}
use essential_node.Convert.{Convert, IsConvert, IsBytes}
use essential_node.Blob.RoundTrip.{take-padded_words}
use essential_node.Hashing.{Predicates}
use essential_node.Errors.{QueryError}
use essential_node.Validate.Registry.{query_program, query_predicate}
use essential_node.Prelude.{
  ◌≡◌, ap, Option, some, List, [], ◌∷◌, ◌++◌, pos, Result, ok, Bytes, ℕ, zero, suc, subst, arith,
  get_elem?, refl, sym, none, some-eq-some,
}

-- A state in which the mutations are in force.
abbrev pub Applied : (Key → Result QueryError (Option Value)) → List Mutation → Type 0
Applied read [] = Unit {0}
Applied read (m ∷ ms) = (read m.key ≡ ok (some m.value)) × Applied read ms

Applied-append :
    (read : Key → Result QueryError (Option Value)) (ms ns : List Mutation)
    → Applied read (ms ++ ns)
    → Applied read ms × Applied read ns
Applied-append read [] ns h = (tt, h)
Applied-append read (m ∷ ms) ns h =
    let rest = Applied-append read ms ns h.1 in ((h.0, rest.0), rest.1)

append_some-eq-some :
    (ms : List Mutation) (o : Option (List Mutation)) {ns : List Mutation}
    → append_some ms o ≡ some ns
    → (rest : List Mutation) × (o ≡ some rest) × (ns ≡ ms ++ rest)
append_some-eq-some ms none e = cc
append_some-eq-some ms (some rest) e = (rest, refl, sym (some-eq-some e))

module _ (c : Convert) (laws : IsConvert c) (p : Predicates) where
  open p use {Predicate, encode, decode, predicate_addr, program_addr, contract_addr}

  -- In a state in which the mutations that register a program of bytes are in force, the program
  -- is found under its address, byte for byte.
  pub query_program-register :
      (read : Key → Result QueryError (Option Value)) (program : Bytes)
      → IsBytes program
      → Applied read (register_program_mutations c p program)
      → query_program c read (program_addr program) ≡ ok (some program)
  unfolding query_program register_program_mutations
  query_program-register read program h applied =
      rw applied.0 (ap (λ b. ok (some b)) (take-padded_words c laws program h))

  -- the mutations of the contract's first predicate, and the rest
  predicates_mutations-cons :
      (ca : ContentAddress) (q : Predicate) (qs : List Predicate) {muts : List Mutation}
      → predicates_mutations c p ca (q ∷ qs) ≡ some muts
      → (bytes : Bytes) × (rest : List Mutation) × (encode q ≡ some bytes)
        × (predicates_mutations c p ca qs ≡ some rest)
        × (muts
            ≡ record {
              key =
                  contract_predicate_key c (record { contract = ca; predicate = predicate_addr q });
              value = pos 1 ∷ [];
            }
              ∷ record { key = predicate_key c (predicate_addr q); value = length_prefixed c bytes }
              ∷ rest)
  unfolding predicates_mutations predicate_mutations
  predicates_mutations-cons ca q qs e = ground arith

  module _ (read : Key → Result QueryError (Option Value)) where
    -- the two entries of a predicate that the contract registers
    abbrev Registered : ContentAddress → Predicate → Bytes → Type 0
    Registered contract_ca pred bytes =
        (read (
            contract_predicate_key c
              (record { contract = contract_ca; predicate = predicate_addr pred }))
          ≡ ok (some (pos 1 ∷ [])))
        × (read (predicate_key c (predicate_addr pred)) ≡ ok (some (length_prefixed c bytes)))

    predicates_Registered :
        (ca : ContentAddress) (preds : List Predicate) (i : ℕ) {muts : List Mutation}
        {pred : Predicate}
        → predicates_mutations c p ca preds ≡ some muts
        → Applied read muts
        → get_elem? preds i ≡ some pred
        → (bytes : Bytes) × (encode pred ≡ some bytes) × Registered ca pred bytes
    predicates_Registered ca [] i e applied m = cc
    predicates_Registered ca (q ∷ qs) zero e applied m =
        let (bytes, rest, enc, more, shape) = predicates_mutations-cons ca q qs e in
        let found = subst (Applied read) shape applied in
        subst (λ x. (bytes : Bytes) × (encode x ≡ some bytes) × Registered ca x bytes)
          (some-eq-some m) (bytes, enc, (found.0, found.1.0))
    predicates_Registered ca (q ∷ qs) (suc i) e applied m =
        let (bytes, rest, enc, more, shape) = predicates_mutations-cons ca q qs e in
        predicates_Registered ca qs i more (subst (Applied read) shape applied).1.1 m

    -- In a state in which the mutations that register a contract are in force, every predicate of
    -- the contract is found under its address in the contract, decoded to itself, provided that
    -- the encoding of this predicate consists of bytes and the decoder undoes it.
    pub query_predicate-register :
        (preds : List Predicate) (salt : Bytes) (i : ℕ) {muts : List Mutation} {pred : Predicate}
        → register_contract_mutations c p preds salt ≡ some muts
        → Applied read muts
        → get_elem? preds i ≡ some pred
        → ((bytes : Bytes) → encode pred ≡ some bytes → IsBytes bytes × (decode bytes ≡ some pred))
        → query_predicate c p read
            (record { contract = contract_addr preds salt; predicate = predicate_addr pred })
          ≡ ok (some pred)
    unfolding query_predicate register_contract_mutations length_prefixed
    query_predicate-register preds salt i e applied m codec =
        let (all, e', shape) =
          append_some-eq-some
            (record {
              key = contract_salt_key c (contract_addr preds salt);
              value = c.word_4_from_u8_32 salt;
            }
              ∷ [])
            _ e in
        let found =
          predicates_Registered (contract_addr preds salt) preds i e'
            (subst (Applied read) shape applied).1 m in
        let (valid, back) = codec found.0 found.1 in
        rw (found.2.0, found.2.1, take-padded_words c laws found.0 valid, back)
