-- ===== src/Types/Registry/Keys.antt =====
-- Different things have different keys.
use essential_node.Types.{ContentAddress, PredicateAddress}
use essential_node.Types.Registry.{
  contract_salt_key, contract_predicate_key, predicate_key, program_key,
}
use essential_node.Convert.{Convert, IsConvert, IsBytes}
use essential_node.Blob.{padded_words_from_bytes}
use essential_node.Blob.RoundTrip.{padded_words_injective, length-padded_words}
use essential_node.Prelude.{
  ◌≡◌, refl, ap, ◌≢◌, List, [], ◌∷◌, ◌++◌, arith, length, length-append, pos,
}

-- 32 bytes
abbrev pub IsAddress : ContentAddress → Type 0
IsAddress a = IsBytes a × (length a ≡ 32)

append_injective {ℓ} :
    {A : Type ℓ} (xs xs' ys ys' : List A)
    → length xs ≡ length xs'
    → xs ++ ys ≡ xs' ++ ys'
    → (xs ≡ xs') × (ys ≡ ys')
append_injective [] [] ys ys' l e = (refl, e)
append_injective [] (x' ∷ xs') ys ys' l e = absurd (omega arith)
append_injective (x ∷ xs) [] ys ys' l e = absurd (omega arith)
append_injective (x ∷ xs) (x' ∷ xs') ys ys' l e =
    let rest = append_injective xs xs' ys ys' (omega arith) (cc) in (cc rest.0, rest.1)

tail_eq {ℓ} : {A : Type ℓ} {x y : A} {xs ys : List A} → x ∷ xs ≡ y ∷ ys → xs ≡ ys
tail_eq e = cc

module _ (c : Convert) (laws : IsConvert c) where
  address_words :
      (a b : ContentAddress)
      → IsAddress a
      → IsAddress b
      → padded_words_from_bytes c a ≡ padded_words_from_bytes c b
      → a ≡ b
  address_words a b ha hb = padded_words_injective c laws a b ha.0 hb.0 (omega arith)

  -- For addresses of 32 bytes: a predicate's key within a contract determines both addresses, and
  -- the key of a predicate's encoding, the key of a contract's salt and the key of a program
  -- determine theirs.
  registry_keys_injective :
      (a b : PredicateAddress)
      → IsAddress a.contract
      → IsAddress a.predicate
      → IsAddress b.contract
      → IsAddress b.predicate
      → (contract_predicate_key c a ≡ contract_predicate_key c b
          → (a.contract ≡ b.contract) × (a.predicate ≡ b.predicate))
        × (predicate_key c a.predicate ≡ predicate_key c b.predicate → a.predicate ≡ b.predicate)
        × (contract_salt_key c a.contract ≡ contract_salt_key c b.contract
            → a.contract ≡ b.contract)
        × (program_key c a.predicate ≡ program_key c b.predicate → a.predicate ≡ b.predicate)
  unfolding contract_predicate_key predicate_key contract_salt_key program_key
  registry_keys_injective a b ac ap' bc bp = (
    λ e.
        let parts =
          append_injective _ _ _ _
            (omega (arith, length-padded_words c a.contract, length-padded_words c b.contract))
            (tail_eq e) in
        (
          address_words a.contract b.contract ac bc parts.0,
          address_words a.predicate b.predicate ap' bp parts.1,
        ),
    λ e. address_words a.predicate b.predicate ap' bp (tail_eq e),
    λ e.
        address_words a.contract b.contract ac bc
          (append_injective _ _ _ _
            (omega (arith, length-padded_words c a.contract, length-padded_words c b.contract))
            (tail_eq e)).0,
    λ e. address_words a.predicate b.predicate ap' bp (tail_eq e),
  )

  -- For contracts and predicates with addresses of 32 bytes, the key of a contract's salt, the key
  -- of a predicate within a contract and the key of a predicate's encoding differ from each other.
  registry_keys_distinct :
      (a : PredicateAddress) (contract_ca pred_ca : ContentAddress)
      → IsAddress a.contract
      → IsAddress a.predicate
      → IsAddress contract_ca
      → (contract_salt_key c contract_ca ≢ contract_predicate_key c a)
        × (contract_salt_key c contract_ca ≢ predicate_key c pred_ca)
        × (contract_predicate_key c a ≢ predicate_key c pred_ca)
  unfolding contract_predicate_key predicate_key contract_salt_key
  registry_keys_distinct a contract_ca pred_ca ac ap' h = (
    λ e. absurd (
        omega (
          arith,
          ap length (tail_eq e),
          length-append (padded_words_from_bytes c contract_ca) (pos 0 ∷ []),
          length-append (padded_words_from_bytes c a.contract)
              (padded_words_from_bytes c a.predicate),
          length-padded_words c a.contract,
          length-padded_words c a.predicate,
          length-padded_words c contract_ca,
        )),
    λ e. cc,
    λ e. cc,
  )

  -- For contracts and predicates with addresses of 32 bytes, the key of a predicate within a contract,
  -- the key of a predicate's encoding, the key of a contract's salt and the key of a program each
  -- determine the addresses they are made of; and no key of a salt, of a predicate within a contract
  -- and of an encoding is one of another of these three kinds.
  pub registry_keys-Apart :
      (a b : PredicateAddress)
      → IsAddress a.contract
      → IsAddress a.predicate
      → IsAddress b.contract
      → IsAddress b.predicate
      → ((contract_predicate_key c a ≡ contract_predicate_key c b
            → (a.contract ≡ b.contract) × (a.predicate ≡ b.predicate))
          × (predicate_key c a.predicate ≡ predicate_key c b.predicate → a.predicate ≡ b.predicate)
          × (contract_salt_key c a.contract ≡ contract_salt_key c b.contract
              → a.contract ≡ b.contract)
          × (program_key c a.predicate ≡ program_key c b.predicate → a.predicate ≡ b.predicate))
        × ((contract_salt_key c b.contract ≢ contract_predicate_key c a)
            × (contract_salt_key c b.contract ≢ predicate_key c b.predicate)
            × (contract_predicate_key c a ≢ predicate_key c b.predicate))
  registry_keys-Apart a b ac ap' bc bp = (
    registry_keys_injective a b ac ap' bc bp,
    registry_keys_distinct a b.contract b.predicate ac ap' bc,
  )
