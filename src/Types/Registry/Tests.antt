-- ===== src/Types/Registry/Tests.antt =====
-- The theorems about registry keys, at addresses of 32 equal bytes.
use essential_node.Types.{ContentAddress, PredicateAddress}
use essential_node.Types.Registry.{
  contract_salt_key, contract_predicate_key, predicate_key, program_key,
}
use essential_node.Types.Registry.Keys.{IsAddress, registry_keys-Apart}
use essential_node.Convert.{IsBytes}
use essential_node.Convert.BigEndian.{big_endian, big_endian-IsConvert}
use essential_node.Prelude.{ℕ, zero, suc, ◌<◌, ◌≡◌, refl, ◌≢◌, arith, replicate}

abbrev address_of : ℕ → ContentAddress
address_of n = replicate 32 n

replicate-IsBytes : (k n : ℕ) → n < 256 → IsBytes (replicate k n)
replicate-IsBytes zero n h = tt
replicate-IsBytes (suc k) n h = (h, replicate-IsBytes k n h)

address_of-IsAddress : (n : ℕ) → n < 256 → IsAddress (address_of n)
address_of-IsAddress n h = (replicate-IsBytes 32 n h, refl)

abbrev first_address : PredicateAddress
first_address = record { contract = address_of 5; predicate = address_of 6 }

abbrev second_address : PredicateAddress
second_address = record { contract = address_of 5; predicate = address_of 8 }

registry_keys-Apart_example :
    ((contract_predicate_key big_endian first_address
          ≡ contract_predicate_key big_endian second_address
        → (address_of 5 ≡ address_of 5) × (address_of 6 ≡ address_of 8))
      × (predicate_key big_endian (address_of 6) ≡ predicate_key big_endian (address_of 8)
          → address_of 6 ≡ address_of 8)
      × (contract_salt_key big_endian (address_of 5) ≡ contract_salt_key big_endian (address_of 5)
          → address_of 5 ≡ address_of 5)
      × (program_key big_endian (address_of 6) ≡ program_key big_endian (address_of 8)
          → address_of 6 ≡ address_of 8))
    × ((contract_salt_key big_endian (address_of 5)
          ≢ contract_predicate_key big_endian first_address)
        × (contract_salt_key big_endian (address_of 5) ≢ predicate_key big_endian (address_of 8))
        × (contract_predicate_key big_endian first_address
            ≢ predicate_key big_endian (address_of 8)))
registry_keys-Apart_example =
    registry_keys-Apart big_endian big_endian-IsConvert first_address second_address
      (address_of-IsAddress 5 (omega arith)) (address_of-IsAddress 6 (omega arith))
      (address_of-IsAddress 5 (omega arith)) (address_of-IsAddress 8 (omega arith))
