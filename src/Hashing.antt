-- ===== src/Hashing.antt =====
-- What the node takes from the crates `essential_hash` and `essential_types` without their source
-- being part of the repository: content addresses, predicates and their encoding.
use essential_node.Types.{ContentAddress, SolutionSet, Duration}
use essential_node.Prelude.{Option, List, ℤ, Bytes}

-- `content_addr` of a solution set, and `hash` of a block's number, timestamp and set addresses
pub record Hashing : Type 0 where
  pub solution_set_addr : SolutionSet → ContentAddress
  pub hash_block : ℤ → Duration → List ContentAddress → ContentAddress

-- `Predicate`, with the program addresses of its nodes and its byte encoding; content addresses of
-- predicates, programs and contracts (the predicates and the salt)
pub record Predicates : Type 1 where
  pub Predicate : Type 0
  pub program_addresses : Predicate → List ContentAddress
  pub encode : Predicate → Option Bytes
  pub decode : Bytes → Option Predicate
  pub predicate_addr : Predicate → ContentAddress
  pub program_addr : Bytes → ContentAddress
  pub contract_addr : List Predicate → Bytes → ContentAddress
