-- ===== src/Types/Addr.antt =====
-- crates/node-types/src/block/addr.rs: the content address of a block.
use essential_node.Types.{ContentAddress, Header, Block}
use essential_node.Hashing.{Hashing}
use essential_node.Prelude.{List, map}

module _ (h : Hashing) where
  unfoldable pub from_header_and_solution_set_addrs_slice :
      Header → List ContentAddress → ContentAddress
  from_header_and_solution_set_addrs_slice header addrs =
      h.hash_block header.number header.timestamp addrs

  unfoldable pub from_header_and_solution_set_addrs : Header → List ContentAddress → ContentAddress
  unfolding from_header_and_solution_set_addrs_slice
  from_header_and_solution_set_addrs header addrs =
      from_header_and_solution_set_addrs_slice header addrs

  -- `content_addr` of a block
  unfoldable pub from_block : Block → ContentAddress
  unfolding from_header_and_solution_set_addrs
  from_block block =
      from_header_and_solution_set_addrs block.header (map h.solution_set_addr block.solution_sets)
