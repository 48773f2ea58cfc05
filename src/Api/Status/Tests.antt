-- ===== src/Api/Status/Tests.antt =====
-- A request to the query-state endpoint with bounds on the block and on the set.
use essential_node.Convert.BigEndian.{big_endian}
use essential_node.Db.{row_engine}
use essential_node.Api.QueryState.{QueryStateParams, Hex, handler}
use essential_node.Api.Status.{status, handler-status}
use essential_node.Samples.{open_pool}
use essential_node.Prelude.{◌≡◌, none, some, [], ◌∷◌, pos}

-- a decoder that takes every text as it is
abbrev plain_hex : Hex
plain_hex = record { parse_address = λ b. some b; decode_hex = λ b. some b }

abbrev up_to_set : QueryStateParams
up_to_set = record {
  block_inclusive = some (pos 3);
  block_exclusive = none;
  solution_inclusive = some 1;
  solution_exclusive = none;
}

handler-status_example :
    status (handler row_engine big_endian plain_hex open_pool (5 ∷ []) (6 ∷ []) up_to_set) ≡ 200
handler-status_example =
    handler-status row_engine big_endian open_pool plain_hex (5 ∷ []) (6 ∷ []) up_to_set
