-- ===== src/Api/QueryState.antt =====
-- Which query the parameters of a request to `query-state` ask for.
use essential_node.Types.{ContentAddress, Key, Value}
use essential_node.Convert.{Convert}
use essential_node.Blob.{key_words_from_bytes}
use essential_node.Errors.{QueryError}
use essential_node.Db.{Engine}
use essential_node.Db.Pool.{ConnectionPool, AcquireThenError}
use essential_node.Db.Pool.Methods.{
  Call, query_latest_finalized_block, query_state_finalized_inclusive_block,
  query_state_finalized_exclusive_block, query_state_finalized_inclusive_solution_set,
  query_state_finalized_exclusive_solution_set,
}
use essential_node.Prelude.{ℕ, Option, none, some, ℤ, Result, ◌>>=◌, map_err, ok_or, Bytes}

pub record QueryStateParams : Type 0 where
  pub block_inclusive : Option ℤ
  pub block_exclusive : Option ℤ
  pub solution_inclusive : Option ℕ
  pub solution_exclusive : Option ℕ

pub data ApiError : Type 0 where
  hex_decode : ApiError
  conn_pool_query : AcquireThenError QueryError → ApiError
  invalid_query_parameters : QueryStateParams → ApiError

-- `contract_ca.parse()` and `hex::decode`
pub record Hex : Type 0 where
  pub parse_address : Bytes → Option ContentAddress
  pub decode_hex : Bytes → Option Bytes

-- the status code of a response to an error
unfoldable pub status_code : ApiError → ℕ
status_code (conn_pool_query e) = 500
status_code hex_decode = 400
status_code (invalid_query_parameters p) = 400

module _ (e : Engine) (c : Convert) where
  -- the `match` on the parameters
  unfoldable pub select_query :
      Option ℤ
      → Option ℤ
      → Option ℕ
      → Option ℕ
      → ContentAddress
      → Key
      → Option (Call QueryError (Option Value))
  select_query (some block) none none none ca key =
      some (query_state_finalized_inclusive_block e c ca key block)
  select_query none (some block) none none ca key =
      some (query_state_finalized_exclusive_block e c ca key block)
  select_query (some block) none (some ix) none ca key =
      some (query_state_finalized_inclusive_solution_set e c ca key block ix)
  select_query (some block) none none (some ix) ca key =
      some (query_state_finalized_exclusive_solution_set e c ca key block ix)
  select_query none none none none ca key = some (query_latest_finalized_block e c ca key)
  select_query _ _ _ _ ca key = none

  unfoldable pub handler :
      Hex → ConnectionPool → Bytes → Bytes → QueryStateParams → Result ApiError (Option Value)
  handler hex pool contract_ca key params = do
    ca ← ok_or (hex.parse_address contract_ca) hex_decode
    bytes ← ok_or (hex.decode_hex key) hex_decode
    query ←
        ok_or
          (select_query params.block_inclusive params.block_exclusive params.solution_inclusive
            params.solution_exclusive ca (key_words_from_bytes c bytes))
          (invalid_query_parameters params)
    map_err conn_pool_query (query pool).0
