-- ===== src/Api/Blocks.antt =====
-- The `list-blocks` and `subscribe-blocks` endpoints. The events of server-sent events are axum's:
-- `json_data` is a parameter, and an event is what it gives.
use essential_node.Types.{Block}
use essential_node.Convert.{Convert}
use essential_node.Errors.{QueryError}
use essential_node.Db.{Database, Engine}
use essential_node.Db.Pool.{ConnectionPool}
use essential_node.Db.Pool.Methods.{list_blocks}
use essential_node.Db.Subscribe.{subscribe_blocks}
use essential_node.Api.QueryState.{ApiError, conn_pool_query}
use essential_node.Prelude.{
  Bool, false, Option, none, some, List, [], ◌∷◌, map, ℤ, Result, ◌>>=◌, map_err, ok_or,
}

pub record BlockRange : Type 0 where
  pub start : ℤ
  pub end : ℤ

pub record StartBlock : Type 0 where
  pub start_block : ℤ

pub data SubscriptionError : Type 0 where
  axum_failed : SubscriptionError
  query_failed : QueryError → SubscriptionError

-- What the successive calls of `await_new_block` give: with no receiver the first one is `None`, and
-- with one they are what its `changed` gives.
unfoldable pub await_new_block : Option (List Bool) → List Bool
await_new_block none = false ∷ []
await_new_block (some changes) = changes

module _ (e : Engine) (c : Convert) where
  unfoldable pub list_blocks_handler : ConnectionPool → BlockRange → Result ApiError (List Block)
  unfolding list_blocks
  list_blocks_handler pool range =
      map_err conn_pool_query (list_blocks e c range.start range.end pool).0

  module _ {Event : Type 0} (json_data : Block → Option Event) where
    unfoldable pub event_of : Result QueryError Block → Result SubscriptionError Event
    event_of item = do block ← map_err query_failed item; ok_or (json_data block) axum_failed

    -- what the calls of `acquire` on the pool give is a list, as for `subscribe_blocks`
    unfoldable pub subscribe_blocks_handler :
        List (Option Database)
        → Option (List Bool)
        → StartBlock
        → List (Result SubscriptionError Event)
    unfolding event_of subscribe_blocks await_new_block
    subscribe_blocks_handler conns new_block query =
        map event_of (subscribe_blocks e c query.start_block conns (await_new_block new_block))
