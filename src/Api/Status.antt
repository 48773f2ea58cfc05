-- ===== src/Api/Status.antt =====
-- The status of a response of the `query-state` endpoint of crates/node-api/src/endpoint.rs.
mod Tests
use essential_node.Types.{ContentAddress, Key, Value}
use essential_node.Convert.{Convert}
use essential_node.Blob.{key_words_from_bytes}
use essential_node.Errors.{QueryError}
use essential_node.Db.{Database, Engine}
use essential_node.Db.Insert.{sql_integer_limit, to_sql}
use essential_node.Db.Finalized
use essential_node.Db.Query
use essential_node.Db.Pool.{ConnectionPool, AcquireThenError, acquire_then, acquire_pool}
use essential_node.Db.Pool.Methods.{
  reading, latest_value, query_latest_finalized_block, query_state_finalized_inclusive_block,
  query_state_finalized_exclusive_block, query_state_finalized_inclusive_solution_set,
  query_state_finalized_exclusive_solution_set,
}
use essential_node.Api.QueryState.{
  QueryStateParams, ApiError, hex_decode, conn_pool_query, invalid_query_parameters, Hex,
  status_code, select_query, handler,
}
use essential_node.Prelude.{
  ℕ, ◌-◌, ◌≡◌, refl, inl, inr, Bool, true, false, not, ◌&&◌, ◌||◌, Option, none, some, ltb,
  if◌then◌else◌, Bool-cases, Option-cases, ℤ, checked_dec, Result, ok, err, map_err, Result-cases,
  zero, suc, ap, ◌∙◌, ◌>>=◌, ◌>>◌, ok_or, Bytes,
}

abbrev pub status : {A : Type 0} → Result ApiError A → ℕ
status (ok a) = 200
status (err e) = status_code e

abbrev pub is_some : {A : Type 0} → Option A → Bool
is_some none = false
is_some (some a) = true

-- what the help says of the parameters: at most one bound on the block, and at most one on the
-- solution set, which needs the inclusive bound on the block
abbrev pub documented : Option ℤ → Option ℤ → Option ℕ → Option ℕ → Bool
documented block_inclusive block_exclusive solution_inclusive solution_exclusive =
    not (is_some block_inclusive && is_some block_exclusive)
    && (not (is_some solution_inclusive && is_some solution_exclusive)
        && (not (is_some solution_inclusive || is_some solution_exclusive)
            || is_some block_inclusive))

-- the greatest index of a set that is asked for fits an SQL integer
abbrev pub index_fits : Option ℕ → Option ℕ → Bool
index_fits (some ix) solution_exclusive = ltb ix sql_integer_limit
index_fits none (some zero) = true
index_fits none (some (suc ix)) = ltb ix sql_integer_limit
index_fits none none = true

-- the status of a request that is well formed or not, to a server that can answer it or not
abbrev pub expected_status : Bool → Bool → ℕ
expected_status well_formed can_answer =
    if well_formed then (if can_answer then 200 else 500) else 400

abbrev pub succeeds : {E A : Type 0} → Result E A → Bool
succeeds (ok a) = true
succeeds (err e) = false

module _ (e : Engine) (c : Convert) (pool : ConnectionPool) where
  reading-status :
      (f : Database → Result QueryError (Option Value))
      → status (map_err conn_pool_query (acquire_then pool (reading f)).0)
        ≡ expected_status true (not pool.closed && succeeds (f pool.database))
  unfolding acquire_then acquire_pool status_code
  reading-status f = elim (Bool-cases pool.closed) [
    | inl closed ↦ rw closed refl
    | inr opened ↦ elim (Result-cases (f pool.database)) [
      | inl (v, reads) ↦ rw opened (rw reads refl)
      | inr (failure, fails) ↦ rw opened (rw fails refl)
    ]
  ]

  latest_value-succeeds :
      (ca : ContentAddress) (key : Key) (db : Database)
      → succeeds (latest_value e c ca key db) ≡ true
  unfolding Finalized.query_state_inclusive_block
  latest_value-succeeds ca key db =
      elim (Option-cases (Query.get_latest_finalized_block_address e db)) [
        | inl no_block ↦ rw (succeeds, no_block) refl
        | inr (address, latest) ↦ elim (Option-cases (Query.get_block_header address db)) [
          | inl no_header ↦ rw (succeeds, latest) (rw (succeeds, no_header) refl)
          | inr (header, found) ↦ rw (succeeds, latest) (rw (succeeds, found) refl)
        ]
      ]

  exclusive_block-succeeds :
      (ca : ContentAddress) (key : Key) (n : ℤ) (db : Database)
      → succeeds (Finalized.query_state_exclusive_block e c ca key n db) ≡ true
  unfolding Finalized.query_state_exclusive_block
  exclusive_block-succeeds ca key n db = elim (Option-cases (checked_dec n)) [
    | inl least ↦ rw (Finalized.query_state_exclusive_block, least) refl
    | inr (m, before) ↦ rw (Finalized.query_state_exclusive_block, before) refl
  ]

  inclusive_solution_set-succeeds :
      (ca : ContentAddress) (key : Key) (n : ℤ) (ix : ℕ) (db : Database)
      → succeeds (Finalized.query_state_inclusive_solution_set e c ca key n ix db)
        ≡ ltb ix sql_integer_limit
  unfolding Finalized.query_state_inclusive_solution_set to_sql
  inclusive_solution_set-succeeds ca key n ix db = elim (Bool-cases (ltb ix sql_integer_limit)) [
    | inl fits ↦ rw fits refl
    | inr large ↦ rw large refl
  ]

  abbrev answer :
      Option (ConnectionPool → Result (AcquireThenError QueryError) (Option Value) × ConnectionPool)
      → QueryStateParams
      → Result ApiError (Option Value)
  answer query params = do
    q ← ok_or query (invalid_query_parameters params)
    map_err conn_pool_query (q pool).0

  selected-status :
      (ca : ContentAddress) (key : Key) (params : QueryStateParams) (bi be : Option ℤ)
      (si se : Option ℕ)
      → status (answer (select_query e c bi be si se ca key) params)
        ≡ expected_status (documented bi be si se) (not pool.closed && index_fits si se)
  unfolding select_query status_code Finalized.query_state_inclusive_block
      Finalized.query_state_exclusive_solution_set query_latest_finalized_block
      query_state_finalized_inclusive_block query_state_finalized_exclusive_block
      query_state_finalized_inclusive_solution_set query_state_finalized_exclusive_solution_set
  selected-status ca key params none none none none =
      reading-status (latest_value e c ca key)
      ∙ ap (λ b. expected_status true (not pool.closed && b))
          (latest_value-succeeds ca key pool.database)
  selected-status ca key params (some n) none none none =
      reading-status (Finalized.query_state_inclusive_block e c ca key n)
  selected-status ca key params none (some n) none none =
      reading-status (Finalized.query_state_exclusive_block e c ca key n)
      ∙ ap (λ b. expected_status true (not pool.closed && b))
          (exclusive_block-succeeds ca key n pool.database)
  selected-status ca key params (some n) none (some ix) none =
      reading-status (Finalized.query_state_inclusive_solution_set e c ca key n ix)
      ∙ ap (λ b. expected_status true (not pool.closed && b))
          (inclusive_solution_set-succeeds ca key n ix pool.database)
  selected-status ca key params (some n) none none (some zero) =
      reading-status (Finalized.query_state_exclusive_solution_set e c ca key n 0)
      ∙ ap (λ b. expected_status true (not pool.closed && b))
          (exclusive_block-succeeds ca key n pool.database)
  selected-status ca key params (some n) none none (some (suc ix)) =
      reading-status (Finalized.query_state_exclusive_solution_set e c ca key n (suc ix))
      ∙ ap (λ b. expected_status true (not pool.closed && b))
          (inclusive_solution_set-succeeds ca key n ix pool.database)
  selected-status ca key params none none none (some ix) = refl
  selected-status ca key params none none (some ix) none = refl
  selected-status ca key params none none (some ix) (some jx) = refl
  selected-status ca key params none (some n) none (some ix) = refl
  selected-status ca key params none (some n) (some ix) none = refl
  selected-status ca key params none (some n) (some ix) (some jx) = refl
  selected-status ca key params (some n) none (some ix) (some jx) = refl
  selected-status ca key params (some n) (some m) none none = refl
  selected-status ca key params (some n) (some m) none (some ix) = refl
  selected-status ca key params (some n) (some m) (some ix) none = refl
  selected-status ca key params (some n) (some m) (some ix) (some jx) = refl

  -- A request to `query-state` is answered with the status 400 exactly where the contract address or
  -- the key cannot be decoded or the parameters are none of the documented combinations. Any other
  -- request is answered with 200 where the pool is open and the greatest index of a solution set
  -- that is asked for is below 2^63, and with 500 otherwise.
  pub handler-status :
      (hex : Hex) (contract_ca key : Bytes) (params : QueryStateParams)
      → status (handler e c hex pool contract_ca key params)
        ≡ expected_status
            (is_some (hex.parse_address contract_ca)
              && (is_some (hex.decode_hex key)
                  && documented params.block_inclusive params.block_exclusive
                      params.solution_inclusive params.solution_exclusive))
            (not pool.closed && index_fits params.solution_inclusive params.solution_exclusive)
  unfolding handler status_code
  handler-status hex contract_ca key params = elim (Option-cases (hex.parse_address contract_ca)) [
    | inl not_parsed ↦ rw not_parsed refl
    | inr (ca, parsed) ↦ elim (Option-cases (hex.decode_hex key)) [
      | inl not_decoded ↦ rw parsed (rw not_decoded refl)
      | inr (bytes, decoded) ↦ rw parsed (
          rw decoded (
            selected-status ca (key_words_from_bytes c bytes) params params.block_inclusive
              params.block_exclusive params.solution_inclusive params.solution_exclusive))
    ]
  ]
