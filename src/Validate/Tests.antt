-- ===== src/Validate/Tests.antt =====
-- The theorems about reads and validations, at small inputs.
use essential_node.Types.{Key, Value}
use essential_node.Convert.BigEndian.{big_endian}
use essential_node.Db.{row_engine, create_tables}
use essential_node.Db.Finalized.{query_state_inclusive_solution_set, latest, writes}
use essential_node.Db.Insert.{to_sql}
use essential_node.Validate.{acquire, State, connection_pool, handle, key_range, key_range_error}
use essential_node.Validate.NextKey.{
  Advances, next_key, next_key-Advances, key_rank, keys_of_length,
}
use essential_node.Validate.KeyRange.{ReadsAt, read_in, key_range-at, key_range-Ends}
use essential_node.Validate.Inner.{validate_inner}
use essential_node.Validate.Inner.Spec.{Explains, set_check, validate_inner-Explains}
use essential_node.Samples.{predicates, checker, block_at, one_set, open_pool}
use essential_node.Prelude.{
  ◌<◌, ◌≤◌, ◌+◌, ◌⊎◌, ℕ, ◌≡◌, refl, false, List, [], ◌∷◌, arith, length, pos, negsuc, ok, err,
}

abbrev small_key : Key
small_key = pos 1 ∷ negsuc 0 ∷ []

abbrev last_key : Key
last_key = pos 0x7fff_ffff_ffff_ffff ∷ []

next_key-Advances_example : Advances small_key (next_key small_key)
next_key-Advances_example = next_key-Advances small_key (omega arith, (omega arith, tt))

abbrev after_set : State
after_set = record {
  block_number = pos 3;
  solution_set_index = 0;
  pre_state = false;
  conn_pool = connection_pool open_pool;
}

abbrev two_values : List Value
two_values = [] ∷ [] ∷ []

read_two : key_range row_engine big_endian after_set (5 ∷ []) small_key 2 ≡ ok two_values
unfolding key_range acquire query_state_inclusive_solution_set to_sql next_key latest writes
read_two = refl

key_range-at_example :
    (length two_values ≡ 2)
    × ReadsAt
        (read_in row_engine big_endian after_set (5 ∷ []) (handle create_tables))
        small_key
        two_values
        1
unfolding acquire
key_range-at_example =
    key_range-at row_engine big_endian after_set (5 ∷ []) (handle create_tables) small_key 2 1 refl
      (omega arith, (omega arith, tt)) (omega arith) read_two

-- one value from the last key of its length on
key_range-Ends_example :
    ((key_rank last_key + 1 < keys_of_length 1)
      × ((vs : List Value) × (key_range row_engine big_endian after_set (5 ∷ []) last_key 1
            ≡ ok vs)))
    ⊎ ((keys_of_length 1 ≤ key_rank last_key + 1)
        × (key_range row_engine big_endian after_set (5 ∷ []) last_key 1 ≡ err key_range_error))
unfolding acquire
key_range-Ends_example =
    key_range-Ends row_engine big_endian after_set (5 ∷ []) (handle create_tables) last_key 1 refl
      (omega arith, tt) (omega arith)

validate_inner-Explains_example :
    Explains ℕ
      (set_check row_engine big_endian predicates checker
        (connection_pool open_pool)
        (1 ∷ [])
        (2 ∷ [])
        (block_at (pos 1) (one_set ∷ [])))
      0
      (one_set ∷ [])
      0
      (validate_inner row_engine big_endian predicates checker
        (connection_pool open_pool)
        (1 ∷ [])
        (2 ∷ [])
        (block_at (pos 1) (one_set ∷ [])))
validate_inner-Explains_example =
    validate_inner-Explains row_engine big_endian predicates checker (connection_pool open_pool)
      (1 ∷ []) (2 ∷ []) (block_at (pos 1) (one_set ∷ []))
