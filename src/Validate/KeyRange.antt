-- ===== src/Validate/KeyRange.antt =====
-- `key_range` reads consecutive keys.
use essential_node.Types.{ContentAddress, Key, Value}
use essential_node.Convert.{Convert, AreWords}
use essential_node.Errors.{QueryError, rusqlite}
use essential_node.Db.{Engine, Database}
use essential_node.Db.Finalized.{query_state_exclusive_solution_set, query_state_inclusive_block}
use essential_node.Db.Insert.{sql_integer_limit, to_sql}
use essential_node.Validate.{
  State, Query, Transaction, cascade, handle, query_failed, key_range_error, acquire, query,
  query_state, unwrap_or_default, key_range_loop, key_range,
}
use essential_node.Validate.NextKey.{
  next_key, key_rank, keys_of_length, Advances, next_key-Advances, key_rank-lt,
}
use essential_node.Prelude.{
  ℕ, zero, suc, ◌+◌, ◌<◌, ◌≡◌, subst, Option, some, List, ◌∷◌, length, get_elem?, Result, ok, ◌≤◌,
  refl, ap, ◌∙◌, [], arith, err, map_err, ok_or, >>=-eq-ok, map_err-eq-ok, ok_or-eq-ok, inl, inr,
  Option-cases, Bool, true, false, lt→ltb, le_or_lt, ◌⊎◌, ℤ, checked_dec, none, ◌>>=◌,
}

-- the `i`-th value is what the `i`-th key from here on holds
abbrev pub ReadsAt : (Key → Result QueryError (Option Value)) → Key → List Value → ℕ → Type 0
ReadsAt read key vs i =
    (k : Key) × (found : Option Value) × (key_rank k ≡ key_rank key + i)
    × (length k ≡ length key)
    × (read k ≡ ok found)
    × (get_elem? vs i ≡ some (unwrap_or_default found))

Advances-some :
    (key : Key) {key' : Key} → AreWords key → next_key key ≡ some key' → Advances key (some key')
Advances-some key h e = subst (Advances key) e (next_key-Advances key h)

module _ (read : Key → Result QueryError (Option Value)) where
  -- what a successful step of the loop did
  loop_step :
      (n : ℕ) (key : Key) {vs : List Value}
      → key_range_loop read (suc n) key ≡ ok vs
      → (found : Option Value) × (key' : Key) × (rest : List Value) × (read key ≡ ok found)
        × (next_key key ≡ some key')
        × (key_range_loop read n key' ≡ ok rest)
        × (vs ≡ unwrap_or_default found ∷ rest)
  unfolding key_range_loop
  loop_step n key e =
      let (found, e1, f1) = >>=-eq-ok (map_err query_failed (read key)) _ e in
      let (key', e2, f2) = >>=-eq-ok (ok_or (next_key key) key_range_error) _ f1 in
      let (rest, e3, f3) = >>=-eq-ok (key_range_loop read n key') _ f2 in
      (
        found,
        key',
        rest,
        map_err-eq-ok query_failed (read key) e1,
        ok_or-eq-ok (next_key key) key_range_error e2,
        e3,
        cc,
      )

  length-loop :
      (n : ℕ) (key : Key) {vs : List Value} → key_range_loop read n key ≡ ok vs → length vs ≡ n
  unfolding key_range_loop
  length-loop zero key {vs = []} e = refl
  length-loop zero key {vs = v ∷ vs} e = cc
  length-loop (suc n) key e =
      let (found, key', rest, r, k, l, v) = loop_step n key e in
      ap length v ∙ ap suc (length-loop n key' l)

  loop-at :
      (n : ℕ) (key : Key) {vs : List Value} (i : ℕ)
      → AreWords key
      → i < n
      → key_range_loop read n key ≡ ok vs
      → ReadsAt read key vs i
  loop-at zero key i h l e = absurd (omega arith)
  loop-at (suc n) key zero h l e =
      let (found, key', rest, r, k, l, v) = loop_step n key e in
      (key, found, omega arith, refl, r, ap (λ us. get_elem? us 0) v)
  loop-at (suc n) key (suc i) h l e =
      let (found, key', rest, r, k, more, v) = loop_step n key e in
      let next = Advances-some key h k in
      let (k', found', rank, size, r', at) = loop-at n key' i next.2 (omega arith) more in
      (
        k',
        found',
        omega (arith, rank, next.0),
        size ∙ next.1,
        r',
        ap (λ us. get_elem? us (suc i)) v ∙ at,
      )

  -- reads that all succeed: the loop ends well exactly where a key is left after the last one read
  loop-ok :
      ((k : Key) → (found : Option Value) × (read k ≡ ok found))
      → (n : ℕ) (key : Key) → AreWords key
      → key_rank key + n < keys_of_length (length key)
      → (vs : List Value) × (key_range_loop read n key ≡ ok vs)
  unfolding key_range_loop
  loop-ok reads zero key h l = ([], refl)
  loop-ok reads (suc n) key h l = elim (Option-cases (next_key key)) [
    | inl last ↦ absurd (omega (arith, subst (Advances key) last (next_key-Advances key h)))
    | inr (key', next) ↦
        let found = reads key in
        let a = Advances-some key h next in
        let rest = loop-ok reads n key' a.2 (rw a.1 (omega (arith, a.0))) in
        (unwrap_or_default found.0 ∷ rest.0, rw (found.1, next, rest.1))
  ]

  loop-err :
      ((k : Key) → (found : Option Value) × (read k ≡ ok found))
      → (n : ℕ) (key : Key) → AreWords key
      → keys_of_length (length key) ≤ key_rank key + n
      → key_range_loop read n key ≡ err key_range_error
  unfolding key_range_loop
  loop-err reads zero key h l = absurd (omega (arith, key_rank-lt key h))
  loop-err reads (suc n) key h l = elim (Option-cases (next_key key)) [
    | inl last ↦ rw ((reads key).1, last)
    | inr (key', next) ↦
        let a = Advances-some key h next in
        rw ((reads key).1, next) (rw (loop-err reads n key' a.2 (rw a.1 (omega (arith, a.0)))))
  ]

returns :
    {A B E : Type 0} (m : Result E A) (f : A → B) {a : A}
    → m ≡ ok a
    → (b : B) × ((m >>= λ x. ok (f x)) ≡ ok b)
returns m f {a} h = (f a, rw h)

-- with an index that fits an SQL integer a query has a result
query_state-ok :
    (e : Engine) (c : Convert) (contract : ContentAddress) (number : ℤ) (ix : ℕ) (pre : Bool)
    → ix < sql_integer_limit
    → (k : Key) (db : Database)
    → (found : Option Value) × (query_state e c contract k number ix pre db ≡ ok found)
unfolding query_state query_state_exclusive_solution_set to_sql
query_state-ok e c contract number ix false h k db =
    returns (map_err rusqlite (to_sql ix)) _ {a = ix} (rw (lt→ltb ix sql_integer_limit h))
query_state-ok e c contract number (suc ix) true h k db =
    returns (map_err rusqlite (to_sql ix)) _ {a = ix}
      (rw (lt→ltb ix sql_integer_limit (omega arith)))
query_state-ok e c contract number zero true h k db = block_case (checked_dec number)
  where
    block_case :
        (n : Option ℤ)
        → (found : Option Value) × (elim n [
          | some m ↦ query_state_inclusive_block e c contract k m db
          | none ↦ ok none
        ]
            ≡ ok found)
    block_case none = (none, refl)
    block_case (some m) = (_, refl)

query-ok :
    (tx : Transaction) (f : Query)
    → ((db : Database) → (found : Option Value) × (f db ≡ ok found))
    → (found : Option Value) × (query tx f ≡ ok found)
unfolding query
query-ok (handle db) f h = h db
query-ok (cascade memory db) f h = elim (Option-cases (h memory).0) [
  | inl e ↦ ((h db).0, rw ((h memory).1, e) (h db).1)
  | inr (v, e) ↦ (some v, rw ((h memory).1, e))
]

module _ (e : Engine) (c : Convert) (state : State) (contract : ContentAddress) where
  -- the read of a key in a transaction of the state
  abbrev pub read_in : Transaction → Key → Result QueryError (Option Value)
  read_in tx k =
      query tx
        (query_state e c contract k state.block_number state.solution_set_index state.pre_state)

  reads_in :
      (tx : Transaction)
      → state.solution_set_index < sql_integer_limit
      → (k : Key) → (found : Option Value) × (read_in tx k ≡ ok found)
  reads_in tx h k =
      query-ok tx _ (
        query_state-ok e c contract state.block_number state.solution_set_index state.pre_state h k)

  -- With an open pool and a key of words, a `key_range` that succeeds has as many values as were
  -- asked for, and the value at a place `i` below that number is what the query finds under the
  -- `i`-th key from the given one on, empty where it finds none.
  pub key_range-at :
      (tx : Transaction) (key : Key) (n i : ℕ) {vs : List Value}
      → acquire state.conn_pool ≡ ok tx
      → AreWords key
      → i < n
      → key_range e c state contract key n ≡ ok vs
      → (length vs ≡ n) × ReadsAt (read_in tx) key vs i
  unfolding key_range
  key_range-at tx key n i a h l r =
      let r' = rw a at r in (length-loop (read_in tx) n key r', loop-at (read_in tx) n key i h l r')

  -- With an open pool, an index of the set below 2^63 and a key of words there are two cases. Either a
  -- key of the same length is left after the last one of the range, and the range is read; or there is
  -- none, and reading it is the error of a key range, also where the range just ends at the last key:
  -- the loop asks for the key after that too.
  pub key_range-Ends :
      (tx : Transaction) (key : Key) (n : ℕ)
      → acquire state.conn_pool ≡ ok tx
      → AreWords key
      → state.solution_set_index < sql_integer_limit
      → ((key_rank key + n < keys_of_length (length key))
          × ((vs : List Value) × (key_range e c state contract key n ≡ ok vs)))
        ⊎ ((keys_of_length (length key) ≤ key_rank key + n)
            × (key_range e c state contract key n ≡ err key_range_error))
  unfolding key_range
  key_range-Ends tx key n a h small =
      elim (le_or_lt (keys_of_length (length key)) (key_rank key + n)) [
        | inl past ↦ inr (past, rw a (loop-err (read_in tx) (reads_in tx small) n key h past))
        | inr left ↦
            let (vs, r) = loop-ok (read_in tx) (reads_in tx small) n key h left in
            inl (left, (vs, rw a r))
      ]
