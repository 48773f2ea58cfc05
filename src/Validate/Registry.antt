-- ===== src/Validate/Registry.antt =====
-- The predicates and programs that a solution set needs, from the registries' state:
-- `query_predicate`, `query_program` and the two loops over them in crates/node/src/validate.rs. A
-- `HashMap` is an association list of distinct keys; the order in which it yields its values is the
-- engine's.
pub mod RoundTrip
mod Tests
use essential_node.Types.{ContentAddress, PredicateAddress, Key, Value, Solution, addr_eq}
use essential_node.Types.Registry.{contract_predicate_key, predicate_key, program_key}
use essential_node.Convert.{Convert}
use essential_node.Hashing.{Predicates}
use essential_node.Errors.{QueryError}
use essential_node.Db.{Engine}
use essential_node.Db.Pool.{AcquireError}
use essential_node.Validate.{State, Transaction, Query, query, query_state, acquire}
use essential_node.Prelude.{
  ℕ, Bool, not, Option, none, some, List, [], ◌∷◌, if◌then◌else◌, take, select, flat, ℤ, pos,
  negsuc, Result, ok, err, ◌>>=◌, ◌>>◌, map_err, ok_or, Bytes, false, bytes_eq,
}

-- `QueryPredicateError` and `QueryProgramError` of crates/node/src/error.rs
pub data QueryPredicateError : Type 0 where
  query_error : QueryError → QueryPredicateError
  missing_len_bytes invalid_len_bytes decode_error : QueryPredicateError

pub data QueryProgramError : Type 0 where
  program_query : QueryError → QueryProgramError
  missing_program_len invalid_program_len : QueryProgramError

pub data SolutionSetPredicatesError : Type 0 where
  predicates_acquire : AcquireError → SolutionSetPredicatesError
  predicate_query : PredicateAddress → QueryPredicateError → SolutionSetPredicatesError
  missing_predicate : PredicateAddress → SolutionSetPredicatesError

pub data PredicatesProgramsError : Type 0 where
  programs_acquire : AcquireError → PredicatesProgramsError
  program_failed : ContentAddress → QueryProgramError → PredicatesProgramsError
  missing_program : ContentAddress → PredicatesProgramsError

-- `usize::try_from` of a word
abbrev pub to_usize : ℤ → Option ℕ
to_usize (pos n) = some n
to_usize (negsuc n) = none

-- the entry of an association list
abbrev pub entry {ℓ} : {K V : Type ℓ} → (K → K → Bool) → K → List (K × V) → Option V
entry eq k [] = none
entry eq k ((j, v) ∷ m) = if eq j k then some v else entry eq k m

-- `insert`
abbrev pub put_entry : {K V : Type 0} → (K → K → Bool) → K → V → List (K × V) → List (K × V)
put_entry eq k v m = (k, v) ∷ select (λ f. not (eq f.0 k)) m

-- the query of both functions, which includes the solution set
abbrev pub read_post :
    Engine → Convert → State → ContentAddress → Transaction → Key → Result QueryError (Option Value)
read_post e c state registry tx k =
    query tx (query_state e c registry k state.block_number state.solution_set_index false)

module _ (c : Convert) where
  -- the first `len` bytes of the words
  unfoldable pub cut_bytes : ℕ → List ℤ → Bytes
  cut_bytes len words = take len (flat c.bytes_from_word words)

  -- what `query_program` makes of the words under the program's key
  unfoldable pub read_program : Option Value → Result QueryProgramError (Option Bytes)
  unfolding cut_bytes
  read_program none = ok none
  read_program (some []) = err missing_program_len
  read_program (some (len ∷ words)) = do
    n ← ok_or (to_usize len) invalid_program_len
    ok (some (cut_bytes n words))

  unfoldable pub query_program :
      (Key → Result QueryError (Option Value))
      → ContentAddress
      → Result QueryProgramError (Option Bytes)
  unfolding read_program
  query_program read prog_addr = do
    found ← map_err program_query (read (program_key c prog_addr))
    read_program found

  module _ (p : Predicates) where
    open p use {Predicate, decode, program_addresses}

    -- what `query_predicate` makes of the words under the predicate's key
    unfoldable pub read_predicate : Option Value → Result QueryPredicateError (Option Predicate)
    unfolding cut_bytes
    read_predicate none = ok none
    read_predicate (some []) = err missing_len_bytes
    read_predicate (some (len ∷ words)) = do
      n ← ok_or (to_usize len) invalid_len_bytes
      pred ← ok_or (decode (cut_bytes n words)) decode_error
      ok (some pred)

    -- whether the predicate is registered in its contract, and then the predicate
    unfoldable pub query_predicate :
        (Key → Result QueryError (Option Value))
        → PredicateAddress
        → Result QueryPredicateError (Option Predicate)
    unfolding read_predicate
    query_predicate read pred_addr = do
      registered ← map_err query_error (read (contract_predicate_key c pred_addr))
      let rest : Result QueryPredicateError (Option Predicate) = do
        found ← map_err query_error (read (predicate_key c pred_addr.predicate))
        read_predicate found
      elim registered [ none ↦ ok none | some v ↦ rest ]

    -- the loop over the solutions; `predicates` is the map so far
    unfoldable pub predicates_loop :
        (PredicateAddress → Result QueryPredicateError (Option Predicate))
        → List Solution
        → List (PredicateAddress × Predicate)
        → Result SolutionSetPredicatesError (List (PredicateAddress × Predicate))
    predicates_loop find_pred [] predicates = ok predicates
    predicates_loop find_pred (s ∷ ss) predicates = do
      found ← map_err (predicate_query s.predicate_to_solve) (find_pred s.predicate_to_solve)
      pred ← ok_or found (missing_predicate s.predicate_to_solve)
      predicates_loop find_pred ss (put_entry addr_eq s.predicate_to_solve pred predicates)

    -- the loop over the program addresses of the predicates' nodes
    unfoldable pub programs_loop :
        (ContentAddress → Result QueryProgramError (Option Bytes))
        → List ContentAddress
        → List (ContentAddress × Bytes)
        → Result PredicatesProgramsError (List (ContentAddress × Bytes))
    programs_loop find_prog [] programs = ok programs
    programs_loop find_prog (a ∷ rest) programs = do
      found ← map_err (program_failed a) (find_prog a)
      prog ← ok_or found (missing_program a)
      programs_loop find_prog rest (put_entry bytes_eq a prog programs)

    module _ (e : Engine) where
      unfoldable pub query_solution_set_predicates :
          State
          → ContentAddress
          → List Solution
          → Result SolutionSetPredicatesError (List (PredicateAddress × Predicate))
      unfolding predicates_loop query_predicate
      query_solution_set_predicates state registry solutions = do
        tx ← map_err predicates_acquire (acquire state.conn_pool)
        predicates_loop (query_predicate (read_post e c state registry tx)) solutions []

      unfoldable pub query_predicates_programs :
          State
          → ContentAddress
          → List (PredicateAddress × Predicate)
          → Result PredicatesProgramsError (List (ContentAddress × Bytes))
      unfolding programs_loop query_program
      query_predicates_programs state registry predicates = do
        tx ← map_err programs_acquire (acquire state.conn_pool)
        programs_loop (query_program (read_post e c state registry tx))
            (flat (λ (v : PredicateAddress × Predicate). program_addresses v.1)
              (e.scan (PredicateAddress × Predicate) predicates))
            []
