-- ===== src/Validate/Inner.antt =====
-- `validate_inner` of crates/node/src/validate.rs: the check of a block's solution sets, one after the
-- other. `check_set_predicates` of the crate `essential_check` is a parameter: from the states before
-- and after the set, the set, and the maps of predicates and programs, the gas used or an error.
pub mod Spec
use essential_node.Types.{ContentAddress, PredicateAddress, SolutionSet, Block, addr_eq}
use essential_node.Convert.{Convert}
use essential_node.Hashing.{Predicates}
use essential_node.Errors.{QueryError, RusqliteError}
use essential_node.Db.{Engine}
use essential_node.Validate.{State, Source}
use essential_node.Db.Pool.{AcquireError}
use essential_node.Validate.Registry.{
  SolutionSetPredicatesError, predicates_acquire, predicate_query, missing_predicate,
  QueryPredicateError, query_error, missing_len_bytes, invalid_len_bytes, decode_error,
  PredicatesProgramsError, programs_acquire, program_failed, missing_program, QueryProgramError,
  program_query, missing_program_len, invalid_program_len, query_solution_set_predicates,
  query_predicates_programs, entry,
}
use essential_node.Prelude.{
  ℕ, suc, ◌+◌, ◌^◌, Bool, true, false, Option, none, some, List, [], ◌∷◌, ltb, if◌then◌else◌, ℤ,
  Result, ok, err, Bytes, bytes_eq,
}

-- `ValidationError` of crates/node/src/error.rs, with the variants that a validation returns
pub data ValidationError : Type 0 where
  solution_set_predicates : SolutionSetPredicatesError → ValidationError
  validation_query : QueryError → ValidationError
  validation_pool_closed : AcquireError → ValidationError
  validation_rusqlite : RusqliteError → ValidationError
  validation_join : ValidationError

-- the bound of `Gas`, a `u64`
abbrev pub gas_limit : ℕ
gas_limit = 2 ^ 64

abbrev pub checked_add : ℕ → ℕ → Option ℕ
checked_add a b = if ltb (a + b) gas_limit then some (a + b) else none

module _ (CheckError : Type 0) where
  pub data ValidateFailure : Type 0 where
    no_predicate : PredicateAddress → ValidateFailure
    invalid_predicate : PredicateAddress → ValidateFailure
    no_program : ContentAddress → ValidateFailure
    invalid_program : ContentAddress → ValidateFailure
    predicates_error : CheckError → ValidateFailure
    gas_overflow : ValidateFailure

  -- `ValidOutcome` with the total gas, `InvalidOutcome` with the failure and the index of the set
  pub data ValidateOutcome : Type 0 where
    valid : ℕ → ValidateOutcome
    invalid : ValidateFailure → ℕ → ValidateOutcome

  -- what one round of the loop finds before it adds the gas: an error of the validation, a failure of
  -- the set, or the gas of the set
  pub data SetResult : Type 0 where
    stopped : ValidationError → SetResult
    failed : ValidateFailure → SetResult
    used : ℕ → SetResult

-- the answer to an error of `query_solution_set_predicates`
unfoldable pub predicates_result :
    (CheckError : Type 0) → SolutionSetPredicatesError → SetResult CheckError
predicates_result X (predicates_acquire e) = stopped (validation_pool_closed e)
predicates_result X (predicate_query addr (query_error e)) = stopped (validation_query e)
predicates_result X (predicate_query addr missing_len_bytes) = failed (invalid_predicate addr)
predicates_result X (predicate_query addr invalid_len_bytes) = failed (invalid_predicate addr)
predicates_result X (predicate_query addr decode_error) = failed (invalid_predicate addr)
predicates_result X (missing_predicate addr) = failed (no_predicate addr)

-- the answer to an error of `query_predicates_programs`
unfoldable pub programs_result :
    (CheckError : Type 0) → PredicatesProgramsError → SetResult CheckError
programs_result X (programs_acquire e) = stopped (validation_pool_closed e)
programs_result X (program_failed addr (program_query e)) = stopped (validation_query e)
programs_result X (program_failed addr missing_program_len) = failed (invalid_program addr)
programs_result X (program_failed addr invalid_program_len) = failed (invalid_program addr)
programs_result X (missing_program addr) = failed (no_program addr)

unfoldable pub check_result : (CheckError : Type 0) → Result CheckError ℕ → SetResult CheckError
check_result X (ok gas) = used gas
check_result X (err e) = failed (predicates_error e)

-- `check_set_predicates`: a lookup that yields `none` is the panic of an `expect`
pub record Checker (p : Predicates) : Type 1 where
  pub CheckError : Type 0
  pub check_set_predicates :
      State
      → State
      → SolutionSet
      → (PredicateAddress → Option p.Predicate)
      → (ContentAddress → Option Bytes)
      → Result CheckError ℕ

module _ (e : Engine) (c : Convert) (p : Predicates) (k : Checker p) where
  open k use {CheckError, check_set_predicates}

  abbrev state_at : Source → ℤ → ℕ → Bool → State
  state_at conn number ix pre = record {
    block_number = number;
    solution_set_index = ix;
    pre_state = pre;
    conn_pool = conn;
  }

  -- the body of the loop up to the sum of the gas
  unfoldable pub check_set :
      Source → ContentAddress → ContentAddress → ℤ → ℕ → SolutionSet → SetResult CheckError
  unfolding predicates_result programs_result check_result
  check_set conn contract_registry program_registry number ix set =
      let post = state_at conn number ix false in
      elim (query_solution_set_predicates c p e post contract_registry set.solutions) [
        | err f ↦ predicates_result CheckError f
        | ok predicates ↦ elim (query_predicates_programs c p e post program_registry predicates) [
          | err f ↦ programs_result CheckError f
          | ok programs ↦ check_result CheckError (
              check_set_predicates (state_at conn number ix true) post set
                (λ a. entry addr_eq a predicates) (λ a. entry bytes_eq a programs))
        ]
      ]

module _ (CheckError : Type 0) where
  -- the loop, over what it finds for each set
  unfoldable pub total_loop :
      (ℕ → SolutionSet → SetResult CheckError)
      → ℕ
      → List SolutionSet
      → ℕ
      → Result ValidationError (ValidateOutcome CheckError)
  total_loop check ix [] total_gas = ok (valid total_gas)
  total_loop check ix (set ∷ sets) total_gas = elim (check ix set) [
    | stopped e ↦ err e
    | failed f ↦ ok (invalid f ix)
    | used g ↦ elim (checked_add total_gas g) [
      | none ↦ ok (invalid gas_overflow ix)
      | some total ↦ total_loop check (suc ix) sets total
    ]
  ]

module _ (e : Engine) (c : Convert) (p : Predicates) (k : Checker p) where
  unfoldable pub validate_inner :
      Source
      → ContentAddress
      → ContentAddress
      → Block
      → Result ValidationError (ValidateOutcome k.CheckError)
  unfolding total_loop check_set
  validate_inner conn contract_registry program_registry block =
      total_loop k.CheckError
        (check_set e c p k conn contract_registry program_registry block.header.number) 0
        block.solution_sets 0
