-- ===== src/Validation/Termination/Tests.antt =====
-- The loop over the available blocks, at a chain of two blocks of which the second is finalized.
use essential_node.Types.{SolutionSet, Block, ContentAddress}
use essential_node.Types.Addr.{from_block}
use essential_node.Convert.BigEndian.{big_endian}
use essential_node.Errors.{QueryError, rusqlite, invalid_column_type}
use essential_node.Db.{BlockRow, create_tables, row_engine}
use essential_node.Db.Statements.{find_block}
use essential_node.Db.Query.{
  get_latest_finalized_block_address, get_block, get_hash, get_solution_set, get_block_header,
}
use essential_node.Db.Pool.{ConnectionPool}
use essential_node.Validation.Errors.{InternalError}
use essential_node.Validation.Step.{Failing, latest_number, validate_available}
use essential_node.Validation.Next.{UniqueRows, pair-UniqueRows}
use essential_node.Validation.GoesOn.{Steady}
use essential_node.Validation.Termination.{validate_available-Ends}
use essential_node.Samples.{hashing, predicates, checker, block_at, row_engine-IsScan}
use essential_node.Prelude.{
  ℕ, ◌≡◌, sym, ap, ◌∙◌, inl, inr, false, Option, some, [], ◌∷◌, arith, Bool-cases, ℤ, pos, ok,
  Bytes, bytes_eq, bytes_eq_iff, refl, subst, none, Result, err, some-eq-some, ok-eq-ok,
}

abbrev row_of : ℕ → ℤ → Bytes → BlockRow
row_of id number address = record {
  id = id;
  block_address = address;
  parent_block_id = 0;
  number = number;
  timestamp_secs = 10;
  timestamp_nanos = 500;
}

-- the reads after the move of the progress succeed
abbrev quiet : Failing
quiet db = none

abbrev start_row : BlockRow
start_row = row_of 1 (pos 0) (0 ∷ [])

abbrev next_row : BlockRow
next_row = row_of 2 (pos 1) (1 ∷ 10 ∷ 500 ∷ 0 ∷ [])

abbrev empty_set : SolutionSet
empty_set = record { solutions = [] }

abbrev next_block : Block
next_block = block_at (pos 1) (empty_set ∷ [])

abbrev chain : ConnectionPool
chain = record {
  database = record create_tables {
    block = start_row ∷ next_row ∷ [];
    finalized_block = record { block_number = pos 1; block_id = 2 } ∷ [];
    solution_set = record { id = 1; content_addr = 0 ∷ [] } ∷ [];
    block_solution_set = record { block_id = 2; solution_set_id = 1; solution_set_index = 0 } ∷ [];
    progress = some 1;
  };
  closed = false;
}

chain_rows_unique : UniqueRows chain.database.block
chain_rows_unique = pair-UniqueRows start_row next_row (λ e. omega (arith, e)) (λ e. absurd cc)

-- what is read at an address, whatever the progress
abbrev read_at : ContentAddress → Option ℕ → Result QueryError (Option Block)
read_at a progress =
    get_block row_engine big_endian a (record chain.database { progress = progress })

start_unreadable :
    (progress : Option ℕ) → read_at (0 ∷ []) progress ≡ err (rusqlite invalid_column_type)
unfolding get_block get_block_header find_block get_hash get_solution_set bytes_eq
start_unreadable progress = refl

next_read : (progress : Option ℕ) → read_at next_row.block_address progress ≡ ok (some next_block)
unfolding get_block get_block_header find_block get_hash get_solution_set bytes_eq
next_read progress = refl

next_address : from_block hashing next_block ≡ next_row.block_address
unfolding from_block
next_address = refl

none_read :
    (a : ContentAddress) (progress : Option ℕ)
    → bytes_eq (0 ∷ []) a ≡ false
    → bytes_eq next_row.block_address a ≡ false
    → read_at a progress ≡ ok none
unfolding get_block get_block_header find_block
none_read a progress miss miss' = rw (miss, get_block, get_block_header, find_block) (rw miss' refl)

chain_addressed :
    (a : ContentAddress) (block : Block) (progress : Option ℕ)
    → read_at a progress ≡ ok (some block)
    → from_block hashing block ≡ a
chain_addressed a block progress read = elim (Bool-cases (bytes_eq (0 ∷ []) a)) [
  | inl hit ↦
      let fails =
        subst (λ a. read_at a progress ≡ err (rusqlite invalid_column_type))
          ((bytes_eq_iff (0 ∷ []) a).0 hit) (start_unreadable progress) in
      absurd cc
  | inr miss ↦ elim (Bool-cases (bytes_eq next_row.block_address a)) [
    | inl hit ↦
        let is = (bytes_eq_iff next_row.block_address a).0 hit in
        let gives =
          subst (λ a. read_at a progress ≡ ok (some next_block)) is (next_read progress) in
        ap (from_block hashing) (some-eq-some (ok-eq-ok (sym read ∙ gives))) ∙ next_address ∙ is
    | inr miss' ↦ let nothing = none_read a progress miss miss' in absurd cc
  ]
]

chain-Steady :
    Steady big_endian hashing row_engine predicates checker quiet (1 ∷ []) (2 ∷ []) start_row chain
chain-Steady = record {
  opened = refl;
  at = record { there = inl refl; progress = refl };
  unique = chain_rows_unique;
  addressed = chain_addressed;
}

chain_latest : latest_number big_endian hashing row_engine chain.database ≡ some (pos 1)
unfolding latest_number get_latest_finalized_block_address get_block_header bytes_eq
chain_latest = refl

validate_available-Ends_example :
    (out : Result InternalError (Unit {0}) × ConnectionPool) × (validate_available big_endian
        hashing row_engine predicates checker quiet
        (1 ∷ [])
        (2 ∷ [])
        1
        chain
      ≡ some out)
validate_available-Ends_example =
    validate_available-Ends big_endian hashing row_engine predicates checker quiet (1 ∷ []) (2 ∷ [])
      row_engine-IsScan 0 start_row chain chain-Steady (rw chain_latest (omega arith))
