-- ===== src/Types.antt =====
-- The data of the protocol: `Block` and `Header` of crates/node-types/src/block.rs, and the types of
-- the crate `essential_types` that the node builds and takes apart field by field.
pub mod Addr
pub mod BigBang
pub mod Registry
pub mod Register
use essential_node.Prelude.{ℕ, Bool, ◌&&◌, List, ℤ, Bytes, bytes_eq}

-- `ContentAddress([u8; 32])` and `Hash`
abbrev pub ContentAddress : Type 0
ContentAddress = Bytes

abbrev pub Key : Type 0
Key = List ℤ

abbrev pub Value : Type 0
Value = List ℤ

pub record PredicateAddress : Type 0 where
  pub contract : ContentAddress
  pub predicate : ContentAddress

pub record Mutation : Type 0 where
  pub key : Key
  pub value : Value

pub record Solution : Type 0 where
  pub predicate_to_solve : PredicateAddress
  pub predicate_data : List Value
  pub state_mutations : List Mutation

pub record SolutionSet : Type 0 where
  pub solutions : List Solution

-- `core::time::Duration`: whole seconds, a `u64`, and nanoseconds below a second
pub record Duration : Type 0 where
  pub secs : ℕ
  pub nanos : ℕ

pub record Header : Type 0 where
  pub number : ℤ
  pub timestamp : Duration

pub record Block : Type 0 where
  pub header : Header
  pub solution_sets : List SolutionSet

pub addr_eq : PredicateAddress → PredicateAddress → Bool
addr_eq a b = bytes_eq a.contract b.contract && bytes_eq a.predicate b.predicate
