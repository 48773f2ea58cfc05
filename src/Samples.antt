-- ===== src/Samples.antt =====
-- Small inputs for the tests: an instance of the hashes, of the predicates and of the check of a set,
-- and blocks, databases and pools.
use mathlib.Core.List.{Perm, perm_middle}
use mathlib.Core.List.Perm
use essential_node.Db.Distinct.{IsPermutation}
use essential_node.Types.{Mutation, Solution, SolutionSet, Block}
use essential_node.Hashing.{Hashing, Predicates}
use essential_node.Db.{Engine, create_tables, row_engine}
use essential_node.Db.Has.{IsScan}
use essential_node.Db.Pool.{ConnectionPool}
use essential_node.Validate.Inner.{Checker}
use essential_node.Prelude.{
  subst, append-nil, ℕ, false, some, List, [], ◌∷◌, ◌++◌, length, flat, ℤ, pos, pos_part, ok, Bytes,
}

abbrev set_words : Solution → Bytes
set_words s =
    length s.state_mutations ∷ (s.predicate_to_solve.contract ++ s.predicate_to_solve.predicate)

abbrev pub hashing : Hashing
hashing = record {
  solution_set_addr = λ s. length s.solutions ∷ flat set_words s.solutions;
  hash_block = λ n d addrs. pos_part n ∷ d.secs ∷ d.nanos ∷ flat (λ a. a) addrs;
}

-- a predicate as its program address, encoded as it is
abbrev pub predicates : Predicates
predicates = record {
  Predicate = Bytes;
  program_addresses = λ p. p ∷ [];
  encode = λ p. some p;
  decode = λ b. some b;
  predicate_addr = λ p. p;
  program_addr = λ b. b;
  contract_addr = λ ps salt. salt;
}

-- each set uses as much gas as it has solutions
abbrev pub checker : Checker predicates
checker = record {
  CheckError = ℕ;
  check_set_predicates = λ pre post set get_predicate get_program. ok (length set.solutions);
}

abbrev pub key_mutation : Mutation
key_mutation = record { key = pos 7 ∷ []; value = pos 1 ∷ pos 2 ∷ [] }

abbrev pub one_solution : Solution
one_solution = record {
  predicate_to_solve = record { contract = 5 ∷ []; predicate = 6 ∷ [] };
  predicate_data = (pos 9 ∷ []) ∷ [];
  state_mutations = key_mutation ∷ [];
}

abbrev pub one_set : SolutionSet
one_set = record { solutions = one_solution ∷ [] }

abbrev pub block_at : ℤ → List SolutionSet → Block
block_at n sets = record {
  header = record { number = n; timestamp = record { secs = 10; nanos = 500 } };
  solution_sets = sets;
}

abbrev pub open_pool : ConnectionPool
open_pool = record { database = create_tables; closed = false }

pub row_engine-IsScan : IsScan row_engine
row_engine-IsScan = record { same_rows = λ A xs x. (λ h. h, λ h. h) }

pub row_engine-IsPermutation : IsPermutation row_engine
row_engine-IsPermutation = record { permutes = λ A xs. Perm.refl xs }

-- an engine that yields the first row last
abbrev pub turned : {A : Type 0} → List A → List A
turned [] = []
turned (x ∷ xs) = xs ++ x ∷ []

abbrev pub turned_engine : Engine
turned_engine = record { scan = λ A xs. turned xs }

turned-perm : {A : Type 0} (xs : List A) → Perm (turned xs) xs
turned-perm [] = Perm.refl []
turned-perm (x ∷ xs) =
    subst (λ ys. Perm (xs ++ x ∷ []) (x ∷ ys)) (append-nil xs) (perm_middle xs [])

pub turned_engine-IsPermutation : IsPermutation turned_engine
turned_engine-IsPermutation = record { permutes = λ A xs. turned-perm xs }
