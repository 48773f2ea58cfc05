-- ===== src/Db/Stored/Read.antt =====
-- What `get_solution_set` (crates/node-db/src/lib.rs) reads of the rows of a set.
use essential_node.Types.{ContentAddress, Mutation, Value, Solution, SolutionSet}
use essential_node.Convert.{Convert, IsConvert, AreWords}
use essential_node.Blob.{words_from_blob}
use essential_node.Blob.RoundTrip.{words_from_blob-blob_from_words}
use essential_node.Db.{SolutionSetRow, SolutionRow, MutationRow, PredDataRow, Database, Engine}
use essential_node.Db.Sort.{sort}
use essential_node.Db.Listing.Range.{All}
use mathlib.Core.List.{Perm}
use mathlib.Core.List.Perm
use essential_node.Db.Distinct.{IsPermutation}
use essential_node.Db.Ascending.{Ascending, sort-Ascending}
use essential_node.Db.Finalized.Latest.{IsOrder}
use essential_node.Db.Stored.Alike.{AlikeSolution, AlikeSolutions}
use essential_node.Db.Statements.{find_solution, find_set, solution_id}
use essential_node.Db.Query.{
  solution_rows, mutation_rows, pred_data_rows, fetch_solution, fetch_solutions, get_solution_set,
}
use essential_node.Db.Stored.Insert.{solution_id-found}
use essential_node.Db.Stored.{
  next_set, next_solution, solution_row, rows_of_solutions, rows_of_mutations, rows_of_data,
}
use essential_node.Prelude.{
  ℕ, suc, ◌≤◌, ◌≡◌, refl, ap, some, List, [], ◌∷◌, map, arith, ltb, ◌==◌, set, select, find, ◌∙◌,
  ◌+◌, ◌<◌, length, sym, subst, Bool, true,
}

-- the words of a solution are those of an i64
abbrev pub AreSolutionWords : Solution → Type 0
AreSolutionWords s =
    All (λ (m : Mutation). AreWords m.key × AreWords m.value) s.state_mutations
    × All AreWords s.predicate_data

module _ (c : Convert) where
  -- the solutions from an index on are found, with just their mutations and predicate data
  abbrev pub Reads : Database → ℕ → ℕ → ℕ → List Solution → Type 0
  Reads db set_id ix id [] = Unit {0}
  Reads db set_id ix id (s ∷ ss) =
      (find_solution db set_id ix ≡ some (solution_row set_id ix id s))
      × (select (λ r. r.solution_id == id) db.mutation ≡ rows_of_mutations c id 0 s.state_mutations)
      × (select (λ r. r.solution_id == id) db.pred_data ≡ rows_of_data c id 0 s.predicate_data)
      × Reads db set_id (suc ix) (suc id) ss

  -- the set is in the database under this id
  pub record Holds (db : Database) (ca : ContentAddress) (set_id : ℕ) (set : SolutionSet)
      : Type 0 where
    pub found : find_set db ca ≡ some (record { id = set_id; content_addr = ca })
    pub by_id :
        find (λ (s : SolutionSetRow). s.id == set_id) db.solution_set
        ≡ some (record { id = set_id; content_addr = ca })
    pub first : ℕ
    pub solutions :
        select (λ (r : SolutionRow). r.solution_set_id == set_id) db.solution
        ≡ rows_of_solutions set_id 0 first set.solutions
    pub reads : Reads db set_id 0 first set.solutions
    pub below : set_id < next_set db
    pub bounded : first + length set.solutions ≤ next_solution db

  later_rows :
      (set_id ix k id : ℕ) (ss : List Solution)
      → k < ix
      → All (λ (r : SolutionRow). ltb k r.solution_index ≡ true) (rows_of_solutions set_id ix id ss)
  later_rows set_id ix k id [] h = tt
  later_rows set_id ix k id (s ∷ ss) h =
      (ground (arith, h), later_rows set_id (suc ix) k (suc id) ss (omega arith))

  -- the order of get_solution.sql
  abbrev by_index : SolutionRow → SolutionRow → Bool
  by_index a b = ltb a.solution_index b.solution_index

  by_index-IsOrder : IsOrder by_index
  by_index-IsOrder = record {
    irreflexive = λ x. ground arith;
    asymmetric = λ x y h. ground arith;
    tied = λ x y z h k. ground arith;
  }

  rows_of_solutions-Ascending :
      (set_id ix id : ℕ) (ss : List Solution)
      → Ascending by_index (rows_of_solutions set_id ix id ss)
  rows_of_solutions-Ascending set_id ix id [] = tt
  rows_of_solutions-Ascending set_id ix id (s ∷ ss) = (
    later_rows set_id (suc ix) ix (suc id) ss (omega arith),
    rows_of_solutions-Ascending set_id (suc ix) (suc id) ss,
  )

  solution_row_set : IsSet SolutionRow
  solution_row_set = hlevel

  module _ (laws : IsConvert c) (e : Engine) (law : IsPermutation e) where
    abbrev mutation_words : MutationRow → Mutation
    mutation_words m = record { key = words_from_blob c m.key; value = words_from_blob c m.value }

    abbrev data_words : PredDataRow → Value
    data_words d = words_from_blob c d.value

    mutations_back :
        (id ix : ℕ) (ms : List Mutation)
        → All (λ (m : Mutation). AreWords m.key × AreWords m.value) ms
        → map mutation_words (rows_of_mutations c id ix ms) ≡ ms
    mutations_back id ix [] h = refl
    mutations_back id ix (m ∷ ms) h =
        rw
          (
            (words_from_blob-blob_from_words c laws m.key h.0.0).0,
            (words_from_blob-blob_from_words c laws m.value h.0.1).0,
          )
          (ap (◌∷◌ m) (mutations_back id (suc ix) ms h.1))

    data_back :
        (id ix : ℕ) (vs : List Value)
        → All AreWords vs
        → map data_words (rows_of_data c id ix vs) ≡ vs
    data_back id ix [] h = refl
    data_back id ix (v ∷ vs) h =
        rw ((words_from_blob-blob_from_words c laws v h.0).0)
          (ap (◌∷◌ v) (data_back id (suc ix) vs h.1))

    mutation_rows-found :
        (db : Database) (ca : ContentAddress) (ix : ℕ) {id : ℕ}
        → solution_id db ca ix ≡ some id
        → mutation_rows e ca ix db
          ≡ e.scan MutationRow (select (λ r. r.solution_id == id) db.mutation)
    unfolding mutation_rows
    mutation_rows-found db ca ix there = rw (there, mutation_rows) refl

    pred_data_rows-found :
        (db : Database) (ca : ContentAddress) (ix : ℕ) {id : ℕ}
        → solution_id db ca ix ≡ some id
        → pred_data_rows e ca ix db
          ≡ e.scan PredDataRow (select (λ r. r.solution_id == id) db.pred_data)
    unfolding pred_data_rows
    pred_data_rows-found db ca ix there = rw (there, pred_data_rows) refl

    solution_rows-found :
        (db : Database) (ca : ContentAddress) {set : SolutionSetRow}
        → find_set db ca ≡ some set
        → solution_rows e ca db
          ≡ sort by_index
              (e.scan SolutionRow (select (λ r. r.solution_set_id == set.id) db.solution))
    unfolding solution_rows
    solution_rows-found db ca there = rw (there, solution_rows) refl

    fetch_solution-Reads :
        (db : Database) (ca : ContentAddress) (set_id ix id : ℕ) (s : Solution)
        → AreSolutionWords s
        → solution_id db ca ix ≡ some id
        → select (λ r. r.solution_id == id) db.mutation ≡ rows_of_mutations c id 0 s.state_mutations
        → select (λ r. r.solution_id == id) db.pred_data ≡ rows_of_data c id 0 s.predicate_data
        → AlikeSolution (fetch_solution e c ca db ix (solution_row set_id ix id s)) s
    unfolding fetch_solution
    fetch_solution-Reads db ca set_id ix id s words there ms ds = (
      refl,
      subst (λ vs. Perm (map data_words vs) s.predicate_data)
          (sym (pred_data_rows-found db ca ix there ∙ ap (e.scan PredDataRow) ds))
          (subst (Perm _) (data_back id 0 s.predicate_data words.1)
            (Perm.map data_words (law.permutes PredDataRow _))),
      subst (λ vs. Perm (map mutation_words vs) s.state_mutations)
          (sym (mutation_rows-found db ca ix there ∙ ap (e.scan MutationRow) ms))
          (subst (Perm _) (mutations_back id 0 s.state_mutations words.0)
            (Perm.map mutation_words (law.permutes MutationRow _))),
    )

    fetch_solutions-Reads :
        (db : Database) (ca : ContentAddress) (set_id ix id : ℕ) (ss : List Solution)
        → All AreSolutionWords ss
        → find_set db ca ≡ some (record { id = set_id; content_addr = ca })
        → Reads db set_id ix id ss
        → AlikeSolutions (fetch_solutions e c ca db ix (rows_of_solutions set_id ix id ss)) ss
    unfolding fetch_solutions
    fetch_solutions-Reads db ca set_id ix id [] words found reads = tt
    fetch_solutions-Reads db ca set_id ix id (s ∷ ss) words found reads = (
      fetch_solution-Reads db ca set_id ix id s words.0 (solution_id-found db ca ix found reads.0)
          reads.1 reads.2,
      fetch_solutions-Reads db ca set_id (suc ix) (suc id) ss words.1 found reads.3,
    )

    pub get_solution_set-Holds :
        (db : Database) (ca : ContentAddress) (set_id : ℕ) (set : SolutionSet)
        → All AreSolutionWords set.solutions
        → Holds db ca set_id set
        → AlikeSolutions (get_solution_set e c ca db).solutions set.solutions
    unfolding get_solution_set solution_rows
    get_solution_set-Holds db ca set_id set words holds =
        let ascending = rows_of_solutions-Ascending set_id 0 holds.first set.solutions in
        let rows =
          solution_rows-found db ca holds.found
          ∙ ap (λ rs. sort by_index (e.scan SolutionRow rs)) holds.solutions
          ∙ sort-Ascending by_index by_index-IsOrder solution_row_set _ _ ascending
              (law.permutes SolutionRow _) in
        subst (λ rs. AlikeSolutions (fetch_solutions e c ca db 0 rs) set.solutions) (sym rows)
          (fetch_solutions-Reads db ca set_id 0 holds.first set.solutions words holds.found
            holds.reads)
