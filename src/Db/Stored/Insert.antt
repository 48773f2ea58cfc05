-- ===== src/Db/Stored/Insert.antt =====
-- The rows that `insert_block` adds for the solutions of a set, all in one.
use essential_node.Types.{ContentAddress, Solution}
use essential_node.Convert.{Convert}
use essential_node.Db.{SolutionSetRow, SolutionRow, Database}
use essential_node.Db.Statements.{find_set, find_solution, solution_id, insert_solution}
use essential_node.Db.Insert.{
  insert_mutations, insert_pred_datas, insert_whole_solution, insert_solutions,
}
use essential_node.Db.Select.{find-new, find-other, next_id-snoc}
use essential_node.Db.Stored.{
  next_solution, with_rows, with_rows-with_rows, solution_row, rows_of_solutions, all_mutations,
  all_data, rows_of_mutations, rows_of_data, insert_mutations-rows, insert_pred_datas-rows,
}
use essential_node.Prelude.{
  ℕ, suc, ◌≤◌, ◌<◌, ◌≡◌, refl, ap, ◌∙◌, ◌&&◌, none, some, List, [], ◌∷◌, ◌++◌, append-nil, arith,
  ◌==◌,
}

insert_solution-row :
    (ca : ContentAddress) (ix : ℕ) (s : Solution) (db : Database) {set : SolutionSetRow}
    → find_set db ca ≡ some set
    → find_solution db set.id ix ≡ none
    → insert_solution ca ix s.predicate_to_solve.contract s.predicate_to_solve.predicate db
      ≡ with_rows db (solution_row set.id ix (next_solution db) s ∷ []) [] []
unfolding insert_solution
insert_solution-row ca ix s db found new =
    rw (append-nil db.mutation, append-nil db.pred_data) (rw (found, insert_solution) (rw new refl))

pub solution_id-found :
    (db : Database) (ca : ContentAddress) (ix : ℕ) {set : SolutionSetRow} {r : SolutionRow}
    → find_set db ca ≡ some set
    → find_solution db set.id ix ≡ some r
    → solution_id db ca ix ≡ some r.id
unfolding solution_id
solution_id-found db ca ix found there = rw (found, solution_id) (rw there refl)

find_solution-new :
    (set_id ix id : ℕ) (s : Solution) (db : Database)
    → find_solution db set_id ix ≡ none
    → find_solution (with_rows db (solution_row set_id ix id s ∷ []) [] []) set_id ix
      ≡ some (solution_row set_id ix id s)
unfolding find_solution
find_solution-new set_id ix id s db new =
    find-new (λ (r : SolutionRow). (r.solution_set_id == set_id) && (r.solution_index == ix))
      db.solution (solution_row set_id ix id s) new (ground arith)

find_solution-other :
    (set_id ix k id : ℕ) (s : Solution) (db : Database)
    → ix < k
    → find_solution db set_id k ≡ none
    → find_solution (with_rows db (solution_row set_id ix id s ∷ []) [] []) set_id k ≡ none
unfolding find_solution
find_solution-other set_id ix k id s db later new =
    find-other (λ (r : SolutionRow). (r.solution_set_id == set_id) && (r.solution_index == k))
      db.solution (solution_row set_id ix id s) new (ground arith)

module _ (c : Convert) where
  insert_whole_solution-rows :
      (ca : ContentAddress) (ix : ℕ) (s : Solution) (db : Database) {set : SolutionSetRow}
      → find_set db ca ≡ some set
      → find_solution db set.id ix ≡ none
      → insert_whole_solution c ca ix s db
        ≡ with_rows db
            (solution_row set.id ix (next_solution db) s ∷ [])
            (rows_of_mutations c (next_solution db) 0 s.state_mutations)
            (rows_of_data c (next_solution db) 0 s.predicate_data)
  unfolding insert_whole_solution solution_id find_set find_solution
  insert_whole_solution-rows ca ix s db {set} found new =
      let id = next_solution db in
      let one = with_rows db (solution_row set.id ix id s ∷ []) [] [] in
      let there : solution_id one ca ix ≡ some id =
        solution_id-found one ca ix found (find_solution-new set.id ix id s db new) in
      let ms = rows_of_mutations c id 0 s.state_mutations in
      let two = record one { mutation = one.mutation ++ ms } in
      ap
        (λ d.
          insert_pred_datas c ca ix 0 s.predicate_data
            (insert_mutations c ca ix 0 s.state_mutations d))
        (insert_solution-row ca ix s db found new)
      ∙ ap (insert_pred_datas c ca ix 0 s.predicate_data)
          (insert_mutations-rows c ca ix 0 s.state_mutations one there)
      ∙ insert_pred_datas-rows c ca ix 0 s.predicate_data two there
      ∙ rw (append-nil db.mutation, append-nil db.pred_data) refl

  pub insert_solutions-rows :
      (ca : ContentAddress) (ix : ℕ) (ss : List Solution) (db : Database) {set : SolutionSetRow}
      → find_set db ca ≡ some set
      → ((k : ℕ) → ix ≤ k → find_solution db set.id k ≡ none)
      → insert_solutions c ca ix ss db
        ≡ with_rows db
            (rows_of_solutions set.id ix (next_solution db) ss)
            (all_mutations c (next_solution db) ss)
            (all_data c (next_solution db) ss)
  unfolding insert_solutions find_set find_solution
  insert_solutions-rows ca ix [] db found new =
      rw (append-nil db.solution, append-nil db.mutation, append-nil db.pred_data) refl
  insert_solutions-rows ca ix (s ∷ ss) db {set} found new =
      let id = next_solution db in
      let row = solution_row set.id ix id s in
      let ms = rows_of_mutations c id 0 s.state_mutations in
      let ds = rows_of_data c id 0 s.predicate_data in
      let one = with_rows db (row ∷ []) ms ds in
      let counted : next_solution one ≡ suc id =
        next_id-snoc (λ (r : SolutionRow). r.id) db.solution row (omega arith) in
      ap (insert_solutions c ca (suc ix) ss)
        (insert_whole_solution-rows ca ix s db found (new ix (omega arith)))
      ∙ insert_solutions-rows ca (suc ix) ss one found
          (λ k h. find_solution-other set.id ix k id s db h (new k (omega arith)))
      ∙ rw counted (
          with_rows-with_rows db (row ∷ []) (rows_of_solutions set.id (suc ix) (suc id) ss) ms
            (all_mutations c (suc id) ss) ds (all_data c (suc id) ss))
