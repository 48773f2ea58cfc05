-- ===== src/Db/Stored/Others.antt =====
-- The blocks that an insertion of a new block leaves alone.
use essential_node.Types.{ContentAddress, SolutionSet}
use essential_node.Convert.{Convert}
use essential_node.Db.{SolutionSetRow, SolutionRow, MutationRow, PredDataRow, Database, Engine}
use essential_node.Db.Select.{All-imp, find-same, find-All, next_id-bound}
use essential_node.Db.Statements.{find_set, find_solution, solution_id}
use essential_node.Db.Query.{
  solution_rows, mutation_rows, pred_data_rows, fetch_solution, fetch_solutions, get_solution_set,
}
use essential_node.Db.Stored.{next_set, next_solution}
use essential_node.Db.Stored.Frame.{Grows, Grown, select-Grown, find-Grown}
use essential_node.Prelude.{
  ℕ, ◌≡◌, ap, ◌∙◌, Bool, false, some, List, find, suc, ◌≤◌, ◌<◌, refl, sym, inl, inr, ◌&&◌, Option,
  none, [], ◌∷◌, arith, ◌==◌, Option-cases, select, bytes_eq, bytes_eq,
}

pub find-Grown_same :
    {A : Type 0} (p : A → Bool) (xs ys : List A) (P : A → Type 0)
    → ((a : A) → P a → p a ≡ false)
    → Grown xs ys P
    → find p ys ≡ find p xs
find-Grown_same p xs ys P other (more, e, h) =
    ap (find p) e ∙ find-same p xs more (All-imp P (λ a. p a ≡ false) more other h)

-- `mutation_rows` and `pred_data_rows` by the solution that is found
module _ (e : Engine) (db : Database) (ca : ContentAddress) (ix : ℕ) where
  abbrev id_of : Option SolutionRow → Option ℕ
  id_of none = none
  id_of (some r) = some r.id

  solution_id-of :
      {s : SolutionSetRow}
      → find_set db ca ≡ some s
      → (o : Option SolutionRow) → find_solution db s.id ix ≡ o
      → solution_id db ca ix ≡ id_of o
  unfolding solution_id
  solution_id-of found none there = rw (found, solution_id) (rw there refl)
  solution_id-of found (some r) there = rw (found, solution_id) (rw there refl)

  abbrev mutations_of : Option ℕ → List MutationRow
  mutations_of none = []
  mutations_of (some i) = e.scan MutationRow (select (λ r. r.solution_id == i) db.mutation)

  mutation_rows-of :
      (o : Option ℕ) → solution_id db ca ix ≡ o → mutation_rows e ca ix db ≡ mutations_of o
  unfolding mutation_rows
  mutation_rows-of none there = rw (there, mutation_rows) refl
  mutation_rows-of (some i) there = rw (there, mutation_rows) refl

  abbrev data_of : Option ℕ → List PredDataRow
  data_of none = []
  data_of (some i) = e.scan PredDataRow (select (λ r. r.solution_id == i) db.pred_data)

  pred_data_rows-of :
      (o : Option ℕ) → solution_id db ca ix ≡ o → pred_data_rows e ca ix db ≡ data_of o
  unfolding pred_data_rows
  pred_data_rows-of none there = rw (there, pred_data_rows) refl
  pred_data_rows-of (some i) there = rw (there, pred_data_rows) refl

module _ (e : Engine) (c : Convert) (db db' : Database) (g : Grows db db') where
  find_set-Grows :
      (ca : ContentAddress) {s : SolutionSetRow}
      → find_set db ca ≡ some s
      → (find_set db' ca ≡ some s) × (s.id < next_set db)
  unfolding find_set
  find_set-Grows ca found = (
    find-Grown (λ (s : SolutionSetRow). bytes_eq s.content_addr ca) db.solution_set db'.solution_set
        (λ s. next_set db ≤ s.id) g.sets found,
    find-All (λ (s : SolutionSetRow). bytes_eq s.content_addr ca) (λ s. s.id < next_set db)
        db.solution_set found
        (next_id-bound (λ (s : SolutionSetRow). s.id) db.solution_set (next_set db) (omega arith)),
  )

  find_solution-Grows :
      (set_id ix : ℕ)
      → set_id < next_set db
      → find_solution db' set_id ix ≡ find_solution db set_id ix
  unfolding find_solution
  find_solution-Grows set_id ix below =
      find-Grown_same
        (λ (r : SolutionRow). (r.solution_set_id == set_id) && (r.solution_index == ix)) db.solution
        db'.solution (λ r. next_set db ≤ r.solution_set_id) (λ r k. ground (arith, below, k))
        g.solutions

  find_solution-bound :
      (set_id ix : ℕ) {r : SolutionRow}
      → find_solution db set_id ix ≡ some r
      → r.id < next_solution db
  unfolding find_solution
  find_solution-bound set_id ix there =
      find-All (λ (r : SolutionRow). (r.solution_set_id == set_id) && (r.solution_index == ix))
        (λ r. r.id < next_solution db) db.solution there
        (next_id-bound (λ (r : SolutionRow). r.id) db.solution (next_solution db) (omega arith))

  mutations-Grows :
      (i : ℕ)
      → i < next_solution db
      → mutations_of e db' [] 0 (some i) ≡ mutations_of e db [] 0 (some i)
  mutations-Grows i below = ap (e.scan MutationRow) (
      select-Grown (λ (m : MutationRow). m.solution_id == i) db.mutation db'.mutation
        (λ m. next_solution db ≤ m.solution_id) (λ m k. ground (arith, below, k)) g.mutations)

  data-Grows :
      (i : ℕ) → i < next_solution db → data_of e db' [] 0 (some i) ≡ data_of e db [] 0 (some i)
  data-Grows i below = ap (e.scan PredDataRow) (
      select-Grown (λ (m : PredDataRow). m.solution_id == i) db.pred_data db'.pred_data
        (λ m. next_solution db ≤ m.solution_id) (λ m k. ground (arith, below, k)) g.datas)

  fetched-Grows :
      (ca : ContentAddress) (ix : ℕ) {s : SolutionSetRow}
      → find_set db ca ≡ some s
      → (mutation_rows e ca ix db' ≡ mutation_rows e ca ix db)
        × (pred_data_rows e ca ix db' ≡ pred_data_rows e ca ix db)
  fetched-Grows ca ix {s} found =
      let (found', below) = find_set-Grows ca found in
      let same = find_solution-Grows s.id ix below in
      elim (Option-cases (find_solution db s.id ix)) [
        | inl gone ↦
            let new = solution_id-of e db' ca ix found' none (same ∙ gone) in
            let old = solution_id-of e db ca ix found none gone in
            (
              mutation_rows-of e db' ca ix none new ∙ sym (mutation_rows-of e db ca ix none old),
              pred_data_rows-of e db' ca ix none new ∙ sym (pred_data_rows-of e db ca ix none old),
            )
        | inr (r, there) ↦
            let new = solution_id-of e db' ca ix found' (some r) (same ∙ there) in
            let old = solution_id-of e db ca ix found (some r) there in
            let bound = find_solution-bound s.id ix there in
            (
              mutation_rows-of e db' ca ix (some r.id) new
                  ∙ mutations-Grows r.id bound
                  ∙ sym (mutation_rows-of e db ca ix (some r.id) old),
              pred_data_rows-of e db' ca ix (some r.id) new
                  ∙ data-Grows r.id bound
                  ∙ sym (pred_data_rows-of e db ca ix (some r.id) old),
            )
      ]

  fetch_solutions-Grows :
      (ca : ContentAddress) (ix : ℕ) (rows : List SolutionRow) {s : SolutionSetRow}
      → find_set db ca ≡ some s
      → fetch_solutions e c ca db' ix rows ≡ fetch_solutions e c ca db ix rows
  unfolding fetch_solutions fetch_solution
  fetch_solutions-Grows ca ix [] found = refl
  fetch_solutions-Grows ca ix (r ∷ rs) found =
      let (ms, ds) = fetched-Grows ca ix found in
      rw (ms, ds) (rw (fetch_solutions-Grows ca (suc ix) rs found) refl)

  solution_rows-Grows :
      (ca : ContentAddress) {s : SolutionSetRow}
      → find_set db ca ≡ some s
      → solution_rows e ca db' ≡ solution_rows e ca db
  unfolding solution_rows
  solution_rows-Grows ca {s} found =
      let (found', below) = find_set-Grows ca found in
      let same =
        select-Grown (λ (r : SolutionRow). r.solution_set_id == s.id) db.solution db'.solution
          (λ r. next_set db ≤ r.solution_set_id) (λ r k. ground (arith, below, k)) g.solutions in
      rw (found, solution_rows) (rw (found', solution_rows) (rw same refl))

  pub get_solution_set-Grows :
      (ca : ContentAddress) {s : SolutionSetRow}
      → find_set db ca ≡ some s
      → get_solution_set e c ca db' ≡ get_solution_set e c ca db
  unfolding get_solution_set
  get_solution_set-Grows ca found =
      ap (λ ss. let s : SolutionSet = record { solutions = ss } in s)
        (ap (fetch_solutions e c ca db' 0) (solution_rows-Grows ca found)
          ∙ fetch_solutions-Grows ca 0 (solution_rows e ca db) found)
