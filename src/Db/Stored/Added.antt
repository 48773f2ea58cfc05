-- ===== src/Db/Stored/Added.antt =====
-- What the database holds after a new solution set is added: the set, all that it held, and no row
-- that names something missing.
use essential_node.Types.{ContentAddress, Solution, SolutionSet}
use essential_node.Convert.{Convert}
use essential_node.Db.{BlockRow, SolutionSetRow, SolutionRow, MutationRow, PredDataRow, Database}
use essential_node.Db.Listing.Range.{All, All-append}
use essential_node.Db.Select.{
  find-other, find-none, All-imp, select-append, select-grows, select-new, select-none,
  select-every, find-new, next_id-bound, next_id-snoc,
}
use essential_node.Db.Statements.{find_set, find_solution}
use essential_node.Db.Stored.{
  next_set, next_solution, solution_row, rows_of_solutions, rows_of_mutations, rows_of_data,
  all_mutations, all_data,
}
use essential_node.Db.Stored.Read.{Reads, Holds}
use essential_node.Db.Stored.Frame.{Grows}
use essential_node.Db.Stored.New.{
  Refers, set_row, added, rows_of_solutions-In, next_id-rows, rows_of_mutations-Of, rows_of_data-Of,
  Within, all_mutations-Within, all_data-Within, find_set-placed, no_solutions,
}
use essential_node.Prelude.{
  ℕ, suc, ◌+◌, ◌≤◌, ◌<◌, ◌≡◌, refl, ◌∙◌, Bool, true, false, ◌&&◌, none, some, List, [], ◌∷◌, ◌++◌,
  arith, ◌==◌, length, select, find, sym, ap, append_assoc,
}

-- a list in three parts of which a test takes the one in the middle
select-middle :
    {A : Type 0} (p : A → Bool) (xs ys zs : List A)
    → All (λ x. p x ≡ false) xs
    → All (λ y. p y ≡ true) ys
    → All (λ z. p z ≡ false) zs
    → select p (xs ++ (ys ++ zs)) ≡ ys
select-middle p xs ys zs h k l =
    select-append p xs (ys ++ zs)
    ∙ rw (select-none p xs h) (select-grows p ys zs l ∙ select-every p ys k)

find-append :
    {A : Type 0} (p : A → Bool) (xs : List A) (y : A) (ys : List A)
    → find p xs ≡ none
    → p y ≡ true
    → find p (xs ++ y ∷ ys) ≡ some y
find-append p [] y ys e k = rw k refl
find-append p (x ∷ xs) y ys e k = ground (arith, find-append p xs y ys)

module _ (c : Convert) where
  -- the rows of the solutions from one on, behind rows of other solutions
  Reads-rows :
      (db : Database) (set_id ix id : ℕ) (ss : List Solution) (rs : List SolutionRow)
      (ms : List MutationRow) (ds : List PredDataRow)
      → db.solution ≡ rs ++ rows_of_solutions set_id ix id ss
      → db.mutation ≡ ms ++ all_mutations c id ss
      → db.pred_data ≡ ds ++ all_data c id ss
      → ((k : ℕ)
          → ix ≤ k
          → find (λ r. (r.solution_set_id == set_id) && (r.solution_index == k)) rs ≡ none)
      → All (λ (m : MutationRow). m.solution_id < id) ms
      → All (λ (d : PredDataRow). d.solution_id < id) ds
      → Reads c db set_id ix id ss
  unfolding find_solution
  Reads-rows db set_id ix id [] rs ms ds er em ed new hm hd = tt
  Reads-rows db set_id ix id (s ∷ ss) rs ms ds er em ed new hm hd =
      let row = solution_row set_id ix id s in
      let mine = rows_of_mutations c id 0 s.state_mutations in
      let rest = all_mutations c (suc id) ss in
      let mine_d = rows_of_data c id 0 s.predicate_data in
      let rest_d = all_data c (suc id) ss in
      let of_m = rows_of_mutations-Of c id 0 s.state_mutations in
      let of_d = rows_of_data-Of c id 0 s.predicate_data in
      (
        ap (find (λ (r : SolutionRow). (r.solution_set_id == set_id) && (r.solution_index == ix)))
              er
            ∙ find-append _ rs row (rows_of_solutions set_id (suc ix) (suc id) ss)
                (new ix (omega arith)) (ground arith),
        ap (select (λ (m : MutationRow). m.solution_id == id)) em
            ∙ select-middle _ ms mine rest
                (All-imp _ _ ms (λ (m : MutationRow) (h : m.solution_id < id). ground (arith, h))
                  hm)
                (All-imp _ _ mine (λ (m : MutationRow) (h : m.solution_id ≡ id). ground (arith, h))
                  of_m)
                (All-imp _ _ rest
                  (λ (m : MutationRow) (h : Within c (suc id) (suc id + length ss) m.solution_id).
                    ground (arith, h))
                  (all_mutations-Within c (suc id) ss)),
        ap (select (λ (d : PredDataRow). d.solution_id == id)) ed
            ∙ select-middle _ ds mine_d rest_d
                (All-imp _ _ ds (λ (m : PredDataRow) (h : m.solution_id < id). ground (arith, h))
                  hd)
                (All-imp _ _ mine_d
                  (λ (m : PredDataRow) (h : m.solution_id ≡ id). ground (arith, h)) of_d)
                (All-imp _ _ rest_d
                  (λ (m : PredDataRow) (h : Within c (suc id) (suc id + length ss) m.solution_id).
                    ground (arith, h))
                  (all_data-Within c (suc id) ss)),
        Reads-rows db set_id (suc ix) (suc id) ss (rs ++ row ∷ []) (ms ++ mine) (ds ++ mine_d)
            (er ∙ sym (append_assoc rs (row ∷ []) (rows_of_solutions set_id (suc ix) (suc id) ss)))
            (em ∙ sym (append_assoc ms mine rest)) (ed ∙ sym (append_assoc ds mine_d rest_d))
            (λ k h.
              find-other
                (λ (r : SolutionRow). (r.solution_set_id == set_id) && (r.solution_index == k)) rs
                row (new k (omega arith)) (ground (arith, h)))
            (All-append _ ms mine
              (All-imp _ _ ms (λ (m : MutationRow) (h : m.solution_id < id). omega arith) hm)
              (All-imp _ _ mine (λ (m : MutationRow) (h : m.solution_id ≡ id). omega arith) of_m))
            (All-append _ ds mine_d
              (All-imp _ _ ds (λ (m : PredDataRow) (h : m.solution_id < id). omega arith) hd)
              (All-imp _ _ mine_d (λ (m : PredDataRow) (h : m.solution_id ≡ id). omega arith)
                of_d)),
      )

  module _ (b : BlockRow) (ca : ContentAddress) (ix : ℕ) (set : SolutionSet) (db : Database) where
    pub next_set-added : next_set (added c b ca ix set db) ≡ suc (next_set db)
    next_set-added =
        next_id-snoc (λ (s : SolutionSetRow). s.id) db.solution_set (set_row db ca) (omega arith)

    next_solution-added :
        next_solution (added c b ca ix set db) ≡ next_solution db + length set.solutions
    next_solution-added =
        next_id-rows (next_set db) 0 (next_solution db) set.solutions db.solution refl

    pub added-Grows : Grows db (added c b ca ix set db)
    added-Grows =
        let id = next_solution db in
        record {
          sets = (set_row db ca ∷ [], refl, (omega arith, tt));
          solutions = (
            rows_of_solutions (next_set db) 0 id set.solutions,
            refl,
            All-imp _ _ _
                (λ (r : SolutionRow) (h : (r.solution_set_id == next_set db) ≡ true).
                  ground (arith, h))
                (rows_of_solutions-In (next_set db) 0 id set.solutions),
          );
          mutations = (
            all_mutations c id set.solutions,
            refl,
            All-imp _ _ _
                (λ (m : MutationRow) (h : Within c id (id + length set.solutions) m.solution_id).
                  h.0)
                (all_mutations-Within c id set.solutions),
          );
          datas = (
            all_data c id set.solutions,
            refl,
            All-imp _ _ _
                (λ (m : PredDataRow) (h : Within c id (id + length set.solutions) m.solution_id).
                  h.0)
                (all_data-Within c id set.solutions),
          );
        }

    pub added-Refers : Refers db → Refers (added c b ca ix set db)
    added-Refers refers =
        let id = next_solution db in
        let sets = next_set-added in
        let count = next_solution-added in
        record {
          of_solutions =
              All-append _ db.solution _
                (All-imp _ _ db.solution
                  (λ (r : SolutionRow) (h : r.solution_set_id < next_set db).
                    omega (arith, sets, h))
                  refers.of_solutions)
                (All-imp _ _ _
                  (λ (r : SolutionRow) (h : (r.solution_set_id == next_set db) ≡ true).
                    ground (arith, sets, h))
                  (rows_of_solutions-In (next_set db) 0 id set.solutions));
          of_mutations =
              All-append _ db.mutation _
                (All-imp _ _ db.mutation
                  (λ (r : MutationRow) (h : r.solution_id < id). omega (arith, count, h))
                  refers.of_mutations)
                (All-imp _ _ _
                  (λ (r : MutationRow) (h : Within c id (id + length set.solutions) r.solution_id).
                    omega (arith, count, h))
                  (all_mutations-Within c id set.solutions));
          of_data =
              All-append _ db.pred_data _
                (All-imp _ _ db.pred_data
                  (λ (r : PredDataRow) (h : r.solution_id < id). omega (arith, count, h))
                  refers.of_data)
                (All-imp _ _ _
                  (λ (r : PredDataRow) (h : Within c id (id + length set.solutions) r.solution_id).
                    omega (arith, count, h))
                  (all_data-Within c id set.solutions));
        }

    pub added-Holds :
        Refers db → find_set db ca ≡ none → Holds c (added c b ca ix set db) ca (next_set db) set
    unfolding find_set find_solution
    added-Holds refers new = record {
      found = find_set-placed c b ca ix db new;
      by_id =
          find-new (λ (s : SolutionSetRow). s.id == next_set db) db.solution_set (set_row db ca)
            (find-none _ db.solution_set (
              All-imp _ _ db.solution_set
                (λ (s : SolutionSetRow) (h : s.id < next_set db). ground (arith, h))
                (next_id-bound (λ (s : SolutionSetRow). s.id) db.solution_set (next_set db)
                  (omega arith))))
            (ground arith);
      first = next_solution db;
      solutions =
          select-new _ db.solution
            (rows_of_solutions (next_set db) 0 (next_solution db) set.solutions)
            (All-imp _ _ db.solution
              (λ (r : SolutionRow) (h : r.solution_set_id < next_set db). ground (arith, h))
              refers.of_solutions)
            (rows_of_solutions-In (next_set db) 0 (next_solution db) set.solutions);
      reads =
          Reads-rows (added c b ca ix set db) (next_set db) 0 (next_solution db) set.solutions
            db.solution db.mutation db.pred_data refl refl refl (λ k h. no_solutions c db refers k)
            refers.of_mutations refers.of_data;
      below = omega (arith, next_set-added);
      bounded = omega (arith, next_solution-added);
    }
